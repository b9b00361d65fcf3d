-- ===== src/Send/Pacer.antt =====
-- `Pacer` of diode_send/src/main.rs, which spaces the packets of both sending threads. Times are
-- nanoseconds since the pacer was made.
pub mod Spacing
pub mod Threads
use data_diode.Prelude.{
  ℕ, ◌-◌, Bool, true, false, not, ◌&&◌, List, [], ◌∷◌, Option, none, some, if◌then◌else◌, ◌==◌, ltb,
}
use Prim.Native.Nat.{max}
use data_diode.Receive.State.{saturating_add}

-- What happens to the shared deadline right before a `compare_exchange_weak`: it fails for no
-- reason, or another thread has stored a value.
pub data Interference : Type 0 where
  spurious : Interference
  stored : ℕ → Interference

-- `target` and `new` of one round of the loop around `compare_exchange_weak`.
unfoldable pub take_slot : ℕ → ℕ → ℕ → ℕ × ℕ
take_slot interval_nanos now_ns prev =
    let target = max prev now_ns in (target, saturating_add target interval_nanos)

-- What the exchange answers: `Ok`, with the slot that is taken and the deadline that was stored, or
-- `Err` with the value that it found.
pub data Attempt : Type 0 where
  ok : ℕ → ℕ → Attempt
  err : ℕ → Attempt

-- One round of the loop when the shared deadline is `deadline` and was last seen to be `prev`.
unfoldable pub attempt : ℕ → ℕ → ℕ → Bool → ℕ → Attempt
attempt interval_nanos now_ns prev fails deadline =
    let (target, new) = take_slot interval_nanos now_ns prev in
    if not fails && deadline == prev then ok target new else err deadline

unfoldable pub after_attempt : (ℕ → ℕ × ℕ) → Attempt → ℕ × ℕ
after_attempt again (ok slot new) = (slot, new)
after_attempt again (err actual) = again actual

-- The loop, where `prev` is what the shared deadline was seen to be: the slot that is taken and the
-- deadline that is stored. When nothing interferes any more the exchange succeeds.
unfoldable pub claim : ℕ → ℕ → ℕ → List Interference → ℕ × ℕ
claim interval_nanos now_ns prev [] = take_slot interval_nanos now_ns prev
claim interval_nanos now_ns prev (spurious ∷ is) =
    after_attempt (λ actual. claim interval_nanos now_ns actual is)
      (attempt interval_nanos now_ns prev true prev)
claim interval_nanos now_ns prev (stored value ∷ is) =
    after_attempt (λ actual. claim interval_nanos now_ns actual is)
      (attempt interval_nanos now_ns prev false value)

abbrev pub sleep_headroom_nanos : ℕ
sleep_headroom_nanos = 200_000

-- The loop that waits for the slot, by the clock's readings: how long it sleeps each time, and the
-- reading that ends it, if one does.
unfoldable pub pause : ℕ → ℕ → List ℕ → List ℕ × Option ℕ
pause slot now_ns [] = ([], if ltb now_ns slot then none else some now_ns)
pause slot now_ns (next ∷ readings) =
    let rest = pause slot next readings in
    let remaining = slot - now_ns in
    if not (ltb now_ns slot)
    then ([], some now_ns)
    else if ltb 1_000_000 remaining
    then ((remaining - sleep_headroom_nanos) ∷ rest.0, rest.1)
    else rest

-- `wait` up to the slot that it waits for, which is `none` without pacing, and the new deadline.
unfoldable pub wait : ℕ → ℕ → ℕ → List Interference → Option ℕ × ℕ
wait interval_nanos now_ns deadline is =
    if interval_nanos == 0
    then (none, deadline)
    else (let (slot, next_deadline) = claim interval_nanos now_ns deadline is in
        (some slot, next_deadline))
