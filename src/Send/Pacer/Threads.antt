-- ===== src/Send/Pacer/Threads.antt =====
-- The shared deadline of `Pacer` of diode_send/src/main.rs under any number of threads that are in
-- `wait` at the same time, up to the slot that each waits for.
use data_diode.Prelude.{
  ℕ, ◌+◌, ◌≤◌, ◌<◌, min, Bool, true, false, List, [], ◌∷◌, map, inl, inr, Option, none, some, ◌≡◌,
  refl, sym, ap, subst, arith, if◌then◌else◌, ◌==◌, ==_of_positive, ==_refl, Bool-cases,
  both_branches,
}
use Prim.Native.Nat.{max}
use data_diode.Decimal.{max_u64}
use data_diode.Receive.State.{saturating_add}
use data_diode.Send.Pacer.{Attempt, ok, err, take_slot, attempt}
use data_diode.Send.Pacer.Spacing.{reserve}

-- Where a thread is: outside the loop, with the clock read, or with a value to try.
pub data Phase : Type 0 where
  idle : Phase
  timed : ℕ → Phase
  trying : ℕ → ℕ → Phase

-- A thread reads the clock, loads the deadline, or tries the exchange, which may fail for no reason.
-- The load is relaxed, and any value is allowed for it.
pub data Move : Type 0 where
  read_clock : ℕ → ℕ → Move
  load : ℕ → ℕ → Move
  exchange : ℕ → Bool → Move

-- `next_deadline_nanos`, and the phase of each thread.
pub record Threads : Type 0 where
  pub next_deadline_nanos : ℕ
  pub phases : ℕ → Phase

-- One thread is in another phase.
unfoldable pub set_phase : ℕ → Phase → Threads → Threads
set_phase t phase s = record s { phases = λ u. if u == t then phase else s.phases u }

-- The slot that was claimed, with the reading of the clock it was claimed for.
abbrev pub Claimed : Type 0
Claimed = Option (ℕ × ℕ)

unfoldable pub end_attempt : ℕ → ℕ → Attempt → Threads → Claimed × Threads
end_attempt t now_ns (ok slot new) s =
    (some (now_ns, slot), set_phase t idle (record s { next_deadline_nanos = new }))
end_attempt t now_ns (err actual) s = (none, set_phase t (trying now_ns actual) s)

-- Without pacing `wait` returns before it reads the clock. A move that does not fit the thread's
-- phase is none.
unfoldable pub move : ℕ → Move → Phase → Threads → Claimed × Threads
move interval_nanos (read_clock t now_ns) idle s =
    (none, if interval_nanos == 0 then s else set_phase t (timed now_ns) s)
move interval_nanos (load t prev) (timed now_ns) s = (none, set_phase t (trying now_ns prev) s)
move interval_nanos (exchange t fails) (trying now_ns prev) s =
    end_attempt t now_ns (attempt interval_nanos now_ns prev fails s.next_deadline_nanos) s
move interval_nanos _ _ s = (none, s)

abbrev pub thread_of : Move → ℕ
thread_of (read_clock t now_ns) = t
thread_of (load t prev) = t
thread_of (exchange t fails) = t

unfoldable pub add_claimed : {A : Type 0} → Option A → List A → List A
add_claimed none claims = claims
add_claimed (some c) claims = c ∷ claims

-- The claims of a schedule, in the order in which their exchanges succeed.
unfoldable pub run : ℕ → Threads → List Move → List (ℕ × ℕ) × Threads
run interval_nanos s [] = ([], s)
run interval_nanos s (m ∷ moves) =
    let (claimed, s') = move interval_nanos m (s.phases (thread_of m)) s in
    let rest = run interval_nanos s' moves in (add_claimed claimed rest.0, rest.1)

-- The abstract pacer serves one call after another.
abbrev pub reserve_all : ℕ → ℕ → List ℕ → List ℕ × ℕ
reserve_all interval_nanos deadline [] = ([], deadline)
reserve_all interval_nanos deadline (now_ns ∷ nows) =
    let (slot, next) = reserve interval_nanos now_ns deadline in
    let rest = reserve_all interval_nanos next nows in (slot ∷ rest.0, rest.1)

-- A move either claims nothing and leaves the deadline, or is a step of the abstract pacer.
abbrev IsStep : ℕ → ℕ → Claimed × Threads → Type 0
IsStep interval_nanos deadline (none, s) = s.next_deadline_nanos ≡ deadline
IsStep interval_nanos deadline (some (now_ns, slot), s) =
    (slot, s.next_deadline_nanos) ≡ reserve interval_nanos now_ns deadline

module _ (interval_nanos : ℕ) where
  exchange-IsStep :
      (t now_ns prev : ℕ) (fails : Bool) (s : Threads)
      → IsStep interval_nanos s.next_deadline_nanos
          (end_attempt t now_ns (attempt interval_nanos now_ns prev fails s.next_deadline_nanos) s)
  unfolding end_attempt attempt take_slot set_phase
  exchange-IsStep t now prev true s = refl
  exchange-IsStep t now prev false s = elim (Bool-cases (s.next_deadline_nanos == prev)) [
    | inl e ↦
        let same : s.next_deadline_nanos ≡ prev = ground arith in
        rw e (ap (λ seen. reserve interval_nanos now seen) (sym same))
    | inr e ↦ rw e refl
  ]

  move-IsStep :
      (m : Move) (phase : Phase) (s : Threads)
      → IsStep interval_nanos s.next_deadline_nanos (move interval_nanos m phase s)
  unfolding move set_phase
  move-IsStep (read_clock t now) idle s =
      both_branches (λ (s' : Threads). s'.next_deadline_nanos ≡ s.next_deadline_nanos)
        (interval_nanos == 0) refl refl
  move-IsStep (read_clock t now) (timed now') s = refl
  move-IsStep (read_clock t now) (trying now' prev) s = refl
  move-IsStep (load t prev) idle s = refl
  move-IsStep (load t prev) (timed now) s = refl
  move-IsStep (load t prev) (trying now prev') s = refl
  move-IsStep (exchange t fails) idle s = refl
  move-IsStep (exchange t fails) (timed now) s = refl
  move-IsStep (exchange t fails) (trying now prev) s = exchange-IsStep t now prev fails s

  -- The claims are those of the abstract pacer, from that deadline to this one.
  abbrev pub IsServed : ℕ → List (ℕ × ℕ) × Threads → Type 0
  IsServed deadline w =
      (map (λ c. c.1) w.0, w.1.next_deadline_nanos)
      ≡ reserve_all interval_nanos deadline (map (λ c. c.0) w.0)

  add_claimed-IsServed :
      (deadline : ℕ) (w : Claimed × Threads) (claims : List (ℕ × ℕ)) (s : Threads)
      → IsStep interval_nanos deadline w
      → IsServed w.1.next_deadline_nanos (claims, s)
      → IsServed deadline (add_claimed w.0 claims, s)
  unfolding add_claimed
  add_claimed-IsServed deadline (none, s') claims s same served =
      subst (λ d. IsServed d (claims, s)) same served
  add_claimed-IsServed deadline (some (now, slot), s') claims s step served =
      subst
        (λ (p : ℕ × ℕ).
          let rest = reserve_all interval_nanos p.1 (map (λ c. c.0) claims) in
          ◌≡◌ {A = List ℕ × ℕ} (slot ∷ map (λ c. c.1) claims, s.next_deadline_nanos)
            (p.0 ∷ rest.0, rest.1))
        step (ap (λ (q : List ℕ × ℕ). (slot ∷ q.0, q.1)) served)

  -- However any number of threads interleave, whatever they load and whichever exchanges fail, the
  -- slots that they claim, in the order in which the exchanges succeed, are those that the abstract
  -- pacer gives out one after another to the same readings of the clock, and the shared deadline
  -- ends as its deadline.
  pub run-reserve_all :
      (s : Threads) (moves : List Move)
      → let (claims, s') = run interval_nanos s moves in
        (map (λ c. c.1) claims, s'.next_deadline_nanos)
        ≡ reserve_all interval_nanos s.next_deadline_nanos (map (λ c. c.0) claims)
  unfolding run
  run-reserve_all s [] = refl
  run-reserve_all s (m ∷ moves) =
      let w = move interval_nanos m (s.phases (thread_of m)) s in
      let rest = run interval_nanos w.1 moves in
      add_claimed-IsServed s.next_deadline_nanos w rest.0 rest.1
        (move-IsStep m (s.phases (thread_of m)) s) (run-reserve_all w.1 moves)

-- Each slot is at least a packet's time after the one before, the first not before `from`, as far as
-- u64 goes, and none is before the reading of the clock it was claimed for.
abbrev pub IsSpaced : ℕ → ℕ → List (ℕ × ℕ) → Type 0
IsSpaced interval_nanos from [] = Unit
IsSpaced interval_nanos from ((now_ns, slot) ∷ claims) =
    (min from max_u64 ≤ slot)
    × (now_ns ≤ slot)
    × IsSpaced interval_nanos (slot + interval_nanos) claims

served-IsSpaced :
    (interval_nanos from deadline : ℕ) (claims : List (ℕ × ℕ))
    → min from max_u64 ≤ deadline
    → map (λ c. c.1) claims ≡ (reserve_all interval_nanos deadline (map (λ c. c.0) claims)).0
    → IsSpaced interval_nanos from claims
served-IsSpaced i from deadline [] le e = tt
served-IsSpaced i from deadline ((now, slot) ∷ claims) le e =
    let first : slot ≡ max deadline now =
      ap (λ (l : List ℕ). elim l [ [] ↦ 0 | s ∷ later ↦ s ]) e in
    let rest = ap (λ (l : List ℕ). elim l [ [] ↦ [] | s ∷ later ↦ later ]) e in
    (
      omega arith,
      omega arith,
      served-IsSpaced i (slot + i) (saturating_add (max deadline now) i) claims (omega arith) rest,
    )

-- However any number of threads interleave, whatever they load and whichever exchanges fail, each
-- slot that one of them claims is at least a packet's time after the slot that was claimed right
-- before it, the first is not before the deadline, up to the end of u64, and each is not before the
-- reading of the clock it was claimed for.
pub run-IsSpaced :
    (interval_nanos : ℕ) (s : Threads) (moves : List Move)
    → IsSpaced interval_nanos s.next_deadline_nanos (run interval_nanos s moves).0
run-IsSpaced i s moves =
    served-IsSpaced i s.next_deadline_nanos s.next_deadline_nanos (run i s moves).0 (omega arith)
      (ap (λ (p : List ℕ × ℕ). p.0) (run-reserve_all i s moves))

-- A thread calls `wait` and tries twice, while no other thread moves.
abbrev pub alone : ℕ → ℕ → ℕ → List Move
alone t now_ns prev = read_clock t now_ns ∷ load t prev ∷ exchange t false ∷ exchange t false ∷ []

-- A thread that tries, and what it claims in two rounds.
twice-claims :
    (interval_nanos t now_ns prev : ℕ) (s : Threads)
    → s.phases t ≡ trying now_ns prev
    → (run interval_nanos s (exchange t false ∷ exchange t false ∷ [])).0
      ≡ (now_ns, max s.next_deadline_nanos now_ns) ∷ []
unfolding run move end_attempt attempt take_slot set_phase add_claimed
twice-claims i t now prev s at = elim (Bool-cases (s.next_deadline_nanos == prev)) [
  | inl e ↦
      let same : s.next_deadline_nanos ≡ prev = ground arith in
      rw (at, e, ==_refl t) (ap (λ seen. (now, max seen now) ∷ []) (sym same))
  | inr e ↦ rw (at, e, ==_refl t, ==_refl s.next_deadline_nanos) refl
]

-- With pacing on, and whatever the other threads are doing, a thread that enters `wait` and is not
-- disturbed claims a slot within two rounds of its loop, even if it loaded a stale deadline. It is
-- one slot only, the deadline or the reading of the clock if that is later.
pub run-alone :
    (interval_nanos t now_ns prev : ℕ) (s : Threads)
    → 0 < interval_nanos
    → s.phases t ≡ idle
    → (run interval_nanos s (alone t now_ns prev)).0
      ≡ (now_ns, max s.next_deadline_nanos now_ns) ∷ []
unfolding run move set_phase add_claimed
run-alone i t now prev s pos at =
    let on : (i == 0) ≡ false = ==_of_positive i pos in
    let s' = set_phase t (trying now prev) (set_phase t (timed now) s) in
    rw (at, on, ==_refl t) (twice-claims i t now prev s' (rw (==_refl t) refl))
