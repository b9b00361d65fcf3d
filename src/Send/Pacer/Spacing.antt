-- ===== src/Send/Pacer/Spacing.antt =====
-- The loops of one call of `wait`: the claim of a slot, and the wait for it.
use data_diode.Prelude.{
  ℕ, ◌-◌, ◌<◌, true, false, List, [], ◌∷◌, ◌⊎◌, inl, inr, Option, none, some, ◌≡◌, refl, sym, ap,
  arith, All, if◌then◌else◌, ◌==◌, leb, ltb, ltb→lt, leb_of_lt, Bool-cases,
}
use Prim.Native.Nat.{max}
use data_diode.Receive.State.{saturating_add}
use data_diode.Send.Pacer.{
  Interference, spurious, stored, take_slot, attempt, after_attempt, claim, pause,
}

-- The abstract pacer takes the first free slot in one step: the deadline, or now if that is later.
abbrev pub reserve : ℕ → ℕ → ℕ → ℕ × ℕ
reserve interval_nanos now_ns deadline =
    (max deadline now_ns, saturating_add (max deadline now_ns) interval_nanos)

-- The value is the one that the shared deadline has at an exchange: what another thread stored right
-- before it, or the value seen when no thread stores one any more.
abbrev pub IsSeen : ℕ → ℕ → List Interference → Type 0
IsSeen value prev [] = value ≡ prev
IsSeen value prev (spurious ∷ is) = IsSeen value prev is
IsSeen value prev (stored actual ∷ is) = (value ≡ actual) ⊎ IsSeen value actual is

-- However other threads interfere, `claim` does what one step of the abstract pacer does on the
-- value that the shared deadline has at one of the exchanges, never on one that another thread has
-- overwritten before.
pub claim-reserve :
    (interval_nanos now_ns prev : ℕ) (is : List Interference)
    → (deadline : ℕ) × IsSeen deadline prev is
      × (claim interval_nanos now_ns prev is ≡ reserve interval_nanos now_ns deadline)
unfolding claim attempt after_attempt take_slot
claim-reserve i now prev [] = (prev, refl, refl)
claim-reserve i now prev (spurious ∷ is) = claim-reserve i now prev is
claim-reserve i now prev (stored actual ∷ is) = elim (Bool-cases (actual == prev)) [
  | inl e ↦
      let same : actual ≡ prev = ground arith in
      (actual, inl refl, rw e (ap (λ seen. reserve i now seen) (sym same)))
  | inr e ↦ let (d, seen, r) = claim-reserve i now actual is in (d, inr seen, rw e r)
]

-- The first reading that is not before the slot.
abbrev pub first_from : ℕ → List ℕ → Option ℕ
first_from slot [] = none
first_from slot (t ∷ readings) =
    let rest = first_from slot readings in if leb slot t then some t else rest

-- `wait` goes on at the first reading of the clock that is not before its slot, and each time it
-- sleeps it is for less than the time of the slot.
pub pause-first_from :
    (slot now_ns : ℕ) (readings : List ℕ)
    → ((pause slot now_ns readings).1 ≡ first_from slot (now_ns ∷ readings))
      × All (λ nanos. nanos < slot) (pause slot now_ns readings).0
unfolding pause
pause-first_from slot now [] = (ground arith, tt)
pause-first_from slot now (t ∷ readings) =
    let (e, small) = pause-first_from slot t readings in
    elim (Bool-cases (ltb now slot)) [
      | inl l ↦
          let late : leb slot now ≡ false = leb_of_lt slot now (ltb→lt now slot l) in
          rw (l, late)
            (elim (Bool-cases (ltb 1_000_000 (slot - now))) [
              | inl far ↦ rw far (e, (omega (arith, ltb→lt 1_000_000 (slot - now) far), small))
              | inr near ↦ rw near (e, small)
            ])
      | inr l ↦ let there : leb slot now ≡ true = ground arith in rw (l, there) (refl, tt)
    ]
