-- ===== src/Receive/Finalize/Progress.antt =====
-- The loop of `advance_to_batch` ends where it should.
use data_diode.Prelude.{
  ℕ, zero, suc, ◌+◌, ◌-◌, ◌<◌, true, false, not, ◌&&◌, [], ◌⊎◌, inl, inr, ◌≡◌, refl, ap, arith, ltb,
  lt→ltb, Bool-cases,
}
use data_diode.FileSystem.{FileSystem}
use data_diode.Receive.State.{ReceiveState}
use data_diode.Receive.Finalize.{
  ReedSolomon, Result, ok, err, finalize_current_batch, after_batch, advance_loop, advance_to_batch,
}
use data_diode.Receive.Finalize.Bounds.{Settles, finalize-Settles}

abbrev pub IsEmpty : ReceiveState → Type 0
IsEmpty state = (state.data_buffer ≡ []) × (state.parity_buffer ≡ []) × (state.bytes_buffered ≡ 0)

-- The transfer has failed, or the target is the current batch and nothing is buffered.
abbrev pub Reaches : ℕ → ReceiveState × FileSystem → Type 0
Reaches target (state, fs) =
    (state.failed ≡ true)
    ⊎ ((state.failed ≡ false) × (state.current_batch ≡ target) × IsEmpty state)

module _ (rs : ReedSolomon) where
  after_batch-Reaches :
      (next : ReceiveState → FileSystem → ReceiveState × FileSystem) (target : ℕ)
      (state : ReceiveState)
      → ((state' : ReceiveState) (fs : FileSystem)
          → state'.current_batch ≡ state.current_batch + 1
          → IsEmpty state'
          → Reaches target (next state' fs))
      → (w : Result (Unit {0}) × ReceiveState × FileSystem) → Settles state w
      → Reaches target (after_batch w next)
  unfolding after_batch
  after_batch-Reaches next target state h (err e, state', fs) s = inl refl
  after_batch-Reaches next target state h (ok _, state', fs) s =
      h (record state' { current_batch = state'.current_batch + 1 }) fs
        (ap (λ t. t.current_batch + 1) s)
        (ap (λ t. t.data_buffer) s, ap (λ t. t.parity_buffer) s, ap (λ t. t.bytes_buffered) s)

  advance_loop-Reaches :
      (rounds target : ℕ) (state : ReceiveState) (fs : FileSystem)
      → state.current_batch + rounds ≡ target
      → (IsEmpty state) ⊎ (0 < rounds)
      → Reaches target (advance_loop rs rounds target state fs)
  unfolding advance_loop
  advance_loop-Reaches zero target state fs e (inr h) = absurd (omega arith)
  advance_loop-Reaches zero target state fs e (inl empty) = elim (Bool-cases state.failed) [
    | inl f ↦ inl f
    | inr f ↦ inr (f, omega arith, empty)
  ]
  advance_loop-Reaches (suc rounds) target state fs e h = elim (Bool-cases state.failed) [
    | inl f ↦ rw f (inl refl)
    | inr f ↦
        let goes_on : (not state.failed && ltb state.current_batch target) ≡ true =
          rw (f, lt→ltb state.current_batch target (omega arith)) refl in
        rw goes_on (
          after_batch-Reaches (advance_loop rs rounds target) target state
            (λ state' fs' b empty.
              advance_loop-Reaches rounds target state' fs' (omega arith) (inl empty))
            (finalize_current_batch rs state fs) (finalize-Settles rs state fs))
  ]

  -- `advance_to_batch` to a later batch ends with a failed transfer, or with that batch as the
  -- current one and with empty buffers; the rounds that its loop is given are always enough.
  pub advance_to_batch-Reaches :
      (target : ℕ) (state : ReceiveState) (fs : FileSystem)
      → state.current_batch < target
      → Reaches target (advance_to_batch rs state target fs)
  unfolding advance_to_batch
  advance_to_batch-Reaches target state fs later =
      advance_loop-Reaches (target - state.current_batch) target state fs (omega arith)
        (inr (omega arith))
