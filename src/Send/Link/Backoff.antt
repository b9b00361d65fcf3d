-- ===== src/Send/Link/Backoff.antt =====
-- How long a send waits while the kernel's buffer is full.
use data_diode.Prelude.{
  ℕ, zero, suc, ◌*◌, ◌^◌, min, List, [], ◌∷◌, ◌++◌, append_assoc, append-nil, ◌≡◌, refl, sym, ◌∙◌,
  arith, Bytes,
}
use data_diode.Send.Link.{
  Answer, accepted, busy, refused, Link, SendCfg, accept, send_loop, send_to_blocking,
}

-- Pause number `i` of one send, in milliseconds.
abbrev pub pause_of : ℕ → ℕ → ℕ
pause_of max_backoff zero = 1
pause_of max_backoff (suc i) = min (2 ^ suc i) max_backoff

-- The pauses number `i` up to `i + n`.
abbrev pub pauses_from : ℕ → ℕ → ℕ → List ℕ
pauses_from max_backoff i zero = []
pauses_from max_backoff i (suc n) = pause_of max_backoff i ∷ pauses_from max_backoff (suc i) n

-- How often the buffer is full before a packet is accepted or refused.
abbrev pub busies : List Answer → ℕ
busies (busy ∷ answers) = suc (busies answers)
busies (accepted now_ns is ∷ answers) = 0
busies (refused ∷ answers) = 0
busies [] = 0

pause_of-suc :
    (max_backoff i : ℕ)
    → min (pause_of max_backoff i * 2) max_backoff ≡ pause_of max_backoff (suc i)
pause_of-suc m zero = refl
pause_of-suc m (suc i) = ground arith

module _ (cfg : SendCfg) where
  send_loop-backoffs :
      (packet : Bytes) (i backoff : ℕ) (answers : List Answer) (link : Link)
      → backoff ≡ pause_of cfg.max_backoff i
      → (send_loop cfg packet backoff answers link).1.backoffs
        ≡ link.backoffs ++ pauses_from cfg.max_backoff i (busies answers)
  unfolding send_loop accept
  send_loop-backoffs packet i backoff [] link e = sym (append-nil link.backoffs)
  send_loop-backoffs packet i backoff (refused ∷ answers) link e = sym (append-nil link.backoffs)
  send_loop-backoffs packet i backoff (accepted now_ns is ∷ answers) link e =
      sym (append-nil link.backoffs)
  send_loop-backoffs packet i backoff (busy ∷ answers) link e =
      send_loop-backoffs packet (suc i) (min (backoff * 2) cfg.max_backoff) answers
        (record link { backoffs = link.backoffs ++ backoff ∷ [] })
        (rw e (pause_of-suc cfg.max_backoff i))
      ∙ append_assoc link.backoffs (backoff ∷ []) _
      ∙ rw e refl

  -- While the buffer is full a send waits 1 ms, then 2, 4, 8 and so on, each but the first cut to
  -- the longest pause, and it waits no more once the packet was accepted or refused.
  pub send_to_blocking-backoffs :
      (packet : Bytes) (link : Link)
      → (send_to_blocking cfg packet link).1.backoffs
        ≡ link.backoffs ++ pauses_from cfg.max_backoff 0 (busies link.answers)
  unfolding send_to_blocking
  send_to_blocking-backoffs packet link = send_loop-backoffs packet 0 1 link.answers link refl
