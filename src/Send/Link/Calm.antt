-- ===== src/Send/Link/Calm.antt =====
-- What is on the link after a send.
use data_diode.Prelude.{ℕ, ◌*◌, min, Bool, true, List, [], ◌∷◌, ◌++◌, ◌≡◌, refl, subst, Bytes}
use data_diode.Send.Link.{
  Answer, accepted, busy, refused, Link, SendCfg, enobufs_initial_backoff, accept, send_loop,
  send_to_blocking,
}

-- No send fails but for a full buffer.
abbrev pub NeverRefused : List Answer → Type 0
NeverRefused [] = Unit
NeverRefused (refused ∷ answers) = ⊥
NeverRefused (busy ∷ answers) = NeverRefused answers
NeverRefused (accepted now_ns is ∷ answers) = NeverRefused answers

-- The step succeeded, has put these packets behind those that were there, and later steps are not
-- refused either.
abbrev pub HasPackets : List Bytes → Link → Type 0
HasPackets packets link = (link.packets ≡ packets) × NeverRefused link.answers

abbrev pub Delivered : List Bytes → Bool × Link → Type 0
Delivered packets (ok, link) = (ok ≡ true) × HasPackets packets link

module _ (cfg : SendCfg) where
  send_loop-Delivered :
      (packet : Bytes) (backoff : ℕ) (answers : List Answer) (link : Link)
      → NeverRefused answers
      → Delivered (link.packets ++ packet ∷ []) (send_loop cfg packet backoff answers link)
  unfolding send_loop accept
  send_loop-Delivered packet backoff [] link h = (refl, (refl, tt))
  send_loop-Delivered packet backoff (refused ∷ answers) link h = elim h [ ]
  send_loop-Delivered packet backoff (accepted now_ns is ∷ answers) link h = (refl, (refl, h))
  send_loop-Delivered packet backoff (busy ∷ answers) link h =
      send_loop-Delivered packet (min (backoff * 2) cfg.max_backoff) answers
        (record link { backoffs = link.backoffs ++ backoff ∷ [] }) h

  pub send_to_blocking-Delivered :
      (packet : Bytes) (link : Link) (before : List Bytes)
      → HasPackets before link
      → Delivered (before ++ packet ∷ []) (send_to_blocking cfg packet link)
  unfolding send_to_blocking
  send_to_blocking-Delivered packet link before (e, h) =
      subst
        (λ b.
          Delivered (b ++ packet ∷ [])
            (send_loop cfg packet enobufs_initial_backoff link.answers link))
        e (send_loop-Delivered packet enobufs_initial_backoff link.answers link h)
