-- ===== src/Send/File/Regime.antt =====
-- What is taken of the calls that `send_file_chunks` makes, so that one proof serves a link without
-- refusals and any link.
use data_diode.Prelude.{
  ℕ, zero, suc, Bool, true, false, List, [], ◌∷◌, ◌++◌, append_assoc, append-nil, ◌⊎◌, inl, inr,
  Option, none, some, ◌≡◌, refl, sym, subst, Bytes, take, drop, replicate,
}
use data_diode.Send.Link.{
  Link, SendCfg, Sending, control_resend, then_send, send_to_blocking, send_times, send_with_retry,
}
use data_diode.Send.Reader.{ReadStep, Reader, read_chunk}
use data_diode.Send.File.Packets.{parity_packet}

-- A step worked, and `Q` holds of the link; or it did not, which may be only under `MayFail`.
abbrev pub Outcome : (Link → Type 0) → Type 0 → Bool × Link → Type 0
Outcome Q MayFail (ok, link) = ((ok ≡ true) × Q link) ⊎ ((ok ≡ false) × MayFail)

-- A chunk was read; or the read failed.
abbrev pub ReadOutcome :
    (List ReadStep → Type 0) → Type 0 → Bytes → ℕ → Option Bytes × Reader → Type 0
ReadOutcome Readable MayFail rest room (result, reader) =
    ((result ≡ some (take room rest)) × (reader.rest ≡ drop room rest) × Readable reader.steps)
    ⊎ ((result ≡ none) × MayFail)

-- `Has packets link` says that these packets are to be on the link by now. A packet that is not a
-- parity packet gets there or the step fails.
pub record Regime (md5 : Bytes → Bytes) (cfg : SendCfg) (rel_path_hash : Bytes) : Type 1 where
  pub Has : List Bytes → Link → Type 0
  pub Readable : List ReadStep → Type 0
  pub MayFail : Type 0
  pub send :
      (packet : Bytes) (link : Link) (before : List Bytes)
      → Has before link
      → Outcome (Has (before ++ packet ∷ [])) MayFail (send_to_blocking cfg packet link)
  pub parity :
      (index : ℕ) (shard : Bytes) (link : Link) (before : List Bytes)
      → Has before link
      → let packet = parity_packet md5 rel_path_hash index shard in
        Has (before ++ packet ∷ []) (send_to_blocking cfg packet link).1
  pub read :
      (reader : Reader) (room : ℕ)
      → Readable reader.steps
      → ReadOutcome Readable MayFail reader.rest room (read_chunk reader room)

module _ {md5 : Bytes → Bytes} {cfg : SendCfg} {rel_path_hash : Bytes}
    (regime : Regime md5 cfg rel_path_hash) where
  open regime use {Has, MayFail}

  then_send-Outcome :
      (w : Bool × Link) (next : Sending) (before after : List Bytes)
      → Outcome (Has before) MayFail w
      → ((link : Link) → Has before link → Outcome (Has after) MayFail (next link))
      → Outcome (Has after) MayFail (then_send w next)
  unfolding then_send
  then_send-Outcome (true, link) next before after (inl (ok, h)) go = go link h
  then_send-Outcome (true, link) next before after (inr (ok, may)) go = cc
  then_send-Outcome (false, link) next before after (inl (ok, h)) go = cc
  then_send-Outcome (false, link) next before after (inr (ok, may)) go = inr (refl, may)

  send_times-Outcome :
      (n : ℕ) (packet : Bytes) (link : Link) (before : List Bytes)
      → Has before link
      → Outcome (Has (before ++ replicate n packet)) MayFail (send_times cfg n packet link)
  unfolding send_times
  send_times-Outcome zero packet link before h =
      inl (refl, subst (λ b. Has b link) (sym (append-nil before)) h)
  send_times-Outcome (suc n) packet link before h =
      then_send-Outcome (send_to_blocking cfg packet link) (send_times cfg n packet)
        (before ++ packet ∷ []) (before ++ packet ∷ replicate n packet)
        (regime.send packet link before h)
        (λ link' h'.
          subst (λ b. Outcome (Has b) MayFail (send_times cfg n packet link'))
            (append_assoc before (packet ∷ []) (replicate n packet))
            (send_times-Outcome n packet link' (before ++ packet ∷ []) h'))

  -- START and END packets are sent three times.
  pub control-Outcome :
      (packet : Bytes) (link : Link) (before : List Bytes)
      → Has before link
      → Outcome
          (Has (before ++ replicate control_resend packet))
          MayFail
          (send_with_retry cfg packet control_resend link)
  unfolding send_with_retry
  control-Outcome packet link before h = send_times-Outcome 3 packet link before h

  -- The loop and what follows it went well, so many chunks were counted, and these packets are to
  -- be on the link; or it failed.
  abbrev pub Completed : ℕ → List Bytes → Bool × ℕ × Link → Type 0
  Completed count packets (ok, counted, link) =
      ((ok ≡ true) × (counted ≡ count) × Has packets link) ⊎ ((ok ≡ false) × MayFail)
