-- ===== src/Receive/Worker/Counting.antt =====
-- Every transfer that is announced is counted once.
use data_diode.Prelude.{
  ℕ, ◌+◌, ◌%◌, ◌^◌, ◌≤◌, ◌<◌, Bool, true, false, not, ◌&&◌, List, [], ◌∷◌, inl, inr, Option, none,
  some, ◌≡◌, refl, sym, ap, ◌∙◌, subst, arith, Bytes, length, if◌then◌else◌, ◌==◌, ltb, Bool-cases,
  Option-cases, both_branches,
}
use data_diode.BTreeMap.{contains_key}
use data_diode.FileSystem.{FileSystem}
use data_diode.Proto.{
  batch_parity_chunks, pkg_type_start, pkg_type_data, pkg_type_parity, pkg_type_end, pkg_type_udp,
}
use data_diode.Receive.Packet.{Packet, decode_packet}
use data_diode.Receive.State.{
  ReceiveState, Stats, Receiver, new_state, buffer_byte_limit, saturating_add,
}
use data_diode.Receive.Chunk.{is_chunk_valid, batch_for_data, batch_for_parity}
use data_diode.Receive.Buffer.{buffer_data, buffer_parity}
use data_diode.Receive.Buffer.Bounds.{IsSound}
use data_diode.Receive.Finalize.{ReedSolomon}
use data_diode.Receive.Finalize.Bounds.{SoundFor}
use data_diode.Receive.Transfer.{is_current, finish_file}
use data_diode.Receive.Transfer.Bounds.{new_state-IsSound}
use data_diode.Receive.Transfer.Counting.{
  ended, under_way, tally, new_file-tally, new_file-repeated, finish_file-tally,
}
use data_diode.Receive.Worker.{
  is_active, announcement, handle_start, handle_udp, advance_if_later, handle_data, handle_parity,
  dispatch, receive_packet, receive, receive_all, init,
}
use data_diode.Receive.Worker.Bounds.{advance_if_later-SoundFor, dispatch-IsSound}

buffer_data-ended :
    (state : ReceiveState) (stats : Stats) (packet : Packet)
    → let w = buffer_data state stats packet in
      ended w.1 + under_way w.0.file_path ≡ ended stats + under_way state.file_path
unfolding buffer_data
buffer_data-ended state stats packet =
    let Q = λ (w : ReceiveState × Stats).
      ended w.1 + under_way w.0.file_path ≡ ended stats + under_way state.file_path in
    both_branches Q (contains_key packet.count state.data_buffer) refl (
      both_branches Q
        (ltb buffer_byte_limit (saturating_add state.bytes_buffered (length packet.content))) refl
        refl)

buffer_parity-file_path :
    (state : ReceiveState) (packet : Packet) (idx : ℕ)
    → (buffer_parity state packet idx).file_path ≡ state.file_path
unfolding buffer_parity
buffer_parity-file_path state packet idx =
    let Q = λ (s : ReceiveState). s.file_path ≡ state.file_path in
    both_branches Q (contains_key idx state.parity_buffer) refl (
      both_branches Q
        (ltb buffer_byte_limit (saturating_add state.bytes_buffered (length packet.content))) refl
        refl)

-- Whether a packet announces a transfer that is not under way.
abbrev pub announced : Receiver → Packet → ℕ
announced r packet =
    if (packet.pkg_type == pkg_type_start)
      && not (is_current r.state.file_path (announcement packet).path)
    then 1
    else 0

-- Each datagram with no lock found poisoned.
abbrev pub unpoisoned : List Bytes → List (Bool × Bytes)
unpoisoned [] = []
unpoisoned (raw ∷ raws) = (false, raw) ∷ unpoisoned raws

module _ (md5 : Bytes → Bytes) (rs : ReedSolomon) where
  advance_if_later-tally :
      (p : Bytes) (r : Receiver) (batch : ℕ)
      → SoundFor p r.state
      → tally (advance_if_later md5 rs r batch) ≡ tally r
  unfolding advance_if_later
  advance_if_later-tally p r batch v =
      let q = advance_if_later md5 rs r batch in
      let (sound, active) = advance_if_later-SoundFor md5 rs p r batch v in
      let counted : q.stats ≡ r.stats =
        both_branches (λ (s : Receiver). s.stats ≡ r.stats) (ltb r.state.current_batch batch) refl
          refl in
      omega (arith, ap under_way active, ap under_way v.1, ap ended counted)

  handle_data-tally :
      (p : Bytes) (r : Receiver) (packet : Packet)
      → SoundFor p r.state
      → tally (handle_data md5 rs r packet) ≡ tally r
  unfolding handle_data
  handle_data-tally p r packet v =
      let batch = batch_for_data packet.count in
      let q = advance_if_later md5 rs r batch in
      let Q = λ (s : Receiver). tally s ≡ tally r in
      let same = advance_if_later-tally p r batch v in
      both_branches Q (not (not r.state.failed && is_chunk_valid md5 packet r.state pkg_type_data))
        refl
        (both_branches Q (not q.state.failed && batch == q.state.current_batch)
          (buffer_data-ended q.state q.stats packet ∙ same) same)

  handle_parity-tally :
      (p : Bytes) (r : Receiver) (packet : Packet)
      → SoundFor p r.state
      → tally (handle_parity md5 rs r packet) ≡ tally r
  unfolding handle_parity
  handle_parity-tally p r packet v =
      let batch = batch_for_parity packet.count in
      let q = advance_if_later md5 rs r batch in
      let Q = λ (s : Receiver). tally s ≡ tally r in
      let same = advance_if_later-tally p r batch v in
      both_branches Q
        (not (not r.state.failed && is_chunk_valid md5 packet r.state pkg_type_parity)) refl
        (both_branches Q (not q.state.failed && batch == q.state.current_batch)
          (ap (λ o. ended q.stats + under_way o)
              (buffer_parity-file_path q.state packet (packet.count % batch_parity_chunks))
            ∙ same)
          same)

  module _ (dir : Bytes) (enabled : Bool) where
    -- A handler that runs only while a transfer is under way.
    guarded-tally :
        (test : Bool) (r s t : Receiver)
        → IsSound r.state
        → ((p : Bytes) → SoundFor p r.state → tally s ≡ tally r)
        → tally t ≡ tally r
        → tally (if test && is_active r.state.file_path then s else t) ≡ tally r
    guarded-tally false r s t v f g = g
    guarded-tally true r s t v f g = elim (Option-cases r.state.file_path) [
      | inl (p, e) ↦
          both_branches (λ (q : Receiver). tally q ≡ tally r) (is_active r.state.file_path)
            (f p (v, e)) g
      | inr e ↦
          let off : is_active r.state.file_path ≡ false = ap is_active e in
          subst (λ b. tally (if b then s else t) ≡ tally r) (sym off) g
    ]

    handle_start-tally :
        (r : Receiver) (packet : Packet)
        → IsSound r.state
        → tally r + 1 < 2 ^ 64
        → tally (handle_start dir r packet)
          ≡ tally r
            + (if not (is_current r.state.file_path (announcement packet).path) then 1 else 0)
    unfolding handle_start
    handle_start-tally r packet v room =
        let a = announcement packet in
        elim (Bool-cases (is_current r.state.file_path a.path)) [
          | inl t ↦ rw t (ap tally (new_file-repeated dir r a t) ∙ omega arith)
          | inr t ↦ rw t (new_file-tally dir r a v t room)
        ]

    dispatch-tally :
        (r : Receiver) (packet : Packet)
        → IsSound r.state
        → tally r + 1 < 2 ^ 64
        → tally (dispatch md5 rs dir enabled r packet) ≡ tally r + announced r packet
    unfolding dispatch handle_udp
    dispatch-tally r packet v room = elim (Bool-cases (packet.pkg_type == pkg_type_start)) [
      | inl t ↦ rw t (handle_start-tally r packet v room)
      | inr t ↦
          let rest =
            guarded-tally (packet.pkg_type == pkg_type_data) r (handle_data md5 rs r packet) _ v
              (λ p w. handle_data-tally p r packet w)
              (guarded-tally (packet.pkg_type == pkg_type_parity) r (handle_parity md5 rs r packet)
                _ v (λ p w. handle_parity-tally p r packet w)
                (guarded-tally (packet.pkg_type == pkg_type_end) r (finish_file rs dir r) _ v
                  (λ p w. finish_file-tally dir rs r (omega arith))
                  (both_branches (λ (s : Receiver). tally s ≡ tally r)
                    (packet.pkg_type == pkg_type_udp)
                    (both_branches (λ (s : Receiver). tally s ≡ tally r) enabled refl refl)
                    refl))) in
          rw t (rest ∙ omega arith)
    ]

    abbrev announced_by : Receiver → Option Packet → ℕ
    announced_by r none = 0
    announced_by r (some packet) = announced r packet

    -- The transfers that the datagrams announce, one after another.
    abbrev pub announcements : Receiver → List Bytes → ℕ
    announcements r [] = 0
    announcements r (raw ∷ raws) =
        announced_by r (decode_packet raw)
        + announcements (receive md5 rs dir enabled r false raw) raws

    -- A datagram leaves a sound state, and announces one transfer at most.
    receive-tally :
        (o : Option Packet) (r : Receiver)
        → IsSound r.state
        → tally r + 1 < 2 ^ 64
        → let q = receive_packet md5 rs dir enabled o false r in
          IsSound q.state × (tally q ≡ tally r + announced_by r o) × (tally q ≤ tally r + 1)
    unfolding receive_packet
    receive-tally none r v room = (v, omega arith, omega arith)
    receive-tally (some packet) r v room =
        let counted = dispatch-tally r packet v room in
        let few : announced r packet ≤ 1 =
          both_branches (λ n. n ≤ 1)
            ((packet.pkg_type == pkg_type_start)
              && not (is_current r.state.file_path (announcement packet).path))
            (omega arith) (omega arith) in
        (dispatch-IsSound md5 rs dir enabled r packet v, counted, omega arith)

    receive_all-tally_from :
        (raws : List Bytes) (r : Receiver)
        → IsSound r.state
        → tally r + length raws < 2 ^ 64
        → tally (receive_all md5 rs dir enabled r (unpoisoned raws))
          ≡ tally r + announcements r raws
    unfolding receive_all receive
    receive_all-tally_from [] r v room = omega arith
    receive_all-tally_from (raw ∷ raws) r v room =
        let q = receive_packet md5 rs dir enabled (decode_packet raw) false r in
        let (sound, counted, few) = receive-tally (decode_packet raw) r v (omega arith) in
        receive_all-tally_from raws q sound (omega arith) ∙ omega arith

-- When no lock is found poisoned, every transfer that is announced to the receiver is counted once:
-- the files transferred, the files failed and the transfer under way, if there is one, are together
-- as many as the START packets that named another path than the transfer under way. Fewer than 2^64
-- datagrams have arrived.
pub receive_all-tally :
    (md5 : Bytes → Bytes) (rs : ReedSolomon) (dir : Bytes) (enabled : Bool) (fs : FileSystem)
    (raws : List Bytes)
    → length raws < 2 ^ 64
    → let r = receive_all md5 rs dir enabled (init fs) (unpoisoned raws) in
      r.stats.files_transferred + r.stats.files_failed + under_way r.state.file_path
      ≡ announcements md5 rs dir enabled (init fs) raws
unfolding init
receive_all-tally md5 rs dir enabled fs raws room =
    receive_all-tally_from md5 rs dir enabled raws (init fs) (new_state-IsSound new_state refl)
      (omega arith)
    ∙ omega arith
