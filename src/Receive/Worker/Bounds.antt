-- ===== src/Receive/Worker/Bounds.antt =====
-- Whatever datagrams arrive, the buffers hold at most one full batch, and without a transfer the
-- receiver is as it was at its start.
use data_diode.Prelude.{
  ℕ, ◌+◌, ◌/◌, ◌%◌, ◌≤◌, Bool, true, false, not, ◌&&◌, List, [], ◌∷◌, inl, inr, Option, none, some,
  ◌≡◌, refl, arith, Bytes, length, if◌then◌else◌, ◌==◌, ltb, Bool-cases, Option-cases,
  both_branches,
}
use data_diode.FileSystem.{FileSystem}
use data_diode.Proto.{
  chunk_size, shard_size, batch_data_chunks, batch_parity_chunks, pkg_type_start, pkg_type_data,
  pkg_type_end, pkg_type_parity, pkg_type_udp,
}
use data_diode.Receive.Packet.{Packet, decode_packet}
use data_diode.Receive.State.{ReceiveState, Receiver, new_state}
use data_diode.Receive.Chunk.{is_chunk_valid, batch_for_data, batch_for_parity}
use data_diode.Receive.Buffer.{buffer_data}
use data_diode.Receive.Buffer.Bounds.{
  total, IsSound, bytes_buffered-le, buffer_data-IsSound, buffer_parity-IsSound,
}
use data_diode.Receive.Finalize.{ReedSolomon}
use data_diode.Receive.Finalize.Bounds.{SoundFor, advance-SoundFor}
use data_diode.Receive.Transfer.{finish_file}
use data_diode.Receive.Transfer.Bounds.{new_state-IsSound, new_file-IsSound, finish_file-IsSound}
use data_diode.Receive.Worker.{
  is_active, recover, announcement, handle_start, handle_udp, advance_if_later, handle_data,
  handle_parity, dispatch, receive_packet, receive, receive_all, init,
}

-- What the tests of a chunk ensure of its length.
chunk_fits :
    (md5 : Bytes → Bytes) (packet : Packet) (state : ReceiveState)
    → is_chunk_valid md5 packet state pkg_type_data ≡ true
    → (1 ≤ length packet.content) × (length packet.content ≤ chunk_size)
unfolding is_chunk_valid
chunk_fits md5 packet state h = ground arith

shard_fits :
    (md5 : Bytes → Bytes) (packet : Packet) (state : ReceiveState)
    → is_chunk_valid md5 packet state pkg_type_parity ≡ true
    → length packet.content ≡ shard_size
unfolding is_chunk_valid
shard_fits md5 packet state h = ground arith

same_data_batch :
    (count : ℕ) (b : Bool) (batch : ℕ)
    → (b && batch_for_data count == batch) ≡ true
    → count / batch_data_chunks ≡ batch
unfolding batch_for_data
same_data_batch count b batch h = ground arith

recover-IsSound : (dir : Bytes) (r : Receiver) → IsSound (recover dir r).state
unfolding recover
recover-IsSound dir r = elim (Option-cases r.state.file_path) [
  | inl (p, e) ↦ rw e (new_state-IsSound new_state refl)
  | inr e ↦ rw e (new_state-IsSound new_state refl)
]

handle_udp-IsSound :
    (enabled : Bool) (r : Receiver) (packet : Packet)
    → IsSound r.state
    → IsSound (handle_udp enabled r packet).state
unfolding handle_udp
handle_udp-IsSound enabled r packet v =
    both_branches (λ (s : Receiver). IsSound s.state) enabled v v

module _ (md5 : Bytes → Bytes) (rs : ReedSolomon) where
  pub advance_if_later-SoundFor :
      (p : Bytes) (r : Receiver) (batch : ℕ)
      → SoundFor p r.state
      → SoundFor p (advance_if_later md5 rs r batch).state
  unfolding advance_if_later
  advance_if_later-SoundFor p r batch v =
      both_branches (λ (s : Receiver). SoundFor p s.state) (ltb r.state.current_batch batch)
        (advance-SoundFor p rs r.state batch r.fs v) v

  handle_data-IsSound :
      (p : Bytes) (r : Receiver) (packet : Packet)
      → SoundFor p r.state
      → IsSound (handle_data md5 rs r packet).state
  unfolding handle_data
  handle_data-IsSound p r packet v =
      let batch = batch_for_data packet.count in
      let q = advance_if_later md5 rs r batch in
      let (sound, active) = advance_if_later-SoundFor p r batch v in
      elim (Bool-cases (not r.state.failed && is_chunk_valid md5 packet r.state pkg_type_data)) [
        | inr e ↦ rw e v.0
        | inl e ↦ rw e (elim (Bool-cases (not q.state.failed && batch == q.state.current_batch)) [
          | inr f ↦ rw f sound
          | inl f ↦ rw f (
              (buffer_data-IsSound q.state sound active packet q.stats
                (same_data_batch packet.count _ q.state.current_batch f)
                (chunk_fits md5 packet r.state (ground arith)).1).0)
        ])
      ]

  handle_parity-IsSound :
      (p : Bytes) (r : Receiver) (packet : Packet)
      → SoundFor p r.state
      → IsSound (handle_parity md5 rs r packet).state
  unfolding handle_parity
  handle_parity-IsSound p r packet v =
      let batch = batch_for_parity packet.count in
      let q = advance_if_later md5 rs r batch in
      let (sound, active) = advance_if_later-SoundFor p r batch v in
      elim (Bool-cases (not r.state.failed && is_chunk_valid md5 packet r.state pkg_type_parity)) [
        | inr e ↦ rw e v.0
        | inl e ↦
            let long : length packet.content ≤ shard_size =
              omega (arith, shard_fits md5 packet r.state (ground arith)) in
            rw e (
              both_branches (λ (s : Receiver). IsSound s.state)
                (not q.state.failed && batch == q.state.current_batch)
                (buffer_parity-IsSound q.state sound active packet
                  (packet.count % batch_parity_chunks) (omega arith) long).0
                sound)
      ]

  module _ (dir : Bytes) (enabled : Bool) where
    -- A handler that runs only while a transfer is under way.
    guarded :
        (test : Bool) (r s t : Receiver)
        → IsSound r.state
        → ((p : Bytes) → SoundFor p r.state → IsSound s.state)
        → IsSound t.state
        → IsSound (if test && is_active r.state.file_path then s else t).state
    guarded false r s t v f g = g
    guarded true r s t v f g = elim (Option-cases r.state.file_path) [
      | inl (p, e) ↦ rw e (f p (v, e))
      | inr e ↦ rw e g
    ]

    pub dispatch-IsSound :
        (r : Receiver) (packet : Packet)
        → IsSound r.state
        → IsSound (dispatch md5 rs dir enabled r packet).state
    unfolding dispatch handle_start
    dispatch-IsSound r packet v =
        let Q = λ (s : Receiver). IsSound s.state in
        both_branches Q (packet.pkg_type == pkg_type_start)
          (new_file-IsSound dir r (announcement packet) v)
          (guarded (packet.pkg_type == pkg_type_data) r (handle_data md5 rs r packet) _ v
            (λ p w. handle_data-IsSound p r packet w)
            (guarded (packet.pkg_type == pkg_type_parity) r (handle_parity md5 rs r packet) _ v
              (λ p w. handle_parity-IsSound p r packet w)
              (guarded (packet.pkg_type == pkg_type_end) r (finish_file rs dir r) _ v
                (λ p w. finish_file-IsSound dir rs r v)
                (both_branches Q (packet.pkg_type == pkg_type_udp)
                  (handle_udp-IsSound enabled r packet v) v))))

    receive_packet-IsSound :
        (p : Option Packet) (poisoned : Bool) (r : Receiver)
        → IsSound r.state
        → IsSound (receive_packet md5 rs dir enabled p poisoned r).state
    unfolding receive_packet
    receive_packet-IsSound none poisoned r v = v
    receive_packet-IsSound (some packet) true r v =
        dispatch-IsSound (recover dir r) packet (recover-IsSound dir r)
    receive_packet-IsSound (some packet) false r v = dispatch-IsSound r packet v

    receive_all-IsSound_from :
        (raws : List (Bool × Bytes)) (r : Receiver)
        → IsSound r.state
        → IsSound (receive_all md5 rs dir enabled r raws).state
    unfolding receive_all receive
    receive_all-IsSound_from [] r v = v
    receive_all-IsSound_from ((poisoned, raw) ∷ raws) r v =
        receive_all-IsSound_from raws
          (receive_packet md5 rs dir enabled (decode_packet raw) poisoned r)
          (receive_packet-IsSound (decode_packet raw) poisoned r v)

module _ (md5 : Bytes → Bytes) (rs : ReedSolomon) (output_dir : Bytes)
    (udp_forwarding_enabled : Bool) (fs : FileSystem) (raws : List (Bool × Bytes)) where
  pub receive_all-IsSound :
      IsSound (receive_all md5 rs output_dir udp_forwarding_enabled (init fs) raws).state
  unfolding init
  receive_all-IsSound =
      receive_all-IsSound_from md5 rs output_dir udp_forwarding_enabled raws (init fs)
        (new_state-IsSound new_state refl)

  -- In every state that the receiver reaches, whatever arrives, `bytes_buffered` is the number of
  -- bytes in the two buffers, and at most 1,036,000: a full batch of data and parity.
  pub receive_all_memory :
      let state = (receive_all md5 rs output_dir udp_forwarding_enabled (init fs) raws).state in
      (state.bytes_buffered ≡ total state.data_buffer + total state.parity_buffer)
      × (state.bytes_buffered ≤ 1_036_000)
  receive_all_memory =
      let state = (receive_all md5 rs output_dir udp_forwarding_enabled (init fs) raws).state in
      (receive_all-IsSound.counted, bytes_buffered-le state receive_all-IsSound)

  -- In every state that the receiver reaches, a transfer that is not under way has left nothing
  -- behind: the state is the one that the receiver started with.
  pub receive_all_idle :
      let state = (receive_all md5 rs output_dir udp_forwarding_enabled (init fs) raws).state in
      state.file_path ≡ none → state ≡ new_state
  receive_all_idle = receive_all-IsSound.idle

  -- In every state that the receiver reaches with a transfer under way, a valid DATA chunk of the
  -- current batch is not refused by the byte limit of the buffers: the failure mark stays as it is.
  pub receive_all_never_full :
      let r = receive_all md5 rs output_dir udp_forwarding_enabled (init fs) raws in
      (p : Bytes) (packet : Packet)
      → r.state.file_path ≡ some p
      → is_chunk_valid md5 packet r.state pkg_type_data ≡ true
      → batch_for_data packet.count ≡ r.state.current_batch
      → (buffer_data r.state r.stats packet).0.failed ≡ r.state.failed
  unfolding batch_for_data
  receive_all_never_full p packet active valid here =
      let r = receive_all md5 rs output_dir udp_forwarding_enabled (init fs) raws in
      (buffer_data-IsSound r.state receive_all-IsSound active packet r.stats here
        (chunk_fits md5 packet r.state valid).1).1
