-- ===== src/Send.antt =====
-- The UDP forwarder of diode_send/src/main.rs: what `spawn_udp_forwarder` puts on the link for a
-- datagram. The clock's reading is a number of nanoseconds; the socket is the list of packets.
pub mod Pacer
pub mod Link
pub mod Reader
pub mod Parity
pub mod File
pub mod Scan
pub mod Chunks
pub mod Flow
pub mod Delivery
pub mod Forwarder
use data_diode.Prelude.{ℕ, zero, suc, ◌+◌, List, [], ◌∷◌, ◌++◌, Bytes, length, take, drop}
use data_diode.Decimal.{display, zero_padded}
use data_diode.Proto.{chunk_size, pkg_type_udp, encode_packet_into, md5_hex}

abbrev pub udp_resend : ℕ
udp_resend = 2

-- `data.chunks(CHUNK_SIZE)`. A chunk has a byte at least, so as many rounds as there are bytes are
-- enough.
unfoldable pub chunks_within : ℕ → Bytes → List Bytes
chunks_within zero datagram = []
chunks_within (suc rounds) [] = []
chunks_within (suc rounds) (b ∷ datagram) =
    take chunk_size (b ∷ datagram) ∷ chunks_within rounds (drop chunk_size (b ∷ datagram))

unfoldable pub chunks : Bytes → List Bytes
chunks datagram = chunks_within (length datagram) datagram

-- The packets of the chunks from number `count` on.
unfoldable pub fragments_from : ℕ → Bytes → Bytes → List Bytes → List Bytes
fragments_from count data_length pkg_id [] = []
fragments_from count data_length pkg_id (chunk ∷ cs) =
    encode_packet_into [] pkg_type_udp count data_length pkg_id chunk
    ∷ fragments_from (count + 1) data_length pkg_id cs

-- The loop over `0..UDP_RESEND`.
unfoldable pub resend : ℕ → List Bytes → List Bytes
resend zero packets = []
resend (suc times) packets = packets ++ resend times packets

module _ (md5 : Bytes → Bytes) where
  -- The packets of one datagram that is read at the time `now`.
  unfoldable pub forward_datagram : ℕ → Bytes → List Bytes
  forward_datagram now datagram =
      let pkg_id = md5_hex md5 (display now) in
      let data_length = zero_padded 32 (length datagram) in
      resend udp_resend (fragments_from 0 data_length pkg_id (chunks datagram))
