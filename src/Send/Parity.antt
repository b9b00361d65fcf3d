-- ===== src/Send/Parity.antt =====
-- `send_parity_packets` of diode_send/src/main.rs. The encoder of `reed_solomon_simd` is the
-- parameter `enc`.
use data_diode.Prelude.{
  ℕ, ◌-◌, Bool, true, false, ◌||◌, List, [], ◌∷◌, ◌++◌, Option, none, some, Bytes, length,
  replicate, ◌>>=◌, if◌then◌else◌, ◌==◌,
}
use data_diode.Proto.{shard_size, pkg_type_parity, encode_packet_into, md5_hex}
use data_diode.Receive.State.{wrapping_add, wrapping_mul}
use data_diode.Send.Link.{Link, SendCfg, send_to_blocking}

-- What the sender calls of the encoder. A call that returns an error gives `none`; its text goes to
-- the log. `encode` gives the recovery shards in order.
pub record ReedSolomonEncoder : Type 1 where
  pub Encoder : Type 0
  pub new_encoder : ℕ → ℕ → ℕ → Option Encoder
  pub add_shard : Bytes → Encoder → Option Encoder
  pub encode : Encoder → Option (List Bytes)

-- A payload in a buffer of `SHARD_SIZE` zeros. The source panics on a longer payload; chunks are
-- shorter.
unfoldable pub shard_of : Bytes → Bytes
shard_of payload = payload ++ replicate (shard_size - length payload) 0

module _ (enc : ReedSolomonEncoder) where
  open enc use {Encoder, new_encoder, add_shard, encode}

  unfoldable pub add_shards : List Bytes → Encoder → Option Encoder
  add_shards [] e = some e
  add_shards (payload ∷ payloads) e = do e' ← add_shard (shard_of payload) e; add_shards payloads e'

  -- The recovery shards of a batch.
  unfoldable pub encode_batch : List Bytes → ℕ → Option (List Bytes)
  encode_batch payloads parity_count = do
    e ← new_encoder (length payloads) parity_count shard_size
    e ← add_shards payloads e
    encode e

module _ (md5 : Bytes → Bytes) (cfg : SendCfg) where
  -- A packet that cannot be sent is logged, and the next one follows.
  unfoldable pub send_shards : Bytes → ℕ → List Bytes → Link → Link
  send_shards rel_path_hash index [] link = link
  send_shards rel_path_hash index (shard ∷ shards) link =
      let (sent, link') =
        send_to_blocking cfg
          (encode_packet_into [] pkg_type_parity index rel_path_hash (md5_hex md5 shard) shard)
          link in
      send_shards rel_path_hash (wrapping_add index 1) shards link'

  unfoldable pub send_encoded : Option (List Bytes) → Bytes → ℕ → Link → Bool × Link
  send_encoded none rel_path_hash base link = (false, link)
  send_encoded (some shards) rel_path_hash base link =
      (true, send_shards rel_path_hash base shards link)

  unfoldable pub send_parity_packets :
      ReedSolomonEncoder → Bytes → List Bytes → ℕ → ℕ → Link → Bool × Link
  send_parity_packets enc rel_path_hash payloads parity_count batch_idx link =
      let sent =
        send_encoded (encode_batch enc payloads parity_count) rel_path_hash
          (wrapping_mul batch_idx parity_count) link in
      if (length payloads == 0) || (parity_count == 0) then (true, link) else sent
