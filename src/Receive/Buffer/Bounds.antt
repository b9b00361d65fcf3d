-- ===== src/Receive/Buffer/Bounds.antt =====
-- What the buffers of the current batch hold, and that their byte limit is never reached.
use data_diode.Prelude.{
  ℕ, ◌+◌, ◌*◌, ◌/◌, ◌≤◌, ◌<◌, false, [], ◌∷◌, inl, inr, none, some, ◌≡◌, refl, arith, Bytes, length,
  ltb, ltb_of_le, Bool-cases,
}
use data_diode.BTreeMap.{BTreeMap, contains_key, insert}
use data_diode.BTreeMap.Laws.{Ascends, insert-Ascends, length-le_of_Ascends}
use data_diode.Proto.{chunk_size, shard_size, batch_data_chunks, batch_parity_chunks}
use data_diode.Receive.Packet.{Packet}
use data_diode.Receive.State.{ReceiveState, Stats, new_state, buffer_byte_limit, saturating_add}
use data_diode.Receive.Buffer.{buffer_data, buffer_parity}

-- The bytes that a buffer holds.
abbrev pub total : BTreeMap Bytes → ℕ
total [] = 0
total ((k, s) ∷ m) = length s + total m

-- No value is longer than `n`.
abbrev pub AtMost : ℕ → BTreeMap Bytes → Type 0
AtMost n [] = Unit
AtMost n ((k, s) ∷ m) = (length s ≤ n) × AtMost n m

total-insert :
    (k : ℕ) (s : Bytes) (m : BTreeMap Bytes)
    → contains_key k m ≡ false
    → total (insert k s m) ≡ length s + total m
unfolding insert contains_key
total-insert k s [] h = refl
total-insert k s ((j, t) ∷ m) h = ground (arith, total-insert k s m)

insert-AtMost :
    (k : ℕ) (s : Bytes) (n : ℕ) (m : BTreeMap Bytes)
    → length s ≤ n
    → AtMost n m
    → AtMost n (insert k s m)
unfolding insert
insert-AtMost k s n [] h a = (h, tt)
insert-AtMost k s n ((j, t) ∷ m) h a = ground (arith, insert-AtMost k s n m)

total-le : (n : ℕ) (m : BTreeMap Bytes) → AtMost n m → total m ≤ n * length m
total-le n [] a = omega arith
total-le n ((k, s) ∷ m) (h, a) = grind (arith, total-le n m a)

-- The data chunks belong to the current batch, the parity shards to the indices of one batch, no
-- payload is longer than its kind allows, the counter is their sum, and without a transfer
-- the state is the fresh one.
pub record IsSound (state : ReceiveState) : Type 0 where
  pub in_batch :
      Ascends
        (state.current_batch * batch_data_chunks)
        (state.current_batch * batch_data_chunks + batch_data_chunks)
        state.data_buffer
  pub in_parity : Ascends 0 batch_parity_chunks state.parity_buffer
  pub chunk_sizes : AtMost chunk_size state.data_buffer
  pub shard_sizes : AtMost shard_size state.parity_buffer
  pub counted : state.bytes_buffered ≡ total state.data_buffer + total state.parity_buffer
  pub idle : state.file_path ≡ none → state ≡ new_state

-- A full batch of data and parity.
abbrev pub full_batch : ℕ
full_batch = chunk_size * batch_data_chunks + shard_size * batch_parity_chunks

pub bytes_buffered-le : (state : ReceiveState) → IsSound state → state.bytes_buffered ≤ full_batch
bytes_buffered-le state v =
    let b = state.current_batch * batch_data_chunks in
    omega (
      arith,
      v.counted,
      total-le chunk_size state.data_buffer v.chunk_sizes,
      total-le shard_size state.parity_buffer v.shard_sizes,
      length-le_of_Ascends b (b + batch_data_chunks) state.data_buffer (omega arith) v.in_batch,
      length-le_of_Ascends 0 batch_parity_chunks state.parity_buffer (omega arith) v.in_parity,
    )

saturating_add_small : (a b : ℕ) → a ≤ full_batch → b ≤ shard_size → saturating_add a b ≡ a + b
saturating_add_small a b ha hb = omega arith

pub cap_not_reached :
    (a b : ℕ) → a ≤ full_batch → b ≤ shard_size → ltb buffer_byte_limit (saturating_add a b) ≡ false
cap_not_reached a b ha hb = ltb_of_le buffer_byte_limit (saturating_add a b) (omega arith)

module _ (state : ReceiveState) (v : IsSound state) {p : Bytes} (active : state.file_path ≡ some p)
    (packet : Packet) where
  -- A chunk of the current batch is stored unless it is there, and the buffers stay sound.
  pub buffer_data-IsSound :
      (stats : Stats)
      → packet.count / batch_data_chunks ≡ state.current_batch
      → length packet.content ≤ chunk_size
      → IsSound (buffer_data state stats packet).0
        × ((buffer_data state stats packet).0.failed ≡ state.failed)
        × ((buffer_data state stats packet).0.file_path ≡ some p)
  unfolding buffer_data
  buffer_data-IsSound stats here fits =
      elim (Bool-cases (contains_key packet.count state.data_buffer)) [
        | inl e ↦ rw e (v, refl, active)
        | inr e ↦
            rw
              (
                e,
                cap_not_reached state.bytes_buffered (length packet.content)
                    (bytes_buffered-le state v) (omega arith),
              )
              (
                record {
                  in_batch =
                      insert-Ascends packet.count packet.content
                        (state.current_batch * batch_data_chunks)
                        (state.current_batch * batch_data_chunks + batch_data_chunks)
                        state.data_buffer (omega arith) (omega arith) v.in_batch;
                  in_parity = v.in_parity;
                  chunk_sizes =
                      insert-AtMost packet.count packet.content chunk_size state.data_buffer fits
                        v.chunk_sizes;
                  shard_sizes = v.shard_sizes;
                  counted = omega (
                    arith,
                    v.counted,
                    total-insert packet.count packet.content state.data_buffer e,
                    saturating_add_small state.bytes_buffered (length packet.content)
                        (bytes_buffered-le state v) (omega arith),
                  );
                  idle = λ n. cc;
                },
                refl,
                active,
              )
      ]

  pub buffer_parity-IsSound :
      (idx : ℕ)
      → idx < batch_parity_chunks
      → length packet.content ≤ shard_size
      → IsSound (buffer_parity state packet idx)
        × ((buffer_parity state packet idx).failed ≡ state.failed)
        × ((buffer_parity state packet idx).file_path ≡ some p)
  unfolding buffer_parity
  buffer_parity-IsSound idx here fits = elim (Bool-cases (contains_key idx state.parity_buffer)) [
    | inl e ↦ rw e (v, refl, active)
    | inr e ↦
        rw
          (
            e,
            cap_not_reached state.bytes_buffered (length packet.content) (bytes_buffered-le state v)
                fits,
          )
          (
            record {
              in_batch = v.in_batch;
              in_parity =
                  insert-Ascends idx packet.content 0 batch_parity_chunks state.parity_buffer
                    (omega arith) here v.in_parity;
              chunk_sizes = v.chunk_sizes;
              shard_sizes =
                  insert-AtMost idx packet.content shard_size state.parity_buffer fits
                    v.shard_sizes;
              counted = omega (
                arith,
                v.counted,
                total-insert idx packet.content state.parity_buffer e,
                saturating_add_small state.bytes_buffered (length packet.content)
                    (bytes_buffered-le state v) fits,
              );
              idle = λ n. cc;
            },
            refl,
            active,
          )
  ]
