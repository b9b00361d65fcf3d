-- ===== src/Receive/Session/Gather.antt =====
-- The pieces of the current batch fill the buffers.
use data_diode.Prelude.{
  ℕ, ◌+◌, ◌-◌, ◌*◌, ◌^◌, ◌≤◌, ◌<◌, min, true, [], ◌∷◌, inl, inr, some, ◌≡◌, refl, sym, ap, ◌∙◌,
  subst, arith, Bytes, length, ◌==◌, leb, ltb, beq_bytes_refl, Bool-cases, both_branches,
}
use data_diode.BTreeMap.{BTreeMap, contains_key, insert}
use data_diode.BTreeMap.Laws.{Ascends, insert-Ascends, Each}
use data_diode.Proto.{
  chunk_size, shard_size, batch_data_chunks, pkg_type_data, pkg_type_parity, md5_hex,
}
use data_diode.Receive.Packet.{Packet}
use data_diode.Receive.State.{ReceiveState, Stats, Receiver}
use data_diode.Receive.Chunk.{is_chunk_valid, total_chunks, batch_start, batch_data_size}
use data_diode.Receive.Buffer.{buffer_data, buffer_parity}
use data_diode.Receive.Buffer.Bounds.{
  IsSound, bytes_buffered-le, cap_not_reached, buffer_data-IsSound, buffer_parity-IsSound,
}
use data_diode.Receive.Finalize.Contents.{nth_chunk}
use data_diode.Receive.Finalize.Chunks.{Genuine, length-nth_chunk}
use data_diode.Receive.Session.{
  Upload, chunk_count, Piece, chunk, shard, buffers, store, shard_of_batch, packet_of, IsPiece,
  collect, Session,
}

insert-Each {ℓ} :
    {V : Type ℓ} (P : ℕ → V → Type 0) (k : ℕ) (v : V) (m : BTreeMap V)
    → P k v
    → Each P m
    → Each P (insert k v m)
unfolding insert
insert-Each P k v [] h a = (h, tt)
insert-Each P k v ((j, w) ∷ m) h (a, later) =
    both_branches (Each P) (ltb k j) (h, (a, later))
      (both_branches (Each P) (k == j) (h, later) (a, insert-Each P k v m h later))

store-Each :
    (P : ℕ → Bytes → Type 0) (k : ℕ) (v : Bytes) (m : BTreeMap Bytes)
    → P k v
    → Each P m
    → Each P (store k v m)
store-Each P k v m h a = elim (Bool-cases (contains_key k m)) [
  | inl e ↦ rw e a
  | inr e ↦ rw e (insert-Each P k v m h a)
]

pub store-Ascends :
    (k : ℕ) (v : Bytes) (lo hi : ℕ) (m : BTreeMap Bytes)
    → lo ≤ k
    → k < hi
    → Ascends lo hi m
    → Ascends lo hi (store k v m)
store-Ascends k v lo hi m le lt a = elim (Bool-cases (contains_key k m)) [
  | inl e ↦ rw e a
  | inr e ↦ rw e (insert-Ascends k v lo hi m le lt a)
]

-- In a sound state nothing is refused.
buffer_data-store :
    (state : ReceiveState) (stats : Stats) (packet : Packet)
    → IsSound state
    → length packet.content ≤ chunk_size
    → let state' = (buffer_data state stats packet).0 in
      state' ≡ record state {
        bytes_buffered = state'.bytes_buffered;
        bytes_transferred = state'.bytes_transferred;
        data_buffer = store packet.count packet.content state.data_buffer;
      }
unfolding buffer_data
buffer_data-store state stats packet v fits =
    elim (Bool-cases (contains_key packet.count state.data_buffer)) [
      | inl e ↦ rw e refl
      | inr e ↦
          rw
            (
              e,
              cap_not_reached state.bytes_buffered (length packet.content)
                  (bytes_buffered-le state v) (omega arith),
            )
            refl
    ]

buffer_parity-store :
    (state : ReceiveState) (packet : Packet) (idx : ℕ)
    → IsSound state
    → length packet.content ≤ shard_size
    → let state' = buffer_parity state packet idx in
      state' ≡ record state {
        bytes_buffered = state'.bytes_buffered;
        parity_buffer = store idx packet.content state.parity_buffer;
      }
unfolding buffer_parity
buffer_parity-store state packet idx v fits =
    elim (Bool-cases (contains_key idx state.parity_buffer)) [
      | inl e ↦ rw e refl
      | inr e ↦
          rw
            (
              e,
              cap_not_reached state.bytes_buffered (length packet.content)
                  (bytes_buffered-le state v) fits,
            )
            refl
    ]

pub batch_start_early :
    (b size : ℕ)
    → size < 10 ^ 10
    → b * batch_data_chunks ≤ total_chunks size
    → (batch_start b ≡ b * batch_data_chunks)
      × (batch_data_size b size ≡ min (total_chunks size - b * batch_data_chunks) batch_data_chunks)
unfolding batch_start batch_data_size total_chunks
batch_start_early b size small early = ground arith

-- The size fits the START packet, and the shards have the length of a shard.
pub record IsFit (u : Upload) : Type 0 where
  pub small : length u.contents < 10 ^ 10
  pub recovery_size : (b j : ℕ) → length (shard_of_batch u b j) ≡ shard_size

module _ (u : Upload) (fit : IsFit u) where
  open u use {md5, recovery, contents, path_hash, path, name}

  -- A chunk of the file has its right length and hash.
  pub data_valid :
      (b i : ℕ) (state : ReceiveState)
      → state.path_hash ≡ some path_hash
      → IsPiece u b (chunk i)
      → (is_chunk_valid md5 (packet_of u b (chunk i)) state pkg_type_data ≡ true)
        × (length (nth_chunk contents (b * batch_data_chunks + i)) ≤ chunk_size)
  unfolding is_chunk_valid total_chunks
  data_valid b i state hashed (lt, here) =
      let n = b * batch_data_chunks + i in
      let s = nth_chunk contents n in
      let sized : (1 ≤ length s) × (length s ≤ chunk_size) =
        (omega (arith, length-nth_chunk contents n), omega (arith, length-nth_chunk contents n)) in
      let first : leb 1 (length s) ≡ true = ground arith in
      let second : leb (length s) chunk_size ≡ true = ground arith in
      (
        rw (hashed, beq_bytes_refl path_hash, first, second, beq_bytes_refl (md5_hex md5 s)) refl,
        sized.1,
      )

  pub parity_valid :
      (b j : ℕ) (state : ReceiveState)
      → state.path_hash ≡ some path_hash
      → is_chunk_valid md5 (packet_of u b (shard j)) state pkg_type_parity ≡ true
  unfolding is_chunk_valid
  parity_valid b j state hashed =
      let s = shard_of_batch u b j in
      rw (hashed, beq_bytes_refl path_hash, fit.recovery_size b j, beq_bytes_refl (md5_hex md5 s))
        refl

  -- The receiver took a piece of its batch into the buffers of `q`.
  abbrev pub Took : ℕ → Piece → Receiver → Receiver → Type 0
  Took b piece q r = Session u b r × (buffers r ≡ collect u b piece (buffers q))

  chunk_in_batch :
      (b i : ℕ)
      → b * batch_data_chunks ≤ chunk_count u
      → IsPiece u b (chunk i)
      → (batch_start b ≤ b * batch_data_chunks + i)
        × (b * batch_data_chunks + i < batch_start b + batch_data_size b (length contents))
  chunk_in_batch b i early (lt, here) =
      let (start, size) = batch_start_early b (length contents) fit.small early in
      (omega arith, omega arith)

  pub store_chunk-Took :
      (b i : ℕ) (q : Receiver)
      → Session u b q
      → IsPiece u b (chunk i)
      → let stored = buffer_data q.state q.stats (packet_of u b (chunk i)) in
        Took b (chunk i) q (record q { state = stored.0; stats = stored.1 })
  store_chunk-Took b i q v h =
      let packet = packet_of u b (chunk i) in
      let fits = (data_valid b i q.state v.hashed h).1 in
      let e = buffer_data-store q.state q.stats packet v.sound fits in
      let (sound, same, active) =
        buffer_data-IsSound q.state v.sound v.active packet q.stats (omega (arith, v.current, h.0))
          fits in
      let (lo, hi) = chunk_in_batch b i v.early h in
      let filled = ap (λ s. s.data_buffer) e in
      let kept = ap (λ s. s.parity_buffer) e in
      (
        record {
          sound = sound;
          active = active;
          hashed = ap (λ s. s.path_hash) e ∙ v.hashed;
          sized = ap (λ s. s.file_size) e ∙ v.sized;
          with_parity = ap (λ s. s.parity_per_batch) e ∙ v.with_parity;
          current = ap (λ s. s.current_batch) e ∙ v.current;
          going = same ∙ v.going;
          early = v.early;
          in_batch =
              subst (Ascends (batch_start b) (batch_start b + batch_data_size b (length contents)))
                (sym filled)
                (store-Ascends packet.count packet.content (batch_start b)
                  (batch_start b + batch_data_size b (length contents)) q.state.data_buffer lo hi
                  v.in_batch);
          genuine = subst (Genuine contents) (sym filled) (
              store-Each (λ n s. s ≡ nth_chunk contents n) packet.count packet.content
                q.state.data_buffer refl v.genuine);
          genuine_parity =
              subst (Each (λ j s. s ≡ shard_of_batch u b j)) (sym kept) v.genuine_parity;
          file = v.file;
          opened = ap (λ s. s.output) e ∙ v.opened;
          named = v.named;
          output = v.output;
        },
        ap (λ s. (s.data_buffer, s.parity_buffer)) e,
      )

  pub store_shard-Took :
      (b j : ℕ) (q : Receiver)
      → Session u b q
      → IsPiece u b (shard j)
      → let state = buffer_parity q.state (packet_of u b (shard j)) j in
        Took b (shard j) q (record q { state = state })
  store_shard-Took b j q v h =
      let packet = packet_of u b (shard j) in
      let fits : length packet.content ≤ shard_size = omega (arith, fit.recovery_size b j) in
      let e = buffer_parity-store q.state packet j v.sound fits in
      let (sound, same, active) =
        buffer_parity-IsSound q.state v.sound v.active packet j h.0 fits in
      let kept = ap (λ s. s.data_buffer) e in
      let filled = ap (λ s. s.parity_buffer) e in
      (
        record {
          sound = sound;
          active = active;
          hashed = ap (λ s. s.path_hash) e ∙ v.hashed;
          sized = ap (λ s. s.file_size) e ∙ v.sized;
          with_parity = ap (λ s. s.parity_per_batch) e ∙ v.with_parity;
          current = ap (λ s. s.current_batch) e ∙ v.current;
          going = same ∙ v.going;
          early = v.early;
          in_batch =
              subst (Ascends (batch_start b) (batch_start b + batch_data_size b (length contents)))
                (sym kept) v.in_batch;
          genuine = subst (Genuine contents) (sym kept) v.genuine;
          genuine_parity = subst (Each (λ j s. s ≡ shard_of_batch u b j)) (sym filled) (
              store-Each (λ j s. s ≡ shard_of_batch u b j) j packet.content q.state.parity_buffer
                refl v.genuine_parity);
          file = v.file;
          opened = ap (λ s. s.output) e ∙ v.opened;
          named = v.named;
          output = v.output;
        },
        ap (λ s. (s.data_buffer, s.parity_buffer)) e,
      )
