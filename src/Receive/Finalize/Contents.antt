-- ===== src/Receive/Finalize/Contents.antt =====
-- What a batch writes: chunk by chunk, the bytes of the file that was sent.
use data_diode.Prelude.{
  ℕ, zero, suc, ◌+◌, ◌-◌, ◌*◌, ◌≤◌, min, true, [], ◌∷◌, ◌++◌, append_assoc, append-nil, some, ◌≡◌,
  sym, ap, ◌∙◌, arith, Bytes, length, length-append, take, drop, length-take, length-drop,
  take-append,
}
use native.Mathlib.Nat.{zero-add, suc-add}
use data_diode.FileSystem.{
  granted, FileSystem, File, lookup, attempt, contents, overwrite, write_bytes, write_as, write_all,
}
use data_diode.FileSystem.Frame.{lookup-put_self}
use data_diode.Proto.{chunk_size}

-- Chunk `n` of a file with the contents `c`.
abbrev pub nth_chunk : Bytes → ℕ → Bytes
nth_chunk c n = take chunk_size (drop (n * chunk_size) c)

-- Where chunk `n` begins, or where the file ends.
abbrev pub chunk_begin : Bytes → ℕ → ℕ
chunk_begin c n = min (n * chunk_size) (length c)

take-add : (a b : ℕ) (c : Bytes) → take (a + b) c ≡ take a c ++ take b (drop a c)
take-add zero b c = rw zero-add
take-add (suc a) zero [] = rw suc-add
take-add (suc a) (suc b) [] = rw suc-add
take-add (suc a) b (x ∷ c) = rw suc-add (ap (◌∷◌ x) (take-add a b c))

-- Inside the file, an overwrite replaces what stands there and keeps the length.
overwrite_inside :
    (position : ℕ) (bytes v : Bytes)
    → position + length bytes ≤ length v
    → (take (position + length bytes) (overwrite position bytes v) ≡ take position v ++ bytes)
      × (length (overwrite position bytes v) ≡ length v)
overwrite_inside position bytes v h =
    let front = take position v in
    let back = drop (position + length bytes) v in
    let short : length front ≡ position = omega (arith, length-take position v) in
    let no_gap : position - length v ≡ 0 = omega arith in
    let cut : overwrite position bytes v ≡ (front ++ bytes) ++ back =
      unfold overwrite in rw (no_gap, append-nil) (sym (append_assoc front bytes back)) in
    let whole : length (front ++ bytes) ≡ position + length bytes =
      omega (arith, length-append front bytes) in
    (
      rw cut (take-append (position + length bytes) (front ++ bytes) back whole),
      rw cut (
          omega
            (arith, length-append (front ++ bytes) back, length-drop (position + length bytes) v)),
    )

-- The file holds the contents up to its position, has their length, and no call will be refused.
pub record Written (c : Bytes) (file : File) (fs : FileSystem) : Type 0 where
  pub bytes : Bytes
  pub found : lookup file.name fs.files ≡ some bytes
  pub same_length : length bytes ≡ length c
  pub agrees : take file.position bytes ≡ take file.position c
  pub calm : fs.attempts ≡ []

pub attempt_calm : (fs : FileSystem) → fs.attempts ≡ [] → attempt fs ≡ (granted, fs)
unfolding attempt
attempt_calm fs h = rw h

pub write_all_calm :
    (file : File) (chunk : Bytes) (fs : FileSystem)
    → fs.attempts ≡ []
    → write_all file chunk fs
      ≡ (true, record file { position = file.position + length chunk }, write_bytes file chunk fs)
unfolding write_all write_as
write_all_calm file chunk fs h = rw (attempt_calm fs h)

module _ (c : Bytes) where
  -- Writing the bytes that come next keeps the file a beginning of the contents.
  pub write_bytes-Written :
      (file : File) (chunk : Bytes) (fs : FileSystem)
      → Written c file fs
      → file.position + length chunk ≤ length c
      → chunk ≡ take (length chunk) (drop file.position c)
      → Written c
          (record file { position = file.position + length chunk })
          (write_bytes file chunk fs)
  unfolding write_bytes
  write_bytes-Written file chunk fs w fits next =
      let (front, same) =
        overwrite_inside file.position chunk w.bytes (omega (arith, w.same_length)) in
      let old : contents file.name fs.files ≡ w.bytes = rw (w.found, contents) in
      record {
        bytes = overwrite file.position chunk w.bytes;
        found = rw old (lookup-put_self file.name (overwrite file.position chunk w.bytes) fs.files);
        same_length = same ∙ w.same_length;
        agrees =
            front
            ∙ ap (λ t. t ++ chunk) w.agrees
            ∙ ap (λ t. take file.position c ++ t) next
            ∙ sym (take-add file.position (length chunk) c);
        calm = w.calm;
      }
