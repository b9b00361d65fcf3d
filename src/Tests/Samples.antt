-- ===== src/Tests/Samples.antt =====
-- Concrete parameters: a hash, a codec for batches of one chunk, packets and a file system.
use data_diode.Prelude.{
  ℕ, ◌%◌, Bool, false, List, [], ◌∷◌, map, Option, none, some, Bytes, length, replicate,
  if◌then◌else◌, ◌==◌,
}
use Prim.Native.Char.{code}
use Prim.Native.String.{String}
use data_diode.Proto.{
  pkg_type_start, pkg_type_data, pkg_type_end, pkg_type_parity, empty_hash, encode_packet,
  encode_parity_field, md5_hex,
}
use data_diode.FileSystem.{FileName, FileSystem}
use data_diode.SafePath.{normal}
use data_diode.Receive.Finalize.{ReedSolomon, padded}

abbrev pub codes : String → Bytes
codes String.[] = []
codes (String.◌∷◌ c s) = code c ∷ codes s

-- Stands for MD5: sixteen bytes that depend on the length alone.
abbrev pub length_hash : Bytes → Bytes
length_hash s = replicate 16 (length s % 256)

-- A codec for one data shard: each parity shard is a copy of it.
abbrev pub mirror : ReedSolomon
mirror = record {
  Decoder = Option Bytes;
  new_decoder = λ k m size. if k == 1 then some none else none;
  add_original_shard = λ i s d. some (some s);
  add_recovery_shard = λ i s d. some (some s);
  decode = λ d. elim d [ none ↦ none | some s ↦ some ((0, s) ∷ []) ];
}

unfoldable pub path_hash_of : Bytes → Bytes
unfolding md5_hex
path_hash_of path = md5_hex length_hash path

unfoldable pub start_of : Bytes → ℕ → Bytes
unfolding path_hash_of encode_packet encode_parity_field
start_of path size =
    encode_packet pkg_type_start size (path_hash_of path) (encode_parity_field 100) path

unfoldable pub data_of : Bytes → ℕ → Bytes → Bytes
unfolding path_hash_of encode_packet
data_of path count chunk =
    encode_packet pkg_type_data count (path_hash_of path) (md5_hex length_hash chunk) chunk

unfoldable pub parity_of : Bytes → ℕ → Bytes → Bytes
unfolding path_hash_of encode_packet padded
parity_of path count chunk =
    encode_packet pkg_type_parity count (path_hash_of path) (md5_hex length_hash (padded chunk))
      (padded chunk)

unfoldable pub end_of : Bytes → Bytes
unfolding encode_packet
end_of path = encode_packet pkg_type_end 0 empty_hash empty_hash path

abbrev pub out_dir : Bytes
out_dir = codes "out"

abbrev pub secret : FileName
secret = normal (codes "etc") ∷ normal (codes "passwd") ∷ []

abbrev pub disk : FileSystem
disk = record { files = (secret, codes "root") ∷ []; attempts = [] }

-- The packets come one by one, and the lock is never poisoned.
abbrev pub clean : List Bytes → List (Bool × Bytes)
clean raws = map (λ raw. (false, raw)) raws
