-- ===== src/Tests/Receiving.antt =====
-- The receiver at work.
use data_diode.Prelude.{
  ℕ, ◌+◌, ◌≤◌, Bool, true, false, List, [], ◌∷◌, none, some, ◌≡◌, refl, ap, arith, Bytes, length,
  beq_bytes,
}
use data_diode.BTreeMap.{get, contains_key, insert}
use data_diode.Decimal.{parse_utf8}
use data_diode.FileSystem.{
  FileSystem, FileName, lookup, put, erase, remove_file, create_dir_all, open_truncate, open_create,
  set_len, seek, write_all, rename, exists, beq_name,
}
use data_diode.Proto.{decode_parity_field, md5_hex}
use data_diode.SafePath.{
  is_safe_rel_path, components, front, split, piece, body, all_normal, join, needs_separator,
  normal,
}
use data_diode.SafePath.Inside.{resolve, IsInside}
use data_diode.Utf8.{from_utf8, from_utf8_lossy}
use data_diode.Receive.Packet.{Packet, decode_packet}
use data_diode.Receive.State.{Receiver, new_state}
use data_diode.Receive.Chunk.{
  is_chunk_valid, batch_for_data, batch_for_parity, total_chunks, batch_start, batch_data_size,
  expected_len,
}
use data_diode.Receive.Buffer.{buffer_data, buffer_parity}
use data_diode.Receive.Finalize.{
  padded, add_originals, add_recoveries, run_decoder, restore, chunk_at, after_write, write_chunk,
  write_chunks, conclude, write_at, batch_offset, write_output, write_restored, after_batch,
  finalize_current_batch, advance_loop, advance_to_batch,
}
use data_diode.Receive.Transfer.{
  reset_transfer, partial_path, failed_path, mark_failure, size_output, open_output_file,
  contains_byte, give_up, abandon, reject, begin, remove_stale, open_transfer, new_file,
  fail_transfer, succeed, publish, after_last, close, finalize_last, finish, finish_file,
}
use data_diode.Receive.Buffer.Bounds.{total}
use data_diode.Receive.Worker.Confinement.{TakesAll, receive_all_confined}
use data_diode.Receive.Transfer.Counting.{under_way}
use data_diode.Receive.Worker.Keeping.{other_files, receive_all-keeps_file}
use data_diode.Receive.Worker.Counting.{unpoisoned, announcements, receive_all-tally}
use data_diode.Receive.Worker.Bounds.{receive_all_memory, receive_all_idle, receive_all_never_full}
use data_diode.Receive.Worker.{
  recover, handle_start, handle_udp, advance_if_later, handle_data, handle_parity, dispatch,
  receive_packet, receive, receive_all, init,
}
use data_diode.Tests.Samples.{
  codes, length_hash, mirror, path_hash_of, start_of, data_of, parity_of, end_of, out_dir, secret,
  disk, clean,
}

run : List Bytes → Receiver
unfolding get contains_key insert parse_utf8 lookup put erase remove_file create_dir_all
    open_truncate open_create set_len seek write_all rename exists beq_name decode_parity_field
    md5_hex is_safe_rel_path components front split piece body all_normal join needs_separator
    resolve from_utf8 from_utf8_lossy decode_packet is_chunk_valid batch_for_data batch_for_parity
    total_chunks batch_start batch_data_size expected_len buffer_data buffer_parity padded
    add_originals add_recoveries run_decoder restore chunk_at after_write write_chunk write_chunks
    conclude write_at batch_offset write_output write_restored after_batch finalize_current_batch
    advance_loop advance_to_batch reset_transfer partial_path failed_path mark_failure size_output
    open_output_file contains_byte give_up abandon reject begin remove_stale open_transfer new_file
    fail_transfer succeed publish after_last close finalize_last finish finish_file recover
    handle_start handle_udp advance_if_later handle_data handle_parity dispatch receive_packet
    receive receive_all init start_of data_of parity_of end_of beq_bytes
run raws = receive_all length_hash mirror out_dir false (init disk) (clean raws)

abbrev name : Bytes
name = codes "a/b.txt"

abbrev hello : Bytes
hello = codes "hello"

-- `out/a/b.txt`.
abbrev target : FileName
target = normal out_dir ∷ normal (codes "a") ∷ normal (codes "b.txt") ∷ []

received :
    lookup target (run (start_of name 5 ∷ data_of name 0 hello ∷ end_of name ∷ [])).fs.files
    ≡ some hello
unfolding run
received = refl

-- The only chunk is lost, and a parity shard restores it.
restored :
    lookup target (run (start_of name 5 ∷ parity_of name 7 hello ∷ end_of name ∷ [])).fs.files
    ≡ some hello
unfolding run
restored = refl

-- Nothing arrived between START and END: only the marker is left.
marked :
    (run (start_of name 5 ∷ end_of name ∷ [])).fs.files
    ≡ (secret, codes "root")
      ∷ (normal out_dir ∷ normal (codes "a") ∷ normal (codes "b.txt.failed") ∷ [], [])
      ∷ []
unfolding run
marked = refl

-- A path with `..` is counted as a failure, and no marker is written.
rejected :
    let r = run (start_of (codes "../etc/passwd") 5 ∷ []) in
    (r.fs ≡ disk) × (r.stats.files_failed ≡ 1)
unfolding run
rejected = (refl, refl)

abbrev initial : FileName → ℕ
initial (normal (c ∷ s) ∷ rest) = c
initial _ = 0

secret_outside : ¬ IsInside out_dir secret
unfolding resolve split body piece beq_bytes
secret_outside (names, e, n) = absurd (omega (arith, ap initial e))

abbrev arrivals : List (Bool × Bytes)
arrivals = clean (start_of name 5 ∷ data_of name 0 hello ∷ end_of name ∷ [])

receive_all_confined_example :
    lookup secret (receive_all length_hash mirror out_dir false (init disk) arrivals).fs.files
    ≡ lookup secret disk.files
receive_all_confined_example =
    receive_all_confined length_hash mirror out_dir false disk arrivals secret secret_outside

abbrev half : List (Bool × Bytes)
half = clean (start_of name 5 ∷ data_of name 0 hello ∷ [])

receive_all_memory_example :
    let state = (receive_all length_hash mirror out_dir false (init disk) half).state in
    (state.bytes_buffered ≡ total state.data_buffer + total state.parity_buffer)
    × (state.bytes_buffered ≤ 1_036_000)
receive_all_memory_example = receive_all_memory length_hash mirror out_dir false disk half

ended : (run (start_of name 5 ∷ data_of name 0 hello ∷ end_of name ∷ [])).state.file_path ≡ none
unfolding run
ended = refl

receive_all_idle_example :
    (receive_all length_hash mirror out_dir false (init disk) arrivals).state ≡ new_state
receive_all_idle_example =
    receive_all_idle length_hash mirror out_dir false disk arrivals (unfold run in ended)

abbrev second : Packet
second = record {
  pkg_type = 1;
  count = 1;
  path_hash = path_hash_of name;
  data_hash = md5_hex length_hash hello;
  content = hello;
}

mid_transfer : (run (start_of name 5 ∷ data_of name 0 hello ∷ [])).state.file_path ≡ some name
unfolding run
mid_transfer = refl

second_valid :
    is_chunk_valid length_hash second (run (start_of name 5 ∷ data_of name 0 hello ∷ [])).state 1
    ≡ true
unfolding run
second_valid = refl

first_batch :
    batch_for_data 1 ≡ (run (start_of name 5 ∷ data_of name 0 hello ∷ [])).state.current_batch
unfolding run
first_batch = refl

receive_all_never_full_example :
    let r = receive_all length_hash mirror out_dir false (init disk) half in
    (buffer_data r.state r.stats second).0.failed ≡ r.state.failed
receive_all_never_full_example =
    receive_all_never_full length_hash mirror out_dir false disk half name second
      (unfold run in mid_transfer) (unfold run in second_valid) (unfold run in first_batch)

-- A transfer that is given up for another, which is repeated and then ends.
abbrev three_starts : List Bytes
three_starts =
    start_of name 5
    ∷ data_of name 0 hello
    ∷ start_of (codes "b") 5
    ∷ start_of (codes "b") 5
    ∷ end_of (codes "b")
    ∷ []

receive_all-tally_example :
    let r = receive_all length_hash mirror out_dir false (init disk) (unpoisoned three_starts) in
    r.stats.files_transferred + r.stats.files_failed + under_way r.state.file_path
    ≡ announcements length_hash mirror out_dir false (init disk) three_starts
receive_all-tally_example =
    receive_all-tally length_hash mirror out_dir false disk three_starts (omega arith)

-- The file is there, and the file `b` is announced.
abbrev full_disk : FileSystem
full_disk = record { files = (target, hello) ∷ []; attempts = [] }

b_announced :
    TakesAll out_dir
      (other_files out_dir target)
      length_hash
      mirror
      false
      (clean (start_of (codes "b") 5 ∷ []))
unfolding decode_packet start_of parse_utf8 from_utf8 from_utf8_lossy resolve join partial_path
    failed_path split piece body needs_separator beq_bytes
b_announced = (
  λ start safe. (
    λ e. absurd (omega (arith, ap length e)),
    λ e. absurd (omega (arith, ap length e)),
    λ e. absurd (omega (arith, ap length e)),
  ),
  tt,
)

receive_all-keeps_file_example :
    lookup target
      (receive_all length_hash mirror out_dir false
        (init full_disk)
        (clean (start_of (codes "b") 5 ∷ []))).fs.files
    ≡ some hello
unfolding lookup init beq_name beq_bytes
receive_all-keeps_file_example =
    receive_all-keeps_file length_hash mirror out_dir false (init full_disk)
      (clean (start_of (codes "b") 5 ∷ [])) target tt tt b_announced
