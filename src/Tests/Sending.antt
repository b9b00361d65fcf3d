-- ===== src/Tests/Sending.antt =====
-- The sender at work.
use data_diode.Prelude.{
  ℕ, ◌<◌, true, false, List, [], ◌∷◌, ◌++◌, map, ◌⊎◌, none, some, ◌≡◌, refl, arith, Bytes,
  replicate, All,
}
use data_diode.Proto.{md5_hex}
use data_diode.Send.Pacer.{spurious, stored, take_slot, attempt, claim, pause}
use data_diode.Send.Pacer.Spacing.{IsSeen, reserve, claim-reserve, first_from, pause-first_from}
use data_diode.Send.Pacer.Threads.{
  idle, Move, read_clock, load, exchange, Threads, set_phase, end_attempt, move, add_claimed, run,
  reserve_all, run-reserve_all, IsSpaced, run-IsSpaced, alone, run-alone,
}
use data_diode.Send.Link.{
  accepted, busy, refused, Link, SendCfg, accept, send_loop, send_to_blocking,
}
use data_diode.Send.Link.Backoff.{pauses_from, send_to_blocking-backoffs}
use data_diode.Send.Reader.{Reader, at_most, interrupted, read_chunk}
use data_diode.Send.Reader.Exact.{NoFailure, read_chunk-IsRead}
use data_diode.Send.Parity.{ReedSolomonEncoder}
use data_diode.Send.File.{SourceFile, send_file_chunks}
use data_diode.Send.File.Packets.{file_packets}
use data_diode.Send.File.Complete.{send_file_chunks-file_packets}
use data_diode.Send.File.Removal.{Thinned, IsParity, send_file_chunks-Thinned}
use data_diode.Tests.Samples.{codes, length_hash}

-- Another thread takes a slot first.
claim-reserve_example :
    (deadline : ℕ) × IsSeen deadline 10 (spurious ∷ stored 30 ∷ [])
    × (claim 20 5 10 (spurious ∷ stored 30 ∷ []) ≡ reserve 20 5 deadline)
claim-reserve_example = claim-reserve 20 5 10 (spurious ∷ stored 30 ∷ [])

abbrev all_idle : Threads
all_idle = record { next_deadline_nanos = 10; phases = λ t. idle }

-- Both threads see the first deadline; the second is faster, and the first has to try again.
abbrev race : List Move
race =
    read_clock 0 5
    ∷ read_clock 1 6
    ∷ load 0 10
    ∷ load 1 10
    ∷ exchange 1 false
    ∷ exchange 0 false
    ∷ exchange 0 true
    ∷ exchange 0 false
    ∷ read_clock 1 200
    ∷ load 1 10
    ∷ exchange 1 false
    ∷ exchange 1 false
    ∷ []

three_slots : (run 20 all_idle race).0 ≡ (6, 10) ∷ (5, 30) ∷ (200, 200) ∷ []
unfolding run move end_attempt attempt take_slot set_phase add_claimed
three_slots = refl

run-reserve_all_example :
    let (claims, s) = run 20 all_idle race in
    (map (λ c. c.1) claims, s.next_deadline_nanos) ≡ reserve_all 20 10 (map (λ c. c.0) claims)
run-reserve_all_example = run-reserve_all 20 all_idle race

run-IsSpaced_example : IsSpaced 20 10 (run 20 all_idle race).0
run-IsSpaced_example = run-IsSpaced 20 all_idle race

-- The deadline was 7 before.
run-alone_example : (run 20 all_idle (alone 2 15 7)).0 ≡ (15, 15) ∷ []
run-alone_example = run-alone 20 2 15 7 all_idle (omega arith) refl

pause-first_from_example :
    ((pause 5_000_000 0 (4_900_000 ∷ 5_000_100 ∷ [])).1
      ≡ first_from 5_000_000 (0 ∷ 4_900_000 ∷ 5_000_100 ∷ []))
    × All (λ nanos. nanos < 5_000_000) (pause 5_000_000 0 (4_900_000 ∷ 5_000_100 ∷ [])).0
pause-first_from_example = pause-first_from 5_000_000 0 (4_900_000 ∷ 5_000_100 ∷ [])

abbrev pub cfg : SendCfg
cfg = record { interval_nanos = 0; max_backoff = 5 }

abbrev full_link : Link
full_link = record {
  packets = [];
  answers = busy ∷ busy ∷ busy ∷ busy ∷ accepted 0 [] ∷ [];
  backoffs = [];
  deadline = 0;
}

-- The buffer is full four times.
four_pauses : (send_to_blocking cfg (codes "x") full_link).1.backoffs ≡ 1 ∷ 2 ∷ 4 ∷ 5 ∷ []
unfolding send_to_blocking send_loop accept
four_pauses = refl

send_to_blocking-backoffs_example :
    (send_to_blocking cfg (codes "x") full_link).1.backoffs ≡ pauses_from 5 0 4
send_to_blocking-backoffs_example = send_to_blocking-backoffs cfg (codes "x") full_link

abbrev slow : Reader
slow = record { rest = codes "hello"; steps = at_most 1 ∷ interrupted ∷ at_most 0 ∷ [] }

read_chunk-IsRead_example :
    ((read_chunk slow 4).0 ≡ some (codes "hell"))
    × ((read_chunk slow 4).1.rest ≡ codes "o")
    × NoFailure (read_chunk slow 4).1.steps
read_chunk-IsRead_example = read_chunk-IsRead slow 4 tt

-- An encoder that copies the first shard a hundred times.
abbrev pub copier : ReedSolomonEncoder
copier = record {
  Encoder = List Bytes;
  new_encoder = λ k m size. some [];
  add_shard = λ s e. some (e ++ s ∷ []);
  encode = λ e. elim e [ [] ↦ none | s ∷ rest ↦ some (replicate 100 s) ];
}

send_file_chunks-file_packets_example :
    let file : SourceFile = record { filesize = some 5; opened = some slow; removable = true } in
    let sent = send_file_chunks length_hash copier cfg (codes "a/b") file full_link in
    (sent.succeeded ≡ true)
    × (sent.removed ≡ true)
    × (sent.link.packets ≡ file_packets length_hash copier (codes "a/b") 5 (codes "hello"))
send_file_chunks-file_packets_example =
    send_file_chunks-file_packets length_hash copier cfg (codes "a/b") 5 slow true full_link
      (omega arith) tt tt

-- A parity packet is refused.
abbrev refusing_link : Link
refusing_link = record {
  packets = [];
  answers =
      accepted 0 []
      ∷ accepted 0 []
      ∷ busy
      ∷ accepted 0 []
      ∷ accepted 0 []
      ∷ accepted 0 []
      ∷ refused
      ∷ [];
  backoffs = [];
  deadline = 0;
}

send_file_chunks-Thinned_example :
    let file : SourceFile = record { filesize = some 5; opened = some slow; removable = true } in
    let result = send_file_chunks length_hash copier cfg (codes "a/b") file refusing_link in
    ((result.succeeded ≡ true)
      × (result.removed ≡ true)
      × (sent : List Bytes) × Thinned
          (IsParity length_hash (md5_hex length_hash (codes "a/b")))
          sent
          (file_packets length_hash copier (codes "a/b") 5 (codes "hello"))
      × (result.link.packets ≡ sent))
    ⊎ ((result.succeeded ≡ false) × (result.removed ≡ false))
send_file_chunks-Thinned_example =
    send_file_chunks-Thinned length_hash copier cfg (codes "a/b") 5 slow true refusing_link
      (omega arith)
