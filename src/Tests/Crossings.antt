-- ===== src/Tests/Crossings.antt =====
-- A file of one chunk crosses the link: the chunk is lost, and one parity packet of it arrives.
use data_diode.Prelude.{true, false, [], ◌∷◌, ◌++◌, some, ◌≡◌, refl, subst, arith, replicate}
use data_diode.Receive.Chunk.{total_chunks, batch_start, batch_data_size}
use data_diode.Receive.Worker.{receive_all}
use data_diode.Receive.Session.Whole.{IsReceived}
use data_diode.Send.Link.{Link, busy, accepted}
use data_diode.Send.Reader.{at_most, interrupted}
use data_diode.Send.File.{SourceFile, send_file_chunks}
use data_diode.Crossing.Keep.{keep}
use data_diode.Crossing.Codec.{Encodes, encode_with, add_each}
use data_diode.Crossing.Pieces.{EncodesBatches}
use data_diode.Crossing.File.{Arrivals, mask_of, arrived, IsEnough, send_file_chunks-receive_all}
use data_diode.Tests.Samples.{codes, mirror, length_hash}
use data_diode.Tests.Restoring.{copy, hello}
use data_diode.Tests.Sending.{cfg, copier}
use data_diode.Tests.Transfers.{
  upload, upload-IsFit, one_chunk_at_most, upload-RestoresBatches, upload-IsPlaced, digests,
  receiving_another, receiving_another-IsReady,
}

copier-Encodes_100 : Encodes copier 1 100 copy
copier-Encodes_100 = record {
  encodes = λ shards sized. unfold encode_with in unfold add_each in refl;
}

upload-EncodesBatches : EncodesBatches upload upload-IsFit copier
upload-EncodesBatches b h =
    subst (λ k. Encodes copier k 100 copy) (one_chunk_at_most b h) copier-Encodes_100

-- The second START packet, one parity packet, and two END packets arrive.
abbrev few : Arrivals
few = record {
  starts = false ∷ true ∷ false ∷ [];
  batches = (replicate 38 false ++ (true ∷ replicate 62 false)) ∷ [];
  ends = true ∷ false ∷ true ∷ [];
}

few-IsEnough :
    IsEnough mirror upload upload-IsFit
      (codes "out")
      false
      copier
      upload-EncodesBatches
      upload-RestoresBatches
      upload-IsPlaced
      few
unfolding total_chunks batch_data_size batch_start
few-IsEnough = record {
  three_starts = refl;
  a_start = omega arith;
  enough = (omega arith, refl, omega arith, omega arith);
  three_ends = refl;
  an_end = omega arith;
}

abbrev busy_link : Link
busy_link = record {
  packets = [];
  answers = busy ∷ accepted 0 [] ∷ busy ∷ [];
  backoffs = [];
  deadline = 0;
}

send_file_chunks-receive_all_example :
    let file : SourceFile = record {
      filesize = some 5;
      opened = some (record { rest = hello; steps = at_most 1 ∷ interrupted ∷ [] });
      removable = true;
    } in
    let sent = send_file_chunks length_hash copier cfg (codes "a") file busy_link in
    (sent.removed ≡ true)
    × IsReceived mirror upload upload-IsFit
        (codes "out")
        false
        upload-RestoresBatches
        upload-IsPlaced
        (receive_all length_hash mirror
          (codes "out")
          false
          receiving_another
          (arrived (keep (mask_of few) sent.link.packets)))
send_file_chunks-receive_all_example =
    send_file_chunks-receive_all mirror upload upload-IsFit (codes "out") false copier
      upload-EncodesBatches upload-RestoresBatches upload-IsPlaced refl digests cfg
      (at_most 1 ∷ interrupted ∷ []) true busy_link receiving_another few tt tt refl
      receiving_another-IsReady few-IsEnough
