-- ===== src/Send/File.antt =====
-- `send_file_chunks` of diode_send/src/main.rs.
pub mod Packets
pub mod Regime
pub mod Emission
pub mod Complete
pub mod Removal
use data_diode.Prelude.{
  ℕ, zero, suc, ◌+◌, Bool, true, false, not, List, [], ◌∷◌, ◌++◌, Option, none, some, Bytes, length,
  if◌then◌else◌, ◌==◌,
}
use data_diode.Proto.{chunk_size, batch_data_chunks, batch_parity_chunks, md5_hex}
use data_diode.Receive.State.{wrapping_add}
use data_diode.Send.Link.{Link, SendCfg, send_start_packet, send_data_packet, send_end_packet}
use data_diode.Send.Reader.{Reader, read_chunk}
use data_diode.Send.Parity.{ReedSolomonEncoder, send_parity_packets}

-- What the calls of the file system answer: the size in the metadata, the opened file, and whether
-- it can be removed.
pub record SourceFile : Type 0 where
  pub filesize : Option ℕ
  pub opened : Option Reader
  pub removable : Bool

-- Whether the result is `Ok`, whether the file was removed, and the link.
pub record Sent : Type 0 where
  pub succeeded : Bool
  pub removed : Bool
  pub link : Link

-- The variables of the loop.
pub record Progress : Type 0 where
  pub count : ℕ
  pub batch_idx : ℕ
  pub batch_payloads : List Bytes
  pub reader : Reader

-- The chunk that was sent.
abbrev pub push : Bytes → Progress → Progress
push chunk p = record p {
  batch_payloads = p.batch_payloads ++ chunk ∷ [];
  count = wrapping_add p.count 1;
}

module _ (md5 : Bytes → Bytes) (enc : ReedSolomonEncoder) (cfg : SendCfg)
    (rel_path_hash : Bytes) where
  -- An encoder that fails is only logged.
  unfoldable pub send_batch_parity : Progress → Link → Link
  send_batch_parity p link =
      (send_parity_packets md5 cfg enc rel_path_hash p.batch_payloads batch_parity_chunks
        p.batch_idx link).1

  -- The end of a round: a full batch gets its parity packets.
  unfoldable pub flush : Progress → Link → Progress × Link
  flush p link =
      if length p.batch_payloads == batch_data_chunks
      then (
        record p { batch_payloads = []; batch_idx = wrapping_add p.batch_idx 1 },
        send_batch_parity p link,
      )
      else (p, link)

  unfoldable pub after_data :
      Bool × Link
      → Bytes
      → Progress
      → (Progress × Link → Bool × Progress × Link)
      → Bool × Progress × Link
  after_data (false, link) chunk p next = (false, p, link)
  after_data (true, link) chunk p next = next (flush (push chunk p) link)

  -- A round with what `read_chunk` gave, and how the loop goes on.
  unfoldable pub send_chunk :
      Option Bytes
      → Progress
      → Link
      → (Progress × Link → Bool × Progress × Link)
      → Bool × Progress × Link
  send_chunk none p link next = (false, p, link)
  send_chunk (some []) p link next = (true, p, link)
  send_chunk (some (b ∷ s)) p link next =
      after_data (send_data_packet cfg md5 rel_path_hash (b ∷ s) p.count link) (b ∷ s) p next

  -- The loop. A round reads a byte at least or is the last.
  unfoldable pub send_chunks : ℕ → Progress × Link → Bool × Progress × Link
  send_chunks zero (p, link) = (true, p, link)
  send_chunks (suc rounds) (p, link) =
      let (chunk, reader) = read_chunk p.reader chunk_size in
      send_chunk chunk (record p { reader = reader }) link (send_chunks rounds)

  -- Behind the loop.
  unfoldable pub finish_batches : Bool × Progress × Link → Bool × ℕ × Link
  finish_batches (false, p, link) = (false, p.count, link)
  finish_batches (true, p, link) =
      (true, p.count, if not (length p.batch_payloads == 0) then send_batch_parity p link else link)

  unfoldable pub send_contents : Reader → Link → Bool × ℕ × Link
  send_contents reader link =
      let start : Progress = record {
        count = 0;
        batch_idx = 0;
        batch_payloads = [];
        reader = reader;
      } in
      finish_batches (send_chunks (length reader.rest + 1) (start, link))

abbrev failed : Link → Sent
failed link = record { succeeded = false; removed = false; link = link }

-- `send_end_packet`, with the removal of the file at its end.
unfoldable pub conclude_file : Bool → Bool × Link → Sent
conclude_file removable (false, link) = failed link
conclude_file removable (true, link) = record {
  succeeded = removable;
  removed = removable;
  link = link;
}

module _ (md5 : Bytes → Bytes) (enc : ReedSolomonEncoder) (cfg : SendCfg) (rel_path : Bytes) where
  unfoldable pub end_file : Bool → Bool × ℕ × Link → Sent
  end_file removable (false, count, link) = failed link
  end_file removable (true, count, link) =
      conclude_file removable (send_end_packet cfg rel_path count link)

  unfoldable pub after_start : SourceFile → Bool × Link → Sent
  after_start file (false, link) = failed link
  after_start file (true, link) = elim file.opened [
    | none ↦ failed link
    | some reader ↦
        end_file file.removable (send_contents md5 enc cfg (md5_hex md5 rel_path) reader link)
  ]

  unfoldable pub send_file_chunks : SourceFile → Link → Sent
  send_file_chunks file link = elim file.filesize [
    | none ↦ failed link
    | some filesize ↦
        after_start file
          (send_start_packet cfg filesize rel_path (md5_hex md5 rel_path) batch_parity_chunks link)
  ]
