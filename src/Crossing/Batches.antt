-- ===== src/Crossing/Batches.antt =====
-- The batches of a file on a link that loses packets.
use data_diode.Prelude.{
  ℕ, zero, suc, ◌+◌, ◌-◌, ◌*◌, ◌≤◌, ◌<◌, min, Bool, List, [], ◌∷◌, ◌++◌, map, map-append,
  append_assoc, ◌≡◌, refl, sym, ap, ◌∙◌, arith, Bytes, length, drop, length-map,
}
use data_diode.Proto.{batch_data_chunks}
use data_diode.Receive.Finalize.{ReedSolomon}
use data_diode.Receive.Finalize.Contents.{nth_chunk}
use data_diode.Receive.Session.{Upload, chunk_count, Piece}
use data_diode.Receive.Session.Gather.{IsFit, batch_start_early}
use data_diode.Receive.Session.Run.{packets_of, batch_packets}
use data_diode.Receive.Session.Wire.{wire}
use data_diode.Send.Parity.{ReedSolomonEncoder}
use data_diode.Send.File.Packets.{groups_within, batches_from}
use data_diode.Crossing.Keep.{kept, keep, keep-append, keep-map}
use data_diode.Crossing.Cut.{tabulate, tabulate_at, take-tabulate, drop-tabulate}
use data_diode.Crossing.Pieces.{
  size_of, all_pieces, raw_of, length-all_pieces, group, EncodesBatches, batch-raw,
}

-- The masks of the batches, and behind them the mask of what follows.
abbrev pub joined : List (List Bool) → List Bool → List Bool
joined [] more = more
joined (mask ∷ masks) more = mask ++ joined masks more

groups_within-tabulate :
    (f : ℕ → Bytes) (rounds s n : ℕ)
    → 0 < n
    → groups_within (suc rounds) (tabulate s n f)
      ≡ tabulate s (min batch_data_chunks n) f
        ∷ groups_within rounds (tabulate (s + batch_data_chunks) (n - batch_data_chunks) f)
groups_within-tabulate f rounds s zero h = absurd (omega arith)
groups_within-tabulate f rounds s (suc n) h =
    ap (λ g. g ∷ groups_within rounds (drop batch_data_chunks (tabulate s (suc n) f)))
      (take-tabulate f batch_data_chunks s (suc n))
    ∙ ap (λ cs. tabulate s (min batch_data_chunks (suc n)) f ∷ groups_within rounds cs)
        (drop-tabulate f batch_data_chunks s (suc n))

no_groups : (rounds : ℕ) → groups_within rounds [] ≡ []
no_groups zero = refl
no_groups (suc rounds) = refl

module _ (rs : ReedSolomon) (u : Upload) (fit : IsFit u) (dir : Bytes) (enabled : Bool)
    (enc : ReedSolomonEncoder) (law : EncodesBatches u fit enc) where
  open u use {md5, contents, path_hash}

  -- A mask for each batch from `b` on, with at least as many packets as the batch has chunks.
  abbrev pub KeepsBatches : ℕ → List (List Bool) → Type 0
  KeepsBatches b [] = chunk_count u ≤ b * batch_data_chunks
  KeepsBatches b (mask ∷ masks) =
      (b * batch_data_chunks < chunk_count u)
      × (length mask ≡ size_of u fit b + 100)
      × (size_of u fit b ≤ kept mask)
      × KeepsBatches (b + 1) masks

  -- What arrives of each batch.
  abbrev pub kept_pieces : ℕ → List (List Bool) → List (List Piece)
  kept_pieces b [] = []
  kept_pieces b (mask ∷ masks) = keep mask (all_pieces u fit b) ∷ kept_pieces (b + 1) masks

  -- The chunks from batch `b` on.
  abbrev chunks_left : ℕ → List Bytes
  chunks_left b =
      tabulate (b * batch_data_chunks) (chunk_count u - b * batch_data_chunks) (nth_chunk contents)

  next_group :
      (b rounds : ℕ)
      → b * batch_data_chunks < chunk_count u
      → groups_within (suc rounds) (chunks_left b)
        ≡ group u fit b ∷ groups_within rounds (chunks_left (b + 1))
  next_group b rounds h =
      let n = chunk_count u - b * batch_data_chunks in
      let (start, size) = batch_start_early b (length contents) fit.small (omega arith) in
      groups_within-tabulate (nth_chunk contents) rounds (b * batch_data_chunks) n (omega arith)
      ∙ ap
          (λ g.
            g
            ∷ groups_within rounds (
                tabulate (b * batch_data_chunks + batch_data_chunks) (n - batch_data_chunks)
                  (nth_chunk contents)))
          (tabulate_at (nth_chunk contents) (b * batch_data_chunks) (b * batch_data_chunks)
            (min batch_data_chunks n) (size_of u fit b) refl (omega arith))
      ∙ ap (λ cs. group u fit b ∷ groups_within rounds cs)
          (tabulate_at (nth_chunk contents) (b * batch_data_chunks + batch_data_chunks)
            ((b + 1) * batch_data_chunks) (n - batch_data_chunks)
            (chunk_count u - (b + 1) * batch_data_chunks) (omega arith) (omega arith))

  map-raw_of :
      (b : ℕ) (pieces : List Piece)
      → map (raw_of u fit b) pieces ≡ map wire (packets_of rs u fit dir enabled b pieces)
  map-raw_of b [] = refl
  map-raw_of b (piece ∷ pieces) = ap (◌∷◌ (raw_of u fit b piece)) (map-raw_of b pieces)

  -- What arrives of a batch, in front of what arrives later.
  keep-batch :
      (b : ℕ) (mask more : List Bool) (rest : List Bytes)
      → length mask ≡ size_of u fit b + 100
      → keep (mask ++ more) (map (raw_of u fit b) (all_pieces u fit b) ++ rest)
        ≡ map wire (packets_of rs u fit dir enabled b (keep mask (all_pieces u fit b)))
          ++ keep more rest
  keep-batch b mask more rest same =
      let pieces = all_pieces u fit b in
      keep-append mask more (map (raw_of u fit b) pieces) rest
        (same ∙ sym (length-map (raw_of u fit b) pieces ∙ length-all_pieces u fit b))
      ∙ ap (λ xs. xs ++ keep more rest)
          (keep-map (raw_of u fit b) mask pieces ∙ map-raw_of b (keep mask pieces))

  pub keep-batches :
      (masks : List (List Bool)) (b rounds : ℕ) (more : List Bool) (rest : List Bytes)
      → chunk_count u - b * batch_data_chunks ≤ rounds
      → KeepsBatches b masks
      → keep
          (joined masks more)
          (batches_from md5 path_hash enc b (groups_within rounds (chunks_left b)) ++ rest)
        ≡ map wire (batch_packets rs u fit dir enabled b (kept_pieces b masks)) ++ keep more rest
  keep-batches [] b rounds more rest enough h =
      let none_left : chunk_count u - b * batch_data_chunks ≡ 0 = omega arith in
      ap
        (λ n. keep more (
          batches_from md5 path_hash enc b
            (groups_within rounds (tabulate (b * batch_data_chunks) n (nth_chunk contents)))
          ++ rest))
        none_left
      ∙ ap (λ gs. keep more (batches_from md5 path_hash enc b gs ++ rest)) (no_groups rounds)
  keep-batches (mask ∷ masks) b zero more rest enough h = absurd (omega (arith, h.0))
  keep-batches (mask ∷ masks) b (suc rounds) more rest enough (early, same, several, h) =
      let run = batches_from md5 path_hash enc in
      let after = run (b + 1) (groups_within rounds (chunks_left (b + 1))) in
      let here = map (raw_of u fit b) (all_pieces u fit b) in
      let first = map wire (packets_of rs u fit dir enabled b (keep mask (all_pieces u fit b))) in
      let later =
        map wire (batch_packets rs u fit dir enabled (b + 1) (kept_pieces (b + 1) masks)) in
      ap (λ gs. keep (mask ++ joined masks more) (run b gs ++ rest)) (next_group b rounds early)
      ∙ ap (λ xs. keep (mask ++ joined masks more) (xs ++ rest))
          (batch-raw u fit enc law b after early)
      ∙ ap (keep (mask ++ joined masks more)) (append_assoc here after rest)
      ∙ keep-batch b mask (joined masks more) (after ++ rest) same
      ∙ ap (λ xs. first ++ xs) (keep-batches masks (b + 1) rounds more rest (omega arith) h)
      ∙ sym (append_assoc first later (keep more rest))
      ∙ ap (λ xs. xs ++ keep more rest)
          (sym (
            map-append wire (packets_of rs u fit dir enabled b (keep mask (all_pieces u fit b)))
              (batch_packets rs u fit dir enabled (b + 1) (kept_pieces (b + 1) masks))))
