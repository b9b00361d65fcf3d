-- ===== src/Receive/Session/Run.antt =====
-- The packets of a file in the worker loop, batch after batch.
use data_diode.Prelude.{
  ℕ, ◌+◌, ◌*◌, ◌≤◌, ◌<◌, min, Bool, false, List, [], ◌∷◌, ◌++◌, some, ◌≡◌, refl, sym, ap, ◌∙◌,
  subst, arith, Bytes, length, All,
}
use data_diode.Proto.{batch_data_chunks}
use data_diode.Receive.Packet.{Packet}
use data_diode.Receive.State.{Receiver}
use data_diode.Receive.Chunk.{batch_data_size}
use data_diode.Receive.Finalize.{ReedSolomon}
use data_diode.Receive.Worker.{is_active, advance_if_later, dispatch}
use data_diode.Receive.Session.{
  Upload, chunk_count, Piece, chunk, shard, Buffers, buffers, packet_of, IsPiece, collect, gather,
  Session,
}
use data_diode.Receive.Session.Gather.{IsFit, Took, batch_start_early}
use data_diode.Receive.Session.Step.{
  handle_data-Took, handle_parity-Took, handle_current, handle_next, HasEnough, RestoresBatches,
}

module _ (rs : ReedSolomon) (u : Upload) (fit : IsFit u) (dir : Bytes) (enabled : Bool) where
  open u use {md5, recovery, contents, path_hash, path, name}

  dispatch-Took :
      (b : ℕ) (r q : Receiver) (piece : Piece)
      → r.state.failed ≡ false
      → r.state.path_hash ≡ some path_hash
      → r.state.file_path ≡ some path
      → advance_if_later md5 rs r b ≡ q
      → Session u b q
      → IsPiece u b piece
      → Took u fit b piece q (dispatch md5 rs dir enabled r (packet_of u b piece))
  unfolding dispatch
  dispatch-Took b r q (chunk i) going hashed active advanced v h =
      let on = ap is_active active in
      rw on (handle_data-Took rs u fit b r q going hashed advanced v i h)
  dispatch-Took b r q (shard j) going hashed active advanced v h =
      let on = ap is_active active in
      rw on (handle_parity-Took rs u fit b r q going hashed advanced v j h)

  -- Packets that arrive one after another, with no lock found poisoned.
  unfoldable pub dispatch_all : Receiver → List Packet → Receiver
  dispatch_all r [] = r
  dispatch_all r (packet ∷ packets) = dispatch_all (dispatch md5 rs dir enabled r packet) packets

  abbrev pub packets_of : ℕ → List Piece → List Packet
  packets_of b [] = []
  packets_of b (piece ∷ pieces) = packet_of u b piece ∷ packets_of b pieces

  -- Pieces of the current batch.
  dispatch_all-gather :
      (b : ℕ) (pieces : List Piece) (r : Receiver)
      → Session u b r
      → All (IsPiece u b) pieces
      → let r' = dispatch_all r (packets_of b pieces) in
        Session u b r' × (buffers r' ≡ gather u b pieces (buffers r))
  unfolding dispatch_all
  dispatch_all-gather b [] r v h = (v, refl)
  dispatch_all-gather b (piece ∷ pieces) r v (h, later) =
      let (w, took) =
        dispatch-Took b r r piece v.going v.hashed v.active (handle_current rs u fit b r v.current)
          v h in
      let (last, filled) =
        dispatch_all-gather b pieces (dispatch md5 rs dir enabled r (packet_of u b piece)) w
          later in
      (last, filled ∙ ap (gather u b pieces) took)

  -- The first piece of the next batch, and the rest of that batch.
  dispatch_all-next :
      (b : ℕ) (piece : Piece) (pieces : List Piece) (r : Receiver)
      → Session u b r
      → HasEnough rs u fit b r
      → RestoresBatches rs u fit
      → (b + 1) * batch_data_chunks ≤ chunk_count u
      → All (IsPiece u (b + 1)) (piece ∷ pieces)
      → let r' = dispatch_all r (packets_of (b + 1) (piece ∷ pieces)) in
        Session u (b + 1) r' × (buffers r' ≡ gather u (b + 1) (piece ∷ pieces) ([], []))
  unfolding dispatch_all
  dispatch_all-next b piece pieces r v enough law early (h, later) =
      let (began, empty) = handle_next rs u fit b r v enough law early in
      let (w, took) =
        dispatch-Took (b + 1) r (advance_if_later md5 rs r (b + 1)) piece v.going v.hashed v.active
          refl began h in
      let (last, filled) =
        dispatch_all-gather (b + 1) pieces
          (dispatch md5 rs dir enabled r (packet_of u (b + 1) piece)) w later in
      (last, filled ∙ ap (gather u (b + 1) pieces) (took ∙ ap (collect u (b + 1) piece) empty))

  abbrev pub batch_packets : ℕ → List (List Piece) → List Packet
  batch_packets b [] = []
  batch_packets b (pieces ∷ batches) = packets_of b pieces ++ batch_packets (b + 1) batches

  -- Of each batch from `b` to the one with chunk `goal - 1`, pieces arrive, and as many different ones
  -- as it has chunks.
  abbrev pub AreComplete : ℕ → ℕ → List (List Piece) → Type 0
  AreComplete goal b [] = goal ≤ b * batch_data_chunks
  AreComplete goal b (pieces ∷ batches) =
      (b * batch_data_chunks < chunk_count u)
      × All (IsPiece u b) pieces
      × (batch_data_size b (length contents)
          ≤ length (gather u b pieces ([], [])).0 + length (gather u b pieces ([], [])).1)
      × AreComplete goal (b + 1) batches

  -- The current batch has chunk `goal - 1` or is behind it, and enough of it arrived.
  pub record IsLast (goal : ℕ) (r : Receiver) : Type 0 where
    pub batch : ℕ
    pub session : Session u batch r
    pub enough : HasEnough rs u fit batch r
    pub last : goal ≤ (batch + 1) * batch_data_chunks

  pub dispatch_all-append :
      (packets more : List Packet) (r : Receiver)
      → dispatch_all r (packets ++ more) ≡ dispatch_all (dispatch_all r packets) more
  unfolding dispatch_all
  dispatch_all-append [] more r = refl
  dispatch_all-append (packet ∷ packets) more r =
      dispatch_all-append packets more (dispatch md5 rs dir enabled r packet)

  gathered-HasEnough :
      (b : ℕ) (pieces : List Piece) (r : Receiver)
      → buffers r ≡ gather u b pieces ([], [])
      → (batch_data_size b (length contents)
          ≤ length (gather u b pieces ([], [])).0 + length (gather u b pieces ([], [])).1)
      → HasEnough rs u fit b r
  gathered-HasEnough b pieces r e h =
      subst (λ (m : Buffers). batch_data_size b (length contents) ≤ length m.0 + length m.1) (sym e)
        h

  dispatch_batches-IsLast :
      (goal : ℕ) (batches : List (List Piece)) (b : ℕ) (r : Receiver)
      → Session u b r
      → HasEnough rs u fit b r
      → RestoresBatches rs u fit
      → AreComplete goal (b + 1) batches
      → IsLast goal (dispatch_all r (batch_packets (b + 1) batches))
  dispatch_batches-IsLast goal [] b r v enough law h =
      unfold dispatch_all in record { batch = b; session = v; enough = enough; last = h }
  dispatch_batches-IsLast goal ([] ∷ batches) b r v enough law (early, pieces, several, h) =
      absurd
        (omega (arith, (batch_start_early (b + 1) (length contents) fit.small (omega arith)).1))
  dispatch_batches-IsLast goal ((piece ∷ pieces) ∷ batches) b r v enough law
        (early, all, several, h) =
      let (w, filled) = dispatch_all-next b piece pieces r v enough law (omega arith) all in
      let q = dispatch_all r (packets_of (b + 1) (piece ∷ pieces)) in
      subst (IsLast goal)
        (sym (
          dispatch_all-append (packets_of (b + 1) (piece ∷ pieces))
            (batch_packets (b + 1 + 1) batches) r))
        (dispatch_batches-IsLast goal batches (b + 1) q w
          (gathered-HasEnough (b + 1) (piece ∷ pieces) q filled several) law h)

  -- All the packets of the chunks and shards, from the START on.
  pub dispatch_all-IsLast :
      (goal : ℕ) (batches : List (List Piece)) (r : Receiver)
      → Session u 0 r
      → buffers r ≡ ([], [])
      → RestoresBatches rs u fit
      → min 1 (chunk_count u) ≤ goal
      → AreComplete goal 0 batches
      → IsLast goal (dispatch_all r (batch_packets 0 batches))
  dispatch_all-IsLast goal [] r v empty law several h =
      unfold dispatch_all in
      record {
        batch = 0;
        session = v;
        enough = omega (arith, (batch_start_early 0 (length contents) fit.small v.early).1);
        last = omega arith;
      }
  dispatch_all-IsLast goal (pieces ∷ batches) r v empty law least (early, all, several, h) =
      let (w, filled) = dispatch_all-gather 0 pieces r v all in
      let q = dispatch_all r (packets_of 0 pieces) in
      subst (IsLast goal)
        (sym (dispatch_all-append (packets_of 0 pieces) (batch_packets 1 batches) r))
        (dispatch_batches-IsLast goal batches 0 q w
          (gathered-HasEnough 0 pieces q (filled ∙ ap (gather u 0 pieces) empty) several) law h)
