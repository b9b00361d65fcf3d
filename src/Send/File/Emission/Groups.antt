-- ===== src/Send/File/Emission/Groups.antt =====
-- The packets that the loop emits, batch by batch.
use data_diode.Prelude.{
  ℕ, zero, suc, ◌+◌, ◌*◌, ◌≤◌, ◌<◌, false, List, [], ◌∷◌, ◌++◌, append_assoc, append-nil, inl, inr,
  ◌≡◌, refl, sym, ap, ◌∙◌, arith, Bytes, length, length-append, take, drop, length-take,
  length-drop, take_all, drop_all, take-append-drop, ◌==◌, leb, leb→le, leb→gt, ==_of_positive,
  ==_of_lt, Bool-cases,
}
use data_diode.Proto.{batch_data_chunks}
use data_diode.Send.Parity.{ReedSolomonEncoder}
use data_diode.Send.File.Packets.{
  groups_within, data_packet, data_packets, parity_of_batch, batches_from,
}
use data_diode.Send.File.Emission.{emit}

module _ (md5 : Bytes → Bytes) (enc : ReedSolomonEncoder) (rel_path_hash : Bytes) where
  abbrev parity : ℕ → List Bytes → List Bytes
  parity = parity_of_batch md5 rel_path_hash enc

  emit_full :
      (g : List Bytes) (count batch_idx : ℕ) (payloads cs : List Bytes)
      → 0 < length g
      → length payloads + length g ≡ batch_data_chunks
      → emit md5 enc rel_path_hash count batch_idx payloads (g ++ cs)
        ≡ data_packets md5 rel_path_hash count g
          ++ (parity batch_idx (payloads ++ g)
              ++ emit md5 enc rel_path_hash (count + length g) (batch_idx + 1) [] cs)
  unfolding emit
  emit_full [] count batch_idx payloads cs some_chunk whole = absurd (omega arith)
  emit_full (c ∷ []) count batch_idx payloads cs some_chunk whole =
      let full : length (payloads ++ c ∷ []) ≡ batch_data_chunks =
        omega (arith, length-append payloads (c ∷ [])) in
      rw full refl
  emit_full (c ∷ d ∷ g) count batch_idx payloads cs some_chunk whole =
      let more : (length (payloads ++ c ∷ []) == batch_data_chunks) ≡ false =
        ==_of_lt (length (payloads ++ c ∷ [])) batch_data_chunks
          (omega (arith, length-append payloads (c ∷ []))) in
      let later : count + 1 + length (d ∷ g) ≡ count + length (c ∷ d ∷ g) = omega arith in
      rw more (
        ap (◌∷◌ (data_packet md5 rel_path_hash count c)) (
          emit_full (d ∷ g) (count + 1) batch_idx (payloads ++ c ∷ []) cs (omega arith)
            (omega (arith, length-append payloads (c ∷ [])))
          ∙ rw (append_assoc payloads (c ∷ []) (d ∷ g), later) refl))

  emit_last :
      (g : List Bytes) (count batch_idx : ℕ) (payloads : List Bytes)
      → 0 < length payloads + length g
      → length payloads + length g < batch_data_chunks
      → emit md5 enc rel_path_hash count batch_idx payloads g
        ≡ data_packets md5 rel_path_hash count g ++ parity batch_idx (payloads ++ g)
  unfolding emit
  emit_last [] count batch_idx payloads some_chunk few =
      let on : (length payloads == 0) ≡ false = ==_of_positive (length payloads) (omega arith) in
      rw (on, append-nil payloads) refl
  emit_last (c ∷ g) count batch_idx payloads some_chunk few =
      let more : (length (payloads ++ c ∷ []) == batch_data_chunks) ≡ false =
        ==_of_lt (length (payloads ++ c ∷ [])) batch_data_chunks
          (omega (arith, length-append payloads (c ∷ []))) in
      rw more (
        ap (◌∷◌ (data_packet md5 rel_path_hash count c)) (
          emit_last g (count + 1) batch_idx (payloads ++ c ∷ [])
            (omega (arith, length-append payloads (c ∷ [])))
            (omega (arith, length-append payloads (c ∷ [])))
          ∙ rw (append_assoc payloads (c ∷ []) g) refl))

  groups_nil : (rounds : ℕ) → groups_within rounds [] ≡ []
  groups_nil zero = refl
  groups_nil (suc rounds) = refl

  emit_nil : (count batch_idx : ℕ) → emit md5 enc rel_path_hash count batch_idx [] [] ≡ []
  unfolding emit
  emit_nil count batch_idx = refl

  -- The loop sends each batch and its parity.
  pub emit-batches_from :
      (rounds batch_idx : ℕ) (cs : List Bytes)
      → length cs ≤ rounds
      → emit md5 enc rel_path_hash (batch_idx * batch_data_chunks) batch_idx [] cs
        ≡ batches_from md5 rel_path_hash enc batch_idx (groups_within rounds cs)
  emit-batches_from rounds batch_idx [] enough =
      emit_nil (batch_idx * batch_data_chunks) batch_idx
      ∙ ap (batches_from md5 rel_path_hash enc batch_idx) (sym (groups_nil rounds))
  emit-batches_from zero batch_idx (c ∷ cs) enough = absurd (omega arith)
  emit-batches_from (suc rounds) batch_idx (c ∷ cs) enough =
      let g = take batch_data_chunks (c ∷ cs) in
      let rest = drop batch_data_chunks (c ∷ cs) in
      let count = batch_idx * batch_data_chunks in
      elim (Bool-cases (leb batch_data_chunks (length (c ∷ cs)))) [
        | inl t ↦
            let many : batch_data_chunks ≤ length (c ∷ cs) =
              leb→le batch_data_chunks (length (c ∷ cs)) t in
            let size : length g ≡ batch_data_chunks =
              omega (arith, length-take batch_data_chunks (c ∷ cs)) in
            let next : count + length g ≡ (batch_idx + 1) * batch_data_chunks = omega arith in
            ap (emit md5 enc rel_path_hash count batch_idx [])
              (sym (take-append-drop batch_data_chunks (c ∷ cs)))
            ∙ emit_full g count batch_idx [] rest (omega arith) (omega (arith, size))
            ∙ ap (λ e. data_packets md5 rel_path_hash count g ++ (parity batch_idx g ++ e))
                (ap (λ n. emit md5 enc rel_path_hash n (batch_idx + 1) [] rest) next
                  ∙ emit-batches_from rounds (batch_idx + 1) rest
                      (omega (arith, length-drop batch_data_chunks (c ∷ cs))))
        | inr t ↦
            let few : length (c ∷ cs) < batch_data_chunks =
              leb→gt batch_data_chunks (length (c ∷ cs)) t in
            let whole : g ≡ c ∷ cs = take_all (c ∷ cs) batch_data_chunks (omega arith) in
            let empty : rest ≡ [] = drop_all (c ∷ cs) batch_data_chunks (omega arith) in
            emit_last (c ∷ cs) count batch_idx [] (omega arith) (omega (arith, few))
            ∙ ap (λ e. data_packets md5 rel_path_hash count (c ∷ cs) ++ e)
                (sym (append-nil (parity batch_idx (c ∷ cs))))
            ∙ ap (λ h. data_packets md5 rel_path_hash count h ++ (parity batch_idx h ++ []))
                (sym whole)
            ∙ ap
                (λ gs.
                  data_packets md5 rel_path_hash count g
                  ++ (parity batch_idx g ++ batches_from md5 rel_path_hash enc (batch_idx + 1) gs))
                (sym (groups_nil rounds) ∙ ap (groups_within rounds) (sym empty))
      ]
