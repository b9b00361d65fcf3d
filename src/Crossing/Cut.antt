-- ===== src/Crossing/Cut.antt =====
-- The chunks and batches of a file by their numbers.
use data_diode.Prelude.{
  ℕ, zero, suc, ◌+◌, ◌-◌, ◌*◌, ◌≤◌, ◌<◌, min, List, [], ◌∷◌, ◌≡◌, refl, sym, ap, ◌∙◌, arith, Bytes,
  length, take, drop, length-drop, drop-drop, All,
}
use data_diode.Proto.{chunk_size}
use data_diode.Receive.Chunk.{total_chunks}
use data_diode.Receive.Finalize.Contents.{nth_chunk}
use data_diode.Send.{chunks_within, chunks}

-- The values from `start` on, so many.
abbrev pub tabulate {ℓ} : {A : Type ℓ} → ℕ → ℕ → (ℕ → A) → List A
tabulate start zero f = []
tabulate start (suc n) f = f start ∷ tabulate (start + 1) n f

module _ {ℓ} {A : Type ℓ} (f : ℕ → A) where
  pub length-tabulate : (start n : ℕ) → length (tabulate start n f) ≡ n
  length-tabulate start zero = refl
  length-tabulate start (suc n) = ap suc (length-tabulate (start + 1) n)

  -- The numbers are compared by `omega`.
  pub tabulate_at :
      (start start' n n' : ℕ) → start ≡ start' → n ≡ n' → tabulate start n f ≡ tabulate start' n' f
  tabulate_at start start' n n' a b = ap (λ s. tabulate s n f) a ∙ ap (λ m. tabulate start' m f) b

  pub take-tabulate : (k start n : ℕ) → take k (tabulate start n f) ≡ tabulate start (min k n) f
  take-tabulate zero start n = tabulate_at start start 0 (min 0 n) refl (omega arith)
  take-tabulate (suc k) start zero = tabulate_at start start 0 (min (suc k) 0) refl (omega arith)
  take-tabulate (suc k) start (suc n) =
      ap (◌∷◌ (f start)) (take-tabulate k (start + 1) n)
      ∙ tabulate_at start start (suc (min k n)) (min (suc k) (suc n)) refl (omega arith)

  pub drop-tabulate : (k start n : ℕ) → drop k (tabulate start n f) ≡ tabulate (start + k) (n - k) f
  drop-tabulate zero start n = tabulate_at start (start + 0) n (n - 0) (omega arith) (omega arith)
  drop-tabulate (suc k) start zero = ap (λ m. tabulate (start + suc k) m f) (nothing_less (suc k))
    where
      nothing_less : (k : ℕ) → 0 ≡ 0 - k
      nothing_less k = omega arith
  drop-tabulate (suc k) start (suc n) =
      drop-tabulate k (start + 1) n
      ∙ tabulate_at (start + 1 + k) (start + suc k) (n - k) (suc n - suc k) (omega arith)
          (omega arith)

-- From chunk `i` on, a file is cut into its chunks; `s` is what is left of it.
chunks_within-tabulate :
    (c : Bytes) (rounds i : ℕ) (s : Bytes)
    → drop (i * chunk_size) c ≡ s
    → length c - i * chunk_size ≤ rounds
    → chunks_within rounds s ≡ tabulate i (total_chunks (length c) - i) (nth_chunk c)
unfolding chunks_within total_chunks
chunks_within-tabulate c zero i s e enough =
    tabulate_at (nth_chunk c) i i 0 (total_chunks (length c) - i) refl (omega arith)
chunks_within-tabulate c (suc rounds) i [] e enough =
    tabulate_at (nth_chunk c) i i 0 (total_chunks (length c) - i) refl
      (omega (arith, ap length e, length-drop (i * chunk_size) c))
chunks_within-tabulate c (suc rounds) i (b ∷ s) e enough =
    let next : drop ((i + 1) * chunk_size) c ≡ drop chunk_size (b ∷ s) =
      ap (λ n. drop n c) (one_more i)
      ∙ drop-drop (i * chunk_size) chunk_size c
      ∙ ap (drop chunk_size) e in
    ap (◌∷◌ (take chunk_size (b ∷ s)))
      (chunks_within-tabulate c rounds (i + 1) (drop chunk_size (b ∷ s)) next (omega arith))
    ∙ ap (λ t. t ∷ tabulate (i + 1) (total_chunks (length c) - (i + 1)) (nth_chunk c))
        (ap (take chunk_size) (sym e))
    ∙ tabulate_at (nth_chunk c) i i (suc (total_chunks (length c) - (i + 1)))
        (total_chunks (length c) - i) refl
        (omega (arith, ap length e, length-drop (i * chunk_size) c))
  where
    one_more : (i : ℕ) → (i + 1) * chunk_size ≡ i * chunk_size + chunk_size
    one_more i = omega arith

pub chunks-tabulate : (c : Bytes) → chunks c ≡ tabulate 0 (total_chunks (length c)) (nth_chunk c)
unfolding chunks
chunks-tabulate c =
    chunks_within-tabulate c (length c) 0 c refl (omega arith)
    ∙ tabulate_at (nth_chunk c) 0 0 (total_chunks (length c) - 0) (total_chunks (length c)) refl
        (omega arith)

pub All-tabulate {ℓ κ} :
    {A : Type ℓ} (P : A → Type κ) (f : ℕ → A) (start n : ℕ)
    → ((k : ℕ) → k < start + n → P (f k))
    → All P (tabulate start n f)
All-tabulate P f start zero h = tt
All-tabulate P f start (suc n) h =
    (h start (omega arith), All-tabulate P f (start + 1) n (λ k lt. h k (omega arith)))
