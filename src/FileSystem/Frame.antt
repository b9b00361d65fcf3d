-- ===== src/FileSystem/Frame.antt =====
-- Which files an operation leaves alone.
use data_diode.Prelude.{
  ℕ, true, false, List, [], ◌∷◌, ◌≢◌, inl, inr, some, ◌≡◌, refl, ap, ◌∙◌, subst, arith, Bytes, take,
  beq_bytes_sound, beq_bytes_refl, Bool-cases,
}
use data_diode.SafePath.{Component, prefix, root_dir, cur_dir, parent_dir, normal}
use data_diode.SafePath.Inside.{resolve}
use data_diode.FileSystem.{
  FileName, Attempt, granted, refused, FileSystem, File, beq_component, beq_name, lookup, put,
  erase, attempt, remove_file, create_dir_all, open_truncate, open_create, contents, resize,
  set_len, seek, write_bytes, write_as, write_all, rename,
}

beq_component_sound : (a b : Component) → beq_component a b ≡ true → a ≡ b
unfolding beq_component
beq_component_sound (prefix a) (prefix b) h = ap prefix (beq_bytes_sound a b h)
beq_component_sound root_dir root_dir h = refl
beq_component_sound cur_dir cur_dir h = refl
beq_component_sound parent_dir parent_dir h = refl
beq_component_sound (normal a) (normal b) h = ap normal (beq_bytes_sound a b h)
beq_component_sound _ _ h = cc

pub beq_component_refl : (a : Component) → beq_component a a ≡ true
unfolding beq_component
beq_component_refl (prefix a) = beq_bytes_refl a
beq_component_refl root_dir = refl
beq_component_refl cur_dir = refl
beq_component_refl parent_dir = refl
beq_component_refl (normal a) = beq_bytes_refl a

pub beq_name_sound : (s t : FileName) → beq_name s t ≡ true → s ≡ t
unfolding beq_name
beq_name_sound [] [] h = refl
beq_name_sound [] (b ∷ t) h = cc
beq_name_sound (a ∷ s) [] h = cc
beq_name_sound (a ∷ s) (b ∷ t) h = ground (arith, beq_component_sound a b, beq_name_sound s t)

pub beq_name_refl : (s : FileName) → beq_name s s ≡ true
unfolding beq_name
beq_name_refl [] = refl
beq_name_refl (a ∷ s) = ground (arith, beq_component_refl a, beq_name_refl s)

beq_name-ne : (s t : FileName) → s ≢ t → beq_name s t ≡ false
beq_name-ne s t h = elim (Bool-cases (beq_name s t)) [
  | inl e ↦ absurd (h (beq_name_sound s t e))
  | inr e ↦ e
]

pub lookup-put_self :
    (k : FileName) (v : Bytes) (m : List (FileName × Bytes)) → lookup k (put k v m) ≡ some v
unfolding lookup put
lookup-put_self k v [] = rw beq_name_refl
lookup-put_self k v ((i, w) ∷ m) = ground (arith, beq_name_refl k, lookup-put_self k v m)

pub lookup-put_ne :
    (k j : FileName) (v : Bytes) (m : List (FileName × Bytes))
    → k ≢ j
    → lookup j (put k v m) ≡ lookup j m
unfolding lookup put
lookup-put_ne k j v [] h = rw (beq_name-ne k j h)
lookup-put_ne k j v ((i, w) ∷ m) h =
    ground (arith, beq_name-ne k j h, beq_name_sound i k, lookup-put_ne k j v m h)

pub lookup-erase_ne :
    (k j : FileName) (m : List (FileName × Bytes)) → k ≢ j → lookup j (erase k m) ≡ lookup j m
unfolding lookup erase
lookup-erase_ne k j [] h = refl
lookup-erase_ne k j ((i, w) ∷ m) h =
    ground (arith, beq_name-ne k j h, beq_name_sound i k, lookup-erase_ne k j m h)

-- Every file whose name is not in `P` is as it was.
abbrev pub SameOutside : (FileName → Type 0) → FileSystem → FileSystem → Type 0
SameOutside P s t = (k : FileName) → ¬ P k → lookup k t.files ≡ lookup k s.files

module _ (P : FileName → Type 0) where
  pub SameOutside-refl : (s : FileSystem) → SameOutside P s s
  SameOutside-refl s k out = refl

  pub SameOutside-trans :
      (s t u : FileSystem) → SameOutside P s t → SameOutside P t u → SameOutside P s u
  SameOutside-trans s t u p q k out = q k out ∙ p k out

  ne_of_outside : (j k : FileName) → P j → ¬ P k → j ≢ k
  ne_of_outside j k i out e = out (subst P e i)

  attempt_files : (s : FileSystem) → (attempt s).1.files ≡ s.files
  unfolding attempt
  attempt_files s = ground arith

  pub remove_file-SameOutside :
      (path : Bytes) (s : FileSystem) → P (resolve path) → SameOutside P s (remove_file path s).1
  unfolding remove_file attempt
  remove_file-SameOutside path s i k out =
      ground (arith, lookup-erase_ne (resolve path) k s.files (ne_of_outside _ k i out))

  pub create_dir_all-SameOutside : (s : FileSystem) → SameOutside P s (create_dir_all s).1
  unfolding create_dir_all attempt
  create_dir_all-SameOutside s k out = ground arith

  pub open_truncate-SameOutside :
      (path : Bytes) (s : FileSystem) → P (resolve path) → SameOutside P s (open_truncate path s).1
  unfolding open_truncate attempt
  open_truncate-SameOutside path s i k out =
      ground (arith, lookup-put_ne (resolve path) k [] s.files (ne_of_outside _ k i out))

  pub open_create-SameOutside :
      (path : Bytes) (s : FileSystem) → P (resolve path) → SameOutside P s (open_create path s).1
  unfolding open_create attempt
  open_create-SameOutside path s i k out =
      ground (arith, lookup-put_ne (resolve path) k [] s.files (ne_of_outside _ k i out))

  pub set_len-SameOutside :
      (f : File) (n : ℕ) (s : FileSystem) → P f.name → SameOutside P s (set_len f n s).1
  unfolding set_len
  set_len-SameOutside f n s i k out =
      let t = (attempt s).1 in
      let v = resize n (contents f.name t.files) in
      ground (arith, attempt_files s, lookup-put_ne f.name k v t.files (ne_of_outside _ k i out))

  pub seek-SameOutside :
      (f : File) (offset : ℕ) (s : FileSystem) → SameOutside P s (seek f offset s).1
  unfolding seek attempt
  seek-SameOutside f offset s k out = ground arith

  write_bytes-SameOutside :
      (f : File) (bytes : Bytes) (s : FileSystem)
      → P f.name
      → SameOutside P s (write_bytes f bytes s)
  unfolding write_bytes
  write_bytes-SameOutside f bytes s i k out =
      lookup-put_ne f.name k _ s.files (ne_of_outside _ k i out)

  write_as-SameOutside :
      (a : Attempt) (f : File) (bytes : Bytes) (s : FileSystem)
      → P f.name
      → SameOutside P s (write_as a f bytes s).2
  unfolding write_as
  write_as-SameOutside granted f bytes s i = write_bytes-SameOutside f bytes s i
  write_as-SameOutside (refused n) f bytes s i = write_bytes-SameOutside f (take n bytes) s i

  pub write_all-SameOutside :
      (f : File) (bytes : Bytes) (s : FileSystem)
      → P f.name
      → SameOutside P s (write_all f bytes s).2
  unfolding write_all
  write_all-SameOutside f bytes s i k out =
      write_as-SameOutside (attempt s).0 f bytes (attempt s).1 i k out
      ∙ ap (lookup k) (attempt_files s)

  pub rename-SameOutside :
      (from to : Bytes) (s : FileSystem)
      → P (resolve from)
      → P (resolve to)
      → SameOutside P s (rename from to s).1
  unfolding rename
  rename-SameOutside from to s i j k out =
      let m = (attempt s).1.files in
      grind (
        arith,
        attempt_files s,
        lookup-erase_ne (resolve from) k m (ne_of_outside _ k i out),
        λ (v : Bytes).
            lookup-put_ne (resolve to) k v (erase (resolve from) m) (ne_of_outside _ k j out),
      )

-- A file that was opened inside the directory is there.
pub open_truncate_name :
    (path : Bytes) (s : FileSystem) {f : File}
    → (open_truncate path s).0 ≡ some f
    → f.name ≡ resolve path
unfolding open_truncate
open_truncate_name path s h = ground arith

pub seek_name :
    (f : File) (offset : ℕ) (s : FileSystem) {g : File}
    → (seek f offset s).0 ≡ some g
    → g.name ≡ f.name
unfolding seek
seek_name f offset s h = ground arith

pub write_all_name :
    (f : File) (bytes : Bytes) (s : FileSystem) → (write_all f bytes s).1.name ≡ f.name
unfolding write_all write_as
write_all_name f bytes s = ground arith
