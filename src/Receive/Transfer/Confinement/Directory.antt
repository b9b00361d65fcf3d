-- ===== src/Receive/Transfer/Confinement/Directory.antt =====
-- The paths that the receiver accepts lead to files below the output directory.
use data_diode.Prelude.{true, [], ◌++◌, ◌≢◌, ◌≡◌, ap, arith, Bytes}
use data_diode.SafePath.{is_safe_rel_path, join}
use data_diode.SafePath.Inside.{
  resolve, IsInside, Descends, is_safe_rel_path-Descends, append-Descends, join-IsInside,
}
use data_diode.Receive.Transfer.{partial_suffix, failed_suffix, partial_path, failed_path}
use data_diode.Receive.Transfer.Confinement.{Territory}

-- A path that the receiver may work on.
abbrev pub Admitted : Bytes → Type 0
Admitted path = Descends path × (path ≢ [])

-- All that lies below the output directory, and the paths that the receiver may work on.
module _ (dir : Bytes) (path : Bytes) (a : Admitted path) where
  pub target-IsInside : IsInside dir (resolve (join dir path))
  target-IsInside = join-IsInside dir path a.0

  pub partial-IsInside : IsInside dir (resolve (partial_path dir path))
  unfolding partial_path
  partial-IsInside =
      join-IsInside dir (path ++ partial_suffix)
        (append-Descends path partial_suffix a.0 a.1 (omega arith) (omega arith))

  pub failed-IsInside : IsInside dir (resolve (failed_path dir path))
  unfolding failed_path
  failed-IsInside =
      join-IsInside dir (path ++ failed_suffix)
        (append-Descends path failed_suffix a.0 a.1 (omega arith) (omega arith))

abbrev pub output_territory : (dir : Bytes) → Territory dir
output_territory dir = record {
  Inside = IsInside dir;
  Takes = Admitted;
  target = target-IsInside dir;
  partial = partial-IsInside dir;
  failed = failed-IsInside dir;
}

pub safe-Admitted : (path : Bytes) → is_safe_rel_path path ≡ true → Admitted path
safe-Admitted path h =
    (is_safe_rel_path-Descends path h, λ e. unfold is_safe_rel_path in cc (ap is_safe_rel_path e))
