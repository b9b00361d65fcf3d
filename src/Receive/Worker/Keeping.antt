-- ===== src/Receive/Worker/Keeping.antt =====
-- A file that was received stays.
use data_diode.Prelude.{Bool, List, ◌≢◌, ◌≡◌, refl, Bytes, OnSome}
use data_diode.SafePath.{join}
use data_diode.SafePath.Inside.{resolve}
use data_diode.FileSystem.{FileName, lookup}
use data_diode.Receive.State.{Receiver}
use data_diode.Receive.Finalize.{ReedSolomon}
use data_diode.Receive.Transfer.{partial_path, failed_path}
use data_diode.Receive.Transfer.Confinement.{Territory}
use data_diode.Receive.Worker.{receive_all}
use data_diode.Receive.Worker.Confinement.{TakesAll, receive_all-Stays}

-- Neither the file of this path nor its partial file or failure marker has the name.
abbrev pub Spares : Bytes → FileName → Bytes → Type 0
Spares dir name path =
    (resolve (join dir path) ≢ name)
    × (resolve (partial_path dir path) ≢ name)
    × (resolve (failed_path dir path) ≢ name)

-- All the files but one.
abbrev pub other_files : (dir : Bytes) → FileName → Territory dir
other_files dir name = record {
  Inside = λ k. k ≢ name;
  Takes = Spares dir name;
  target = λ path h. h.0;
  partial = λ path h. h.1;
  failed = λ path h. h.2;
}

-- Whatever datagrams arrive, whichever calls of the file system are refused and whenever the state
-- lock is found poisoned, the receiver leaves a file as it is so long as no transfer is for it: the
-- transfer under way writes to another file, and neither its path nor a path that is announced
-- later and accepted has the file as its target, its partial file or its failure marker.
pub receive_all-keeps_file :
    (md5 : Bytes → Bytes) (rs : ReedSolomon) (dir : Bytes) (enabled : Bool) (r : Receiver)
    (raws : List (Bool × Bytes)) (name : FileName)
    → OnSome (Spares dir name) r.state.file_path
    → OnSome (λ f. f.name ≢ name) r.state.output
    → TakesAll dir (other_files dir name) md5 rs enabled raws
    → lookup name (receive_all md5 rs dir enabled r raws).fs.files ≡ lookup name r.fs.files
receive_all-keeps_file md5 rs dir enabled r raws name path output takes =
    (receive_all-Stays dir (other_files dir name) md5 rs enabled raws r takes
        (record { path = path; output = output })).same
      name (λ out. out refl)
