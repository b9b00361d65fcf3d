-- ===== src/Tests/Support.antt =====
-- The logger's texts and the digests.
use data_diode.Prelude.{
  true, List, [], ◌∷◌, ◌++◌, append_assoc, append-nil, ◌≢◌, ◌↔◌, none, some, ◌≡◌, refl, sym, Bytes,
}
use data_diode.Proto.{hex}
use data_diode.Decimal.{zero_padded}
use data_diode.Logging.{year_of_era, month_and_day, civil_of, fmt_now}
use data_diode.Logging.Calendar.{IsDate, civil_of-IsDate}
use data_diode.Receive.LogSafe.{is_kept, log_safe}
use data_diode.Send.Reader.{Reader, at_most}
use data_diode.Digest.{Hasher, Argument, sha256_file, hash_file, diode_sha256}
use data_diode.Digest.Streaming.{IsStreaming, sha256_file-hash_file}
use data_diode.Digest.Sums.{lines_of, AllLines, diode_sha256-lines_of}
use data_diode.Tests.Samples.{codes}

-- The last day of February of the year 2000.
leap_day_text : fmt_now 951_868_799_007 ≡ codes "2000-02-29 23:59:59,007"
unfolding fmt_now civil_of year_of_era month_and_day zero_padded
leap_day_text = refl

civil_of-IsDate_example : IsDate 11_016 (civil_of 11_016)
civil_of-IsDate_example = civil_of-IsDate 11_016

-- A line break that a remote text has is left out.
forged_line : log_safe (codes "a b\nc") ≡ codes "a bc"
unfolding log_safe is_kept
forged_line = refl

-- Stands for SHA-256: the digest of a text is the text.
abbrev collector : Hasher
collector = record { State = Bytes; new = []; update = λ s t. t ++ s; finalize = λ t. t }

collector-IsStreaming : IsStreaming collector
collector-IsStreaming = record {
  update_nil = λ t. append-nil t;
  update_append = λ s u t. sym (append_assoc t s u);
}

abbrev portions : Reader
portions = record { rest = codes "hello"; steps = at_most 1 ∷ at_most 0 ∷ [] }

sha256_file-hash_file_example :
    (sha256_file collector (some portions) ≡ some (hex (codes "hello")))
    × (hash_file collector (some portions) ≡ some (hex (codes "hello")))
sha256_file-hash_file_example = sha256_file-hash_file collector collector-IsStreaming portions tt

abbrev arguments : List Argument
arguments =
    record { name = codes "gone"; opened = none; printable = true }
    ∷ record {
      name = codes "here";
      opened = some (record { rest = codes "hello"; steps = [] });
      printable = true;
    }
    ∷ []

diode_sha256-lines_of_example :
    ((diode_sha256 collector arguments).0 ≡ lines_of collector arguments)
    × (((diode_sha256 collector arguments).1 ≡ true)
        ↔ ((arguments ≢ []) × AllLines collector arguments))
diode_sha256-lines_of_example = diode_sha256-lines_of collector arguments
