-- ===== src/Receive/LogSafe.antt =====
-- `log_safe` of diode_receive/src/main.rs, the filter for remote texts in log lines. The
-- bytes of a character outside ASCII are 128 and more, so that the filter on characters is one on
-- bytes.
use data_diode.Prelude.{ℕ, Bool, ◌&&◌, ◌||◌, [], ◌∷◌, Bytes, if◌then◌else◌, ◌==◌, leb}

-- `is_ascii_graphic`, a space or a tab.
unfoldable pub is_kept : ℕ → Bool
is_kept c = (leb 0x21 c && leb c 0x7e) || ((c == b' ') || (c == 9))

unfoldable pub log_safe : Bytes → Bytes
log_safe [] = []
log_safe (c ∷ s) = let rest = log_safe s in if is_kept c then c ∷ rest else rest
