-- ===== src/Logging/Dual.antt =====
-- `DualLogger` of diode_common/src/logging.rs, which writes each line to stderr and to syslog.
use data_diode.Prelude.{
  ℕ, Bool, true, false, not, List, [], ◌∷◌, ◌++◌, ◌⊎◌, Option, none, some, ◌≡◌, Bytes,
  if◌then◌else◌,
}
use data_diode.Logging.{fmt_now}

-- `log::Level`, the most important first.
pub data Level : Type 0 where
  error warn info debug trace : Level

pub data Severity : Type 0 where
  severity_err severity_warning severity_info : Severity

pub record Message : Type 0 where
  pub level : Level
  pub args : Bytes

-- What was written to stderr, and to syslog if that could be opened.
pub record DualLogger : Type 0 where
  pub stderr : List Bytes
  pub syslog : Option (List (Severity × Bytes))

unfoldable pub enabled : Level → Bool
enabled error = true
enabled warn = true
enabled info = true
enabled debug = false
enabled trace = false

unfoldable pub level_text : Level → Bytes
level_text error = b'E' ∷ b'R' ∷ b'R' ∷ b'O' ∷ b'R' ∷ []
level_text warn = b'W' ∷ b'A' ∷ b'R' ∷ b'N' ∷ []
level_text info = b'I' ∷ b'N' ∷ b'F' ∷ b'O' ∷ []
level_text debug = b'D' ∷ b'E' ∷ b'B' ∷ b'U' ∷ b'G' ∷ []
level_text trace = b'T' ∷ b'R' ∷ b'A' ∷ b'C' ∷ b'E' ∷ []

unfoldable pub severity : Level → Severity
severity error = severity_err
severity warn = severity_warning
severity info = severity_info
severity debug = severity_info
severity trace = severity_info

unfoldable pub line : ℕ → Message → Bytes
line now m = fmt_now now ++ (b' ' ∷ (level_text m.level ++ (b':' ∷ b' ' ∷ m.args)))

-- An entry goes to syslog unless its lock is poisoned; the result of the call is ignored.
unfoldable pub send_syslog :
    Bool → Message → Option (List (Severity × Bytes)) → Option (List (Severity × Bytes))
send_syslog poisoned m none = none
send_syslog poisoned m (some entries) =
    if poisoned then some entries else some (entries ++ (severity m.level, m.args) ∷ [])

unfoldable pub log : ℕ → Bool → Message → DualLogger → DualLogger
log now poisoned m logger = if not (enabled m.level) then logger else record {
  stderr = logger.stderr ++ line now m ∷ [];
  syslog = send_syslog poisoned m logger.syslog;
}

-- A row of messages, each with the time of the call and whether the lock of syslog is poisoned then.
unfoldable pub log_all : List (ℕ × Bool × Message) → DualLogger → DualLogger
log_all [] logger = logger
log_all ((now, poisoned, m) ∷ messages) logger = log_all messages (log now poisoned m logger)

-- The levels that are reported, as what text and with which severity.
pub data Reports : Level → Bytes → Severity → Type 0 where
  as_error : Reports error (b'E' ∷ b'R' ∷ b'R' ∷ b'O' ∷ b'R' ∷ []) severity_err
  as_warning : Reports warn (b'W' ∷ b'A' ∷ b'R' ∷ b'N' ∷ []) severity_warning
  as_info : Reports info (b'I' ∷ b'N' ∷ b'F' ∷ b'O' ∷ []) severity_info

-- What one call writes to stderr and to syslog.
pub data Written : ℕ × Bool × Message → List Bytes → List (Severity × Bytes) → Type 0 where
  too_low :
      {now : ℕ} {poisoned : Bool} {m : Message}
      → (m.level ≡ debug) ⊎ (m.level ≡ trace)
      → Written (now, poisoned, m) [] []
  to_both :
      {now : ℕ} {m : Message} {text : Bytes} {s : Severity}
      → Reports m.level text s
      → Written
          (now, false, m)
          ((fmt_now now ++ (b' ' ∷ (text ++ (b':' ∷ b' ' ∷ m.args)))) ∷ [])
          ((s, m.args) ∷ [])
  to_stderr :
      {now : ℕ} {m : Message} {text : Bytes} {s : Severity}
      → Reports m.level text s
      → Written (now, true, m) ((fmt_now now ++ (b' ' ∷ (text ++ (b':' ∷ b' ' ∷ m.args)))) ∷ []) []

-- What a row of calls writes.
pub data Logs : List (ℕ × Bool × Message) → List Bytes → List (Severity × Bytes) → Type 0 where
  no_calls : Logs [] [] []
  then_call :
      {call : ℕ × Bool × Message} {calls : List (ℕ × Bool × Message)} {lines lines' : List Bytes}
      {entries entries' : List (Severity × Bytes)}
      → Written call lines entries
      → Logs calls lines' entries'
      → Logs (call ∷ calls) (lines ++ lines') (entries ++ entries')

-- The entries go to syslog if that could be opened.
abbrev pub add_entries :
    List (Severity × Bytes) → Option (List (Severity × Bytes)) → Option (List (Severity × Bytes))
add_entries entries none = none
add_entries entries (some old) = some (old ++ entries)

abbrev pub add_lines : List Bytes → List (Severity × Bytes) → DualLogger → DualLogger
add_lines lines entries logger = record {
  stderr = logger.stderr ++ lines;
  syslog = add_entries entries logger.syslog;
}

-- Some lines and entries that fit the call, and what the logger is after it.
abbrev IsWritten : ℕ × Bool × Message → DualLogger → DualLogger → Type 0
IsWritten call logger logger' =
    (lines : List Bytes) × (entries : List (Severity × Bytes)) × Written call lines entries
    × (logger' ≡ add_lines lines entries logger)
