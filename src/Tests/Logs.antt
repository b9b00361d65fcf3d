-- ===== src/Tests/Logs.antt =====
-- Four messages: one is not important, and one finds the lock of syslog poisoned.
use data_diode.Prelude.{ℕ, Bool, true, false, List, [], ◌∷◌, some, ◌≡◌, refl}
use data_diode.Logging.Dual.{
  error, warn, info, debug, Message, severity_err, severity_info, DualLogger, enabled, severity,
  send_syslog, log, log_all,
}
use data_diode.Tests.Samples.{codes}

abbrev calls : List (ℕ × Bool × Message)
calls =
    (5, false, record { level = info; args = codes "begun" })
    ∷ (6, false, record { level = debug; args = codes "detail" })
    ∷ (7, false, record { level = error; args = codes "lost" })
    ∷ (8, true, record { level = warn; args = codes "late" })
    ∷ []

abbrev logger : DualLogger
logger = record { stderr = []; syslog = some [] }

two_entries :
    (log_all calls logger).syslog
    ≡ some ((severity_info, codes "begun") ∷ (severity_err, codes "lost") ∷ [])
unfolding log_all log enabled severity send_syslog
two_entries = refl
