-- ===== src/Log/Queue/Steps.antt =====
-- packages/wmfs-plugin/wmfs_plugin/logging.py: the calls of `log` by any threads, and the sender, in
-- any order.
use wmfs.Common.{ℕ, ◌+◌, Option, some, none, List, [], ◌∷◌, ◌++◌, ◌≡◌}
use wmfs.Log.{LogRecord}
use wmfs.Log.Queue.{
  AsyncLogger, new_logger, log, take_next, Outcome, all_sent, report_raises, record_raises, sent,
  close,
}

-- The logger, the record that the sender is sending with the drops that it reports, what has been
-- delivered, and the number of drops that have been reported.
pub record World : Type 0 where
  pub logger : AsyncLogger
  pub sending : Option (LogRecord × ℕ)
  pub delivered : List LogRecord
  pub reported : ℕ

abbrev pub start : ℕ → ℕ → World
start level capacity = record {
  logger = new_logger level capacity;
  sending = none;
  delivered = [];
  reported = 0;
}

abbrev pub in_flight : Option (LogRecord × ℕ) → List LogRecord
in_flight none = []
in_flight (some (r, dropped)) = r ∷ []

abbrev pub carried : Option (LogRecord × ℕ) → ℕ
carried none = 0
carried (some (r, dropped)) = dropped

abbrev pub delivered_after : Outcome → LogRecord → List LogRecord → List LogRecord
delivered_after all_sent r delivered = delivered ++ r ∷ []
delivered_after report_raises r delivered = delivered
delivered_after record_raises r delivered = delivered

abbrev pub reported_after : Outcome → ℕ → ℕ
reported_after all_sent dropped = dropped
reported_after report_raises dropped = 0
reported_after record_raises dropped = dropped

-- The world when the two deliveries have come to an end.
abbrev pub send : Outcome → LogRecord → ℕ → World → World
send outcome r dropped w = record {
  logger = sent outcome dropped w.logger;
  sending = none;
  delivered = delivered_after outcome r w.delivered;
  reported = w.reported + reported_after outcome dropped;
}

pub data Step : World → World → Type 0 where
  logs : (w : World) (r : LogRecord) → Step w (record w { logger = log r w.logger })
  takes :
      (w : World) (r : LogRecord) (dropped : ℕ) (next : AsyncLogger)
      → w.sending ≡ none
      → take_next w.logger ≡ some ((r, dropped), next)
      → Step w (record w { logger = next; sending = some (r, dropped) })
  sends :
      (w : World) (r : LogRecord) (dropped : ℕ) (outcome : Outcome)
      → w.sending ≡ some (r, dropped)
      → Step w (send outcome r dropped w)
  closes : (w : World) → Step w (record w { logger = close w.logger })

pub data Reach (level capacity : ℕ) : World → Type 0 where
  begins : Reach level capacity (start level capacity)
  goes_on : {v w : World} → Reach level capacity v → Step v w → Reach level capacity w
