-- ===== src/Log/Queue/Tests.antt =====
-- packages/wmfs-plugin/wmfs_plugin/logging.py: a queue for one record.
use wmfs.Common.{ℕ, ◌+◌, ◌≤◌, some, [], ◌++◌, ◌≡◌, refl, arith, length}
use wmfs.Log.{LogRecord}
use wmfs.Log.Queue.{
  log, enqueue, lowest, lowest_from, replace_lowest, drop_at, take_next, sent, record_raises,
}
use wmfs.Log.Queue.Lowest.{Between}
use wmfs.Log.Queue.Steps.{World, start, send, logs, takes, sends, Reach, begins, goes_on, carried}
use wmfs.Log.Queue.Accounting.{front, Reach-accounted}

abbrev line : ℕ → LogRecord
line level = record {
  level = level;
  message = [];
  category = [];
  fields = [];
  sequence = 0;
  time_ns = 0;
  context = record { session = 0; submission = 0; invocation = 0; operation = 0 };
  flags = 0;
  dropped_before = 0;
}

abbrev logged : World → ℕ → World
logged w level = record w { logger = log (line level) w.logger }

-- Two records for one place: the first, of the lower level, is dropped.
abbrev twice : World
twice = logged (logged (start 10 1) 20) 40

abbrev taken : World
taken = record twice {
  logger = record twice.logger { queue = []; dropped = 0 };
  sending = some (record (line 40) { sequence = 2 }, 1);
}

twice_takes :
    take_next twice.logger
    ≡ some ((record (line 40) { sequence = 2 }, 1), record twice.logger { queue = []; dropped = 0 })
unfolding take_next log enqueue lowest lowest_from replace_lowest drop_at
twice_takes = refl

abbrev after_failure : World
after_failure = send record_raises (record (line 40) { sequence = 2 }) 1 taken

failed : Reach 10 1 after_failure
failed =
    goes_on
      (goes_on (goes_on (goes_on begins (logs _ (line 20))) (logs _ (line 40)))
        (takes twice _ 1 _ refl twice_takes))
      (sends taken (record (line 40) { sequence = 2 }) 1 record_raises refl)

Reach-accounted_example :
    (length after_failure.logger.queue ≤ after_failure.logger.capacity)
    × (after_failure.logger.sequence
        ≤ length (front after_failure)
          + (after_failure.reported + carried after_failure.sending)
          + length after_failure.logger.queue
          + after_failure.logger.dropped)
    × Between 0 after_failure.logger.sequence (front after_failure ++ after_failure.logger.queue)
Reach-accounted_example = Reach-accounted (omega arith) failed

-- Two records are lost, one of them has been reported, and two more are to be reported.
counted_again :
    (after_failure.logger.sequence ≡ 2)
    × (after_failure.reported ≡ 1)
    × (after_failure.logger.dropped ≡ 2)
unfolding log enqueue lowest lowest_from replace_lowest drop_at sent
counted_again = (refl, refl, refl)
