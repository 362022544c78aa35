-- ===== src/Log/Queue.antt =====
-- packages/wmfs-plugin/wmfs_plugin/logging.py: `AsyncLogger`, with its bounded queue. What holds the
-- condition's lock is one step; a record that is logged comes with its fields, time and context.
pub mod Lowest
pub mod Steps
pub mod Sound
pub mod Accounting
mod Tests
use wmfs.Common.{
  ℕ, zero, suc, ◌+◌, Bool, true, false, not, Option, some, none, List, [], ◌∷◌, ◌++◌, leb, ltb,
  if◌then◌else◌, length,
}
use wmfs.Log.{LogRecord}

pub record AsyncLogger : Type 0 where
  pub level : ℕ
  pub capacity : ℕ
  pub queue : List LogRecord
  pub dropped : ℕ
  pub sequence : ℕ
  pub is_closing : Bool

-- AsyncLogger(level=level, capacity=capacity)
abbrev pub new_logger : ℕ → ℕ → AsyncLogger
new_logger level capacity = record {
  level = level;
  capacity = capacity;
  queue = [];
  dropped = 0;
  sequence = 0;
  is_closing = false;
}

-- The index and the level that are the least so far, where `i` is the next index.
unfoldable pub lowest_from : ℕ → ℕ → ℕ → List LogRecord → ℕ × ℕ
lowest_from best least i [] = (best, least)
lowest_from best least i (r ∷ rs) =
    let lower = lowest_from i r.level (i + 1) rs in
    let same = lowest_from best least (i + 1) rs in if ltb r.level least then lower else same

-- min(range(len(queue)), key=lambda index: queue[index].level), with that level; there is none in an
-- empty queue, for which `min` raises.
unfoldable pub lowest : List LogRecord → Option (ℕ × ℕ)
lowest [] = none
lowest (r ∷ rs) = some (lowest_from 0 r.level 1 rs)

-- del queue[i]
unfoldable pub drop_at {ℓ} : {A : Type ℓ} → ℕ → List A → List A
drop_at i [] = []
drop_at zero (x ∷ xs) = xs
drop_at (suc i) (x ∷ xs) = x ∷ drop_at i xs

-- The queue when a record comes to a full one whose least level is `least`, at the index.
unfoldable pub replace_lowest : ℕ → ℕ → LogRecord → List LogRecord → List LogRecord
replace_lowest index least r queue =
    if leb least r.level then drop_at index queue ++ r ∷ [] else queue

abbrev pub full_queue : Option (ℕ × ℕ) → LogRecord → AsyncLogger → AsyncLogger
full_queue none r s = s
full_queue (some (index, least)) r s = record s {
  queue = replace_lowest index least r s.queue;
  dropped = s.dropped + 1;
}

-- The part of `log` under the lock, for the record with the next sequence number.
unfoldable pub enqueue : LogRecord → AsyncLogger → AsyncLogger
enqueue r s =
    if leb s.capacity (length s.queue)
    then full_queue (lowest s.queue) r s
    else record s { queue = s.queue ++ r ∷ [] }

-- self.enabled(level)
abbrev pub is_enabled : ℕ → AsyncLogger → Bool
is_enabled level s = leb s.level level

abbrev pub numbered : LogRecord → ℕ → LogRecord
numbered r n = record r { sequence = n }

-- `AsyncLogger.log`, where the making of the record, after its number is taken, raises nothing.
unfoldable pub log : LogRecord → AsyncLogger → AsyncLogger
log r s =
    if not (is_enabled r.level s)
    then s
    else enqueue (numbered r (s.sequence + 1)) (record s { sequence = s.sequence + 1 })

-- `_send` up to the release of the lock: the record to send, the drops to report, and the logger
-- after it. There is none while the thread waits, or when it ends.
unfoldable pub take_next : AsyncLogger → Option ((LogRecord × ℕ) × AsyncLogger)
take_next s = next s.queue
  where
    next : List LogRecord → Option ((LogRecord × ℕ) × AsyncLogger)
    next [] = none
    next (r ∷ rs) = some ((r, s.dropped), record s { queue = rs; dropped = 0 })

-- What comes of the two calls of `_deliver`: the report, which is sent only where there are drops,
-- and the record.
pub data Outcome : Type 0 where
  all_sent report_raises record_raises : Outcome

-- self._dropped += dropped + 1, where a delivery raises
unfoldable pub sent : Outcome → ℕ → AsyncLogger → AsyncLogger
sent all_sent dropped s = s
sent report_raises dropped s = record s { dropped = s.dropped + (dropped + 1) }
sent record_raises dropped s = record s { dropped = s.dropped + (dropped + 1) }

-- `close`, for the queue
unfoldable pub close : AsyncLogger → AsyncLogger
close s = record s { is_closing = true }
