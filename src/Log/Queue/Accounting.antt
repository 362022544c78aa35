-- ===== src/Log/Queue/Accounting.antt =====
-- packages/wmfs-plugin/wmfs_plugin/logging.py: no record that has got a number is lost without being
-- counted, in any order of the steps.
use mathlib.Core.Path.{subst}
use wmfs.Common.{
  ℕ, ◌+◌, ◌≤◌, ◌<◌, some, none, List, [], ◌∷◌, ◌++◌, append_assoc, append-nil, ◌≡◌, refl, sym, ap,
  ◌∙◌, arith, length, length-append,
}
use wmfs.Log.{LogRecord}
use wmfs.Log.Queue.{
  AsyncLogger, drop_at, take_next, Outcome, all_sent, report_raises, record_raises, sent, close,
}
use wmfs.Log.Queue.Lowest.{drop_at-append, Between, Between-drop_at}
use wmfs.Log.Queue.Steps.{
  World, in_flight, carried, send, Step, logs, takes, sends, closes, Reach, begins, goes_on,
}
use wmfs.Log.Queue.Sound.{Sound, log-Sound}

-- What the sender has taken off the queue, and the records and drops that are accounted for with it.
abbrev pub front : World → List LogRecord
front w = w.delivered ++ in_flight w.sending

abbrev pub elsewhere : World → ℕ
elsewhere w = length (front w) + (w.reported + carried w.sending)

taken-Sound :
    (w : World) (r : LogRecord) (dropped : ℕ) (next : AsyncLogger)
    → w.sending ≡ none
    → take_next w.logger ≡ some ((r, dropped), next)
    → Sound (front w) (elsewhere w) w.logger
    → Sound (w.delivered ++ r ∷ []) (length (w.delivered ++ r ∷ []) + (w.reported + dropped)) next
unfolding take_next
taken-Sound w r dropped next idle taken sound = from_queue w.logger.queue refl taken
  where
    from_queue :
        (queue : List LogRecord)
        → w.logger.queue ≡ queue
        → take_next (record w.logger { queue = queue }) ≡ some ((r, dropped), next)
        → Sound
            (w.delivered ++ r ∷ [])
            (length (w.delivered ++ r ∷ []) + (w.reported + dropped))
            next
    from_queue [] e h = absurd (cc h)
    from_queue (q ∷ queue) e h =
        let pair : ◌≡◌ {A = (LogRecord × ℕ) × AsyncLogger}
            ((q, w.logger.dropped), record w.logger { queue = queue; dropped = 0 })
            ((r, dropped), next) =
          cc h in
        let shape = λ (p : (LogRecord × ℕ) × AsyncLogger).
          Sound (w.delivered ++ p.0.0 ∷ [])
            (length (w.delivered ++ p.0.0 ∷ []) + (w.reported + p.0.1)) p.1 in
        let (some_room, small, counted, ordered) =
          subst
            (λ qs.
              (0 < w.logger.capacity)
              × (length qs ≤ w.logger.capacity)
              × (w.logger.sequence
                  ≤ length (front w)
                    + (w.reported + carried w.sending)
                    + length qs
                    + w.logger.dropped)
              × Between 0 w.logger.sequence (front w ++ qs))
            e sound in
        let still : front w ≡ w.delivered =
          ap (λ o. w.delivered ++ in_flight o) idle ∙ append-nil w.delivered in
        let nothing : carried w.sending ≡ 0 = ap carried idle in
        let one_more = length-append w.delivered (q ∷ []) in
        let same_length : length (front w) ≡ length w.delivered = ap length still in
        let moved : front w ++ q ∷ queue ≡ (w.delivered ++ q ∷ []) ++ queue =
          ap (λ fs. fs ++ q ∷ queue) still ∙ sym (append_assoc w.delivered (q ∷ []) queue) in
        subst shape pair (
          some_room,
          omega (arith, small),
          omega (arith, counted, nothing, one_more, same_length),
          subst (Between 0 w.logger.sequence) moved ordered,
        )

sent-Sound :
    (w : World) (r : LogRecord) (dropped : ℕ) (outcome : Outcome)
    → Sound
        (w.delivered ++ r ∷ [])
        (length (w.delivered ++ r ∷ []) + (w.reported + dropped))
        w.logger
    → Sound
        (front (send outcome r dropped w))
        (elsewhere (send outcome r dropped w))
        (send outcome r dropped w).logger
unfolding sent drop_at
sent-Sound w r dropped outcome (some_room, small, counted, ordered) =
    let one_more = length-append w.delivered (r ∷ []) in
    let all : w.delivered ++ r ∷ [] ≡ (w.delivered ++ r ∷ []) ++ [] = sym (append-nil _) in
    let none_new : w.delivered ≡ w.delivered ++ [] = sym (append-nil w.delivered) in
    let fewer : Between 0 w.logger.sequence ((w.delivered ++ []) ++ w.logger.queue) =
      subst (λ fs. Between 0 w.logger.sequence (fs ++ w.logger.queue)) none_new
        (subst (Between 0 w.logger.sequence) (drop_at-append 0 w.delivered (r ∷ w.logger.queue)) (
          Between-drop_at (length w.delivered + 0) 0 w.logger.sequence
            (w.delivered ++ r ∷ w.logger.queue)
            (subst (Between 0 w.logger.sequence) (append_assoc w.delivered (r ∷ []) w.logger.queue)
              ordered))) in
    let same_all = ap length all in
    let same_none = ap length none_new in
    elim outcome
      as (λ o.
        Sound (front (send o r dropped w)) (elsewhere (send o r dropped w))
          (send o r dropped w).logger) [
            | all_sent ↦ (
              some_room,
              small,
              omega (arith, counted, same_all),
              subst (λ fs. Between 0 w.logger.sequence (fs ++ w.logger.queue)) all ordered,
            )
            | report_raises ↦ (some_room, small, omega (arith, counted, one_more, same_none), fewer)
            | record_raises ↦ (some_room, small, omega (arith, counted, one_more, same_none), fewer)
          ]

Step-Sound :
    {v w : World}
    → Step v w
    → Sound (front v) (elsewhere v) v.logger
    → Sound (front w) (elsewhere w) w.logger
unfolding close
Step-Sound (logs v r) sound = log-Sound (front v) (elsewhere v) v.logger r sound
Step-Sound (takes v r dropped next idle taken) sound = taken-Sound v r dropped next idle taken sound
Step-Sound (sends v r dropped outcome busy) sound = sent-Sound v r dropped outcome (
    subst
      (λ o.
        Sound (v.delivered ++ in_flight o)
          (length (v.delivered ++ in_flight o) + (v.reported + carried o)) v.logger)
      busy sound)
Step-Sound (closes v) sound = sound

-- In every state that calls of `log`, the sender and `close` reach in any order, from a logger with
-- room for a record: the queue is within its capacity, there are no more records with a number than
-- are delivered, being sent, queued, reported as dropped or counted to be reported, and the numbers
-- grow from the first delivered to the last queued.
pub Reach-accounted :
    {level capacity : ℕ} {w : World}
    → 0 < capacity
    → Reach level capacity w
    → (length w.logger.queue ≤ w.logger.capacity)
      × (w.logger.sequence
          ≤ length (front w)
            + (w.reported + carried w.sending)
            + length w.logger.queue
            + w.logger.dropped)
      × Between 0 w.logger.sequence (front w ++ w.logger.queue)
Reach-accounted {level} {capacity} room reached =
    let (_, small, counted, ordered) = follow reached in (small, counted, ordered)
  where
    follow : {w : World} → Reach level capacity w → Sound (front w) (elsewhere w) w.logger
    follow begins = (room, omega arith, omega arith, omega arith)
    follow (goes_on before step) = Step-Sound step (follow before)
