-- ===== src/Log/Queue/Sound.antt =====
-- packages/wmfs-plugin/wmfs_plugin/logging.py: `log` keeps account of what the queue loses.
use mathlib.Core.Path.{subst}
use wmfs.Common.{
  ℕ, ◌+◌, ◌≤◌, ◌<◌, some, none, List, [], ◌∷◌, ◌++◌, leb, leb→le, append_assoc, Bool-cases,
  Option-cases, inl, inr, ◌≡◌, refl, arith, length, length-append,
}
use wmfs.Log.{LogRecord}
use wmfs.Log.Queue.{
  AsyncLogger, lowest, drop_at, replace_lowest, full_queue, enqueue, is_enabled, numbered, log,
}
use wmfs.Log.Queue.Lowest.{
  lowest-least, length-drop_at, drop_at-append, Between, Between-higher, Between-snoc,
  Between-drop_at,
}

-- The queue is within its capacity; each record with a number is among the `n` that are accounted
-- for elsewhere, in the queue or among the drops; and the numbers grow along `front` and the queue.
abbrev pub Sound : List LogRecord → ℕ → AsyncLogger → Type 0
Sound front n s =
    (0 < s.capacity)
    × (length s.queue ≤ s.capacity)
    × (s.sequence ≤ n + length s.queue + s.dropped)
    × Between 0 s.sequence (front ++ s.queue)

appended :
    (front queue : List LogRecord) (r : LogRecord) (q : ℕ)
    → Between 0 q (front ++ queue)
    → Between 0 (q + 1) (front ++ (queue ++ numbered r (q + 1) ∷ []))
appended front queue r q b =
    subst (Between 0 (q + 1)) (append_assoc front queue (numbered r (q + 1) ∷ []))
      (Between-snoc 0 q (front ++ queue) (numbered r (q + 1)) (omega arith) b)

drop_middle :
    (front queue : List LogRecord) (i q : ℕ)
    → Between 0 q (front ++ queue)
    → Between 0 q (front ++ drop_at i queue)
drop_middle front queue i q b =
    subst (Between 0 q) (drop_at-append i front queue)
      (Between-drop_at (length front + i) 0 q (front ++ queue) b)

lowest-none : {c : ℕ} (queue : List LogRecord) → 0 < c → c ≤ length queue → lowest queue ≡ none → ⊥
unfolding lowest
lowest-none [] h g e = omega (arith, h, g)
lowest-none (q ∷ queue) h g e = cc e

replaced :
    (front : List LogRecord) (n : ℕ) (s : AsyncLogger) (r : LogRecord) (index least : ℕ)
    → index < length s.queue
    → Sound front n s
    → Sound front n (
        full_queue
          (some (index, least))
          (numbered r (s.sequence + 1))
          (record s { sequence = s.sequence + 1 }))
unfolding replace_lowest
replaced front n s r index least inside (some_room, small, counted, ordered) =
    let new = numbered r (s.sequence + 1) in
    let shape = λ (queue : List LogRecord).
      (0 < s.capacity)
      × (length queue ≤ s.capacity)
      × (s.sequence + 1 ≤ n + length queue + (s.dropped + 1))
      × Between 0 (s.sequence + 1) (front ++ queue) in
    elim (Bool-cases (leb least r.level)) [
      | inl kept ↦
          let same : drop_at index s.queue ++ new ∷ [] ≡ replace_lowest index least new s.queue =
            rw kept refl in
          let size = length-drop_at index s.queue inside in
          let one_more = length-append (drop_at index s.queue) (new ∷ []) in
          subst shape same (
            some_room,
            omega (arith, size, one_more, small),
            omega (arith, size, one_more, counted),
            appended front (drop_at index s.queue) r s.sequence
                (drop_middle front s.queue index s.sequence ordered),
          )
      | inr refused ↦
          let same : s.queue ≡ replace_lowest index least new s.queue = rw refused refl in
          subst shape same (
            some_room,
            small,
            omega (arith, counted),
            Between-higher 0 s.sequence (s.sequence + 1) (front ++ s.queue) (omega arith) ordered,
          )
    ]

enqueue-Sound :
    (front : List LogRecord) (n : ℕ) (s : AsyncLogger) (r : LogRecord)
    → Sound front n s
    → Sound front n (enqueue (numbered r (s.sequence + 1)) (record s { sequence = s.sequence + 1 }))
unfolding enqueue
enqueue-Sound front n s r (some_room, small, counted, ordered) =
    let new = numbered r (s.sequence + 1) in
    let next : AsyncLogger = record s { sequence = s.sequence + 1 } in
    let one_more = length-append s.queue (new ∷ []) in
    elim (Bool-cases (leb s.capacity (length s.queue))) [
      | inr room ↦
          let same : record next { queue = s.queue ++ new ∷ [] } ≡ enqueue new next =
            rw room refl in
          subst (Sound front n) same (
            some_room,
            ground (arith, one_more, room),
            omega (arith, one_more, counted),
            appended front s.queue r s.sequence ordered,
          )
      | inl full ↦ elim (Option-cases (lowest s.queue)) [
        | inl empty ↦ absurd (lowest-none s.queue some_room (leb→le _ _ full) empty)
        | inr ((index, least), found) ↦
            let (inside, _) = lowest-least s.queue found in
            let same : full_queue (some (index, least)) new next ≡ enqueue new next =
              rw (full, found) refl in
            subst (Sound front n) same
              (replaced front n s r index least inside (some_room, small, counted, ordered))
      ]
    ]

pub log-Sound :
    (front : List LogRecord) (n : ℕ) (s : AsyncLogger) (r : LogRecord)
    → Sound front n s
    → Sound front n (log r s)
unfolding log
log-Sound front n s r sound = elim (Bool-cases (is_enabled r.level s)) [
  | inr ignored ↦ let same : s ≡ log r s = rw ignored refl in subst (Sound front n) same sound
  | inl enabled ↦
      let same : enqueue (numbered r (s.sequence + 1)) (record s { sequence = s.sequence + 1 })
          ≡ log r s =
        rw enabled refl in
      subst (Sound front n) same (enqueue-Sound front n s r sound)
]
