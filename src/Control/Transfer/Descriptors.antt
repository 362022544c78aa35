-- ===== src/Control/Transfer/Descriptors.antt =====
-- What becomes of the descriptors of a message.
use mathlib.Core.Path.{subst}
use wmfs.Common.{
  ℕ, ◌*◌, ◌/◌, ◌%◌, ◌^◌, ◌≤◌, ◌<◌, ◌≡◌, refl, sym, ap, ◌∙◌, Bool, true, false, not, ◌||◌, List, [],
  ◌∷◌, ◌++◌, ◌==◌, ltb, Result, ok, err, raise_if-eq-ok, first_ok, checked-eq-ok, checked-pass, any,
  length, take, drop, arith, Bool-cases, inl, inr, Result-cases, length-append, take-append,
  drop-append, append-nil,
}
use wmfs.Common.Bytes.{Bytes, le_bytes, length-le_bytes, le_value-le_bytes}
use wmfs.Control.Frame.{
  fd_transfer, ControlError, descriptor_count_mismatch, overflow_error, too_many_descriptors, Frame,
  decode_frame,
}
use wmfs.Control.FdBatch.{FdEntry, FdBatch, max_fd_entries, fd_count, encode_fd_batch}
use wmfs.Control.FdBatch.RoundTrip.{encode_fd_batch-eq-ok, decode_fd_batch-encode_fd_batch}
use wmfs.Control.Canonical.{decode_frame-encode_frame, size_of_accepted}
use wmfs.Control.Transfer.{
  ControlMessage, Message, expected_fd_count, int_bytes, rights_of, sendmsg_strict, ints_of,
  descriptors_of, extract_loop, extract_fds, check_message, recvmsg_strict,
}

abbrev pub returned : Result ControlError (Bytes × List ℕ) → List ℕ
returned (ok (packet, fds)) = fds
returned (err e) = []

fd_count-le : (es : List FdEntry) → fd_count es ≤ length es
fd_count-le [] = omega arith
fd_count-le (e ∷ es) = ground (arith, fd_count-le es)

check_message-eq-ok :
    (m : Message) (fds : List ℕ) {p : Bytes} {ds : List ℕ}
    → check_message m fds ≡ ok (p, ds)
    → fds ≡ ds
unfolding check_message
check_message-eq-ok m fds h =
    let (_, h1) = checked-eq-ok _ _ h in
    let (frame, _, h2) = first_ok (decode_frame m.packet) _ h1 in
    let (expected, _, h3) = first_ok (expected_fd_count frame m.packet) _ h2 in
    let (_, same) = raise_if-eq-ok (not (length fds == expected)) descriptor_count_mismatch _ h3 in
    cc

-- How `recvmsg_strict` ends, by what its parts do.
module _ (m : Message) where
  ends_unextracted :
      (closed : List ℕ) (e : ControlError)
      → extract_fds m.ancillary ≡ (closed, err e)
      → recvmsg_strict m ≡ (closed, err e)
  unfolding recvmsg_strict
  ends_unextracted closed e h = rw h refl

  ends_refused :
      (fds : List ℕ) (e : ControlError)
      → extract_fds m.ancillary ≡ ([], ok fds)
      → check_message m fds ≡ err e
      → recvmsg_strict m ≡ (fds, err e)
  unfolding recvmsg_strict
  ends_refused fds e h g = rw (h, g) refl

  ends_received :
      (fds : List ℕ) (r : Bytes × List ℕ)
      → extract_fds m.ancillary ≡ ([], ok fds)
      → check_message m fds ≡ ok r
      → recvmsg_strict m ≡ ([], ok r)
  unfolding recvmsg_strict
  ends_received fds r h g = rw (h, g) refl

abbrev rights : Bytes → List ControlMessage
rights content = record { is_rights = true; content = content } ∷ []

extract_too_many :
    (content : Bytes)
    → length content % 4 ≡ 0
    → ltb 240 (length (descriptors_of content)) ≡ true
    → extract_fds (rights content) ≡ (descriptors_of content, err too_many_descriptors)
unfolding extract_fds extract_loop
extract_too_many content whole many = rw (whole, many) refl

extract_all :
    (content : Bytes)
    → length content % 4 ≡ 0
    → ltb 240 (length (descriptors_of content)) ≡ false
    → extract_fds (rights content) ≡ ([], ok (descriptors_of content))
unfolding extract_fds extract_loop
extract_all content whole few = rw (whole, few) refl

-- Of a message whose ancillary data is one array of descriptors, each descriptor is returned or
-- closed, and none is both, whatever its packet is and whether or not it is truncated.
pub recvmsg_strict-disposes :
    (packet content : Bytes) (truncated : Bool)
    → length content % 4 ≡ 0
    → (recvmsg_strict
          (record { packet = packet; ancillary = rights content; truncated = truncated })).0
        ++ returned
            (recvmsg_strict
              (record { packet = packet; ancillary = rights content; truncated = truncated })).1
      ≡ descriptors_of content
recvmsg_strict-disposes packet content truncated h =
    elim (Bool-cases (ltb 240 (length (descriptors_of content)))) [
      | inl many ↦
          rw (ends_unextracted m _ _ (extract_too_many content h many))
            (append-nil (descriptors_of content))
      | inr few ↦ elim (Result-cases (check_message m (descriptors_of content))) [
        | inl ((p, ds), good) ↦
            rw (ends_received m _ _ (extract_all content h few) good)
              (sym (check_message-eq-ok m _ good))
        | inr (e, bad) ↦
            rw (ends_refused m _ e (extract_all content h few) bad)
              (append-nil (descriptors_of content))
      ]
    ]
  where
    m : Message
    m = record { packet = packet; ancillary = rights content; truncated = truncated }

length-int_bytes : (fds : List ℕ) → length (int_bytes fds) ≡ length fds * 4
length-int_bytes [] = refl
length-int_bytes (fd ∷ fds) = omega (
  arith,
  length-append (le_bytes 4 fd) (int_bytes fds),
  length-le_bytes 4 fd,
  length-int_bytes fds,
)

abbrev pub is_no_int : ℕ → Bool
is_no_int fd = not (ltb fd (2 ^ 31))

small_of : (fd : ℕ) (rest : Bool) → (is_no_int fd || rest) ≡ false → (fd < 2 ^ 32) × (rest ≡ false)
small_of fd rest h = ground arith

ints_of-int_bytes :
    (fds : List ℕ) → any is_no_int fds ≡ false → ints_of (length fds) (int_bytes fds) ≡ fds
ints_of-int_bytes [] h = refl
ints_of-int_bytes (fd ∷ fds) h =
    let (small, rest) = small_of fd (any is_no_int fds) h in
    let front : take 4 (le_bytes 4 fd ++ int_bytes fds) ≡ le_bytes 4 fd =
      ap (λ n. take n (le_bytes 4 fd ++ int_bytes fds)) (sym (length-le_bytes 4 fd))
      ∙ take-append (le_bytes 4 fd) _ in
    let back : drop 4 (le_bytes 4 fd ++ int_bytes fds) ≡ int_bytes fds =
      ap (λ n. drop n (le_bytes 4 fd ++ int_bytes fds)) (sym (length-le_bytes 4 fd))
      ∙ drop-append (le_bytes 4 fd) _ in
    rw (front, back, le_value-le_bytes 4 fd small, ints_of-int_bytes fds rest)

quarter : (n k : ℕ) → n ≡ k * 4 → (n % 4 ≡ 0) × (n / 4 ≡ k)
quarter n k h = (omega arith, omega arith)

nothing_extracts : extract_fds [] ≡ ([], ok [])
unfolding extract_fds extract_loop
nothing_extracts = refl

extract-rights_of :
    (fds : List ℕ)
    → any is_no_int fds ≡ false
    → ltb 240 (length fds) ≡ false
    → extract_fds (rights_of fds) ≡ ([], ok fds)
extract-rights_of [] h few = nothing_extracts
extract-rights_of (fd ∷ fds) h few =
    let (whole, count) =
      quarter (length (int_bytes (fd ∷ fds))) (length (fd ∷ fds)) (length-int_bytes (fd ∷ fds)) in
    let same : descriptors_of (int_bytes (fd ∷ fds)) ≡ fd ∷ fds =
      ap (λ n. ints_of n (int_bytes (fd ∷ fds))) count ∙ ints_of-int_bytes (fd ∷ fds) h in
    extract_all (int_bytes (fd ∷ fds)) whole (ap (λ ds. ltb 240 (length ds)) same ∙ few)
    ∙ ap (λ ds. ([], ok ds)) same

check_message_lem :
    (packet : Bytes) (fds : List ℕ) (frame : Frame) (expected : ℕ)
    → decode_frame packet ≡ ok frame
    → expected_fd_count frame packet ≡ ok expected
    → not (length fds == expected) ≡ false
    → check_message (record { packet = packet; ancillary = rights_of fds; truncated = false }) fds
      ≡ ok (packet, fds)
unfolding check_message
check_message_lem packet fds frame expected accepted count same =
    checked-pass _ _ (refl, (ground (arith, (size_of_accepted packet accepted).0), tt))
    ∙ rw (accepted, count, same) refl

-- What `sendmsg_strict` hands to the socket is received as it was sent, and nothing is closed.
pub recvmsg_strict-sendmsg_strict :
    (packet : Bytes) (fds : List ℕ) {m : Message}
    → sendmsg_strict packet fds ≡ ok m
    → recvmsg_strict m ≡ ([], ok (packet, fds))
unfolding sendmsg_strict
recvmsg_strict-sendmsg_strict packet fds {m} h =
    let (frame, accepted, h1) = first_ok (decode_frame packet) _ h in
    let (expected, count, h2) = first_ok (expected_fd_count frame packet) _ h1 in
    let (fits, h3) =
      raise_if-eq-ok (not (length fds == expected) || ltb max_fd_entries (length fds))
        descriptor_count_mismatch _ h2 in
    let (ints, same) = raise_if-eq-ok (any is_no_int fds) overflow_error _ h3 in
    let sent : record { packet = packet; ancillary = rights_of fds; truncated = false } ≡ m = cc in
    subst (λ k. recvmsg_strict k ≡ ([], ok (packet, fds))) sent
      (receives frame expected accepted count fits ints)
  where
    receives :
        (frame : Frame) (expected : ℕ)
        → decode_frame packet ≡ ok frame
        → expected_fd_count frame packet ≡ ok expected
        → (not (length fds == expected) || ltb 240 (length fds)) ≡ false
        → any is_no_int fds ≡ false
        → recvmsg_strict (record { packet = packet; ancillary = rights_of fds; truncated = false })
          ≡ ([], ok (packet, fds))
    receives frame expected accepted count fits ints =
        ends_received _ fds (packet, fds) (extract-rights_of fds ints (ground (arith, fits)))
          (check_message_lem packet fds frame expected accepted count (ground (arith, fits)))

-- A batch that encodes can be sent with one descriptor for each of its MAP entries.
pub sendmsg_strict-encode_fd_batch :
    (b : FdBatch) (r : ℕ) (fds : List ℕ) {packet : Bytes}
    → encode_fd_batch b r ≡ ok packet
    → length fds ≡ fd_count b.entries
    → any is_no_int fds ≡ false
    → sendmsg_strict packet fds
      ≡ ok (record { packet = packet; ancillary = rights_of fds; truncated = false })
unfolding sendmsg_strict expected_fd_count
sendmsg_strict-encode_fd_batch b r fds {packet} h count ints =
    let (encoded, some_entry, few, fit, entries, framed) = encode_fd_batch-eq-ok b r h in
    rw
      (
        decode_frame-encode_frame fd_transfer r _ framed,
        decode_fd_batch-encode_fd_batch b r h,
        ints,
      )
      (ground (arith, fd_count-le b.entries))
