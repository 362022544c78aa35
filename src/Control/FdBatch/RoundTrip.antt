-- ===== src/Control/FdBatch/RoundTrip.antt =====
-- A batch that is sent is the batch that is received.
use wmfs.Common.{
  drop_front, ℕ, ◌+◌, ◌*◌, ◌≤◌, ◌<◌, ◌≡◌, refl, ap, ◌∙◌, false, not, ◌&&◌, List, [], ◌∷◌, ◌++◌,
  ◌==◌, ok, or_raise, or_raise-eq-ok, checked-eq-ok, checked-pass, first_ok, length, drop, arith,
  length-append,
}
use wmfs.Common.Bytes.{
  Bytes, pack, unpack, packed, Fit, pack-eq-some, unpack-packed, length-packed, values_of,
}
use wmfs.Control.Frame.{fd_transfer, encode_frame, struct_error}
use wmfs.Control.Canonical.{expect_frame-encode_frame}
use wmfs.Control.Enums.{entry_kind_of-entry_kind_value}
use wmfs.Control.FdBatch.{
  FdEntry, FdBatch, is_retire, entry_widths, entry_fields, batch_widths, batch_fields,
  is_unknown_flags, encode_entry, encode_entries, encode_fd_batch, decode_entry, decode_entries,
  decode_batch, decode_fd_batch,
}

-- What an entry that encodes says of itself.
pub encode_entry-eq-ok :
    (e : FdEntry) {bs : Bytes}
    → encode_entry e ≡ ok bs
    → (is_unknown_flags e.flags ≡ false)
      × ((is_retire e.kind && not (e.flags == 0)) ≡ false)
      × Fit (entry_fields e)
      × (packed (entry_fields e) ≡ bs)
unfolding encode_entry
encode_entry-eq-ok e {bs} h =
    let (p, made) = checked-eq-ok _ _ h in
    let (fit, same) = pack-eq-some (entry_fields e) (or_raise-eq-ok _ _ made) in
    (p.0, p.1.0, fit, same)

decode_entry_lem :
    (e : FdEntry)
    → is_unknown_flags e.flags ≡ false
    → (is_retire e.kind && not (e.flags == 0)) ≡ false
    → decode_entry (values_of (entry_fields e)) ≡ ok e
unfolding decode_entry
decode_entry_lem e known plain = rw (entry_kind_of-entry_kind_value e.kind, known, plain)

pub length-encode_entries :
    (es : List FdEntry) {bs : Bytes} → encode_entries es ≡ ok bs → length bs ≡ length es * 48
unfolding encode_entries
length-encode_entries [] h = ground arith
length-encode_entries (e ∷ es) {bs} h =
    let (front, h1, h2) = first_ok (encode_entry e) _ h in
    let (rest, h3, h4) = first_ok (encode_entries es) _ h2 in
    let (_, _, _, same) = encode_entry-eq-ok e h1 in
    let whole : front ++ rest ≡ bs = cc in
    omega (
      arith,
      length-encode_entries es h3,
      length-packed (entry_fields e),
      ap length same,
      ap length whole,
      length-append front rest,
    )

pub decode_entries-encode_entries :
    (es : List FdEntry) {bs : Bytes}
    → encode_entries es ≡ ok bs
    → decode_entries (length es) bs ≡ ok es
unfolding encode_entries decode_entries
decode_entries-encode_entries [] h = refl
decode_entries-encode_entries (e ∷ es) {bs} h =
    let (front, h1, h2) = first_ok (encode_entry e) _ h in
    let (rest, h3, h4) = first_ok (encode_entries es) _ h2 in
    let (known, plain, fit, same) = encode_entry-eq-ok e h1 in
    let whole : bs ≡ packed (entry_fields e) ++ rest = cc in
    let values : unpack entry_widths bs ≡ values_of (entry_fields e) =
      ap (unpack entry_widths) whole ∙ unpack-packed (entry_fields e) rest fit in
    let later : drop 48 bs ≡ rest =
      ap (drop 48) whole
      ∙ drop_front 48 (packed (entry_fields e)) rest (length-packed (entry_fields e)) in
    rw (values, decode_entry_lem e known plain, later, decode_entries-encode_entries es h3)

-- What a batch that encodes says of itself.
pub encode_fd_batch-eq-ok :
    (b : FdBatch) (r : ℕ) {packet : Bytes}
    → encode_fd_batch b r ≡ ok packet
    → (encoded : Bytes) × (0 < length b.entries)
      × (length b.entries ≤ 240)
      × Fit (batch_fields b)
      × (encode_entries b.entries ≡ ok encoded)
      × (encode_frame fd_transfer r (packed (batch_fields b) ++ encoded) ≡ ok packet)
unfolding encode_fd_batch
encode_fd_batch-eq-ok b r {packet} h =
    let (p, h3) = checked-eq-ok _ _ h in
    let (encoded, entries, h4) = first_ok (encode_entries b.entries) _ h3 in
    let (header, made, h5) = first_ok (or_raise (pack (batch_fields b)) struct_error) _ h4 in
    let (fit, same) = pack-eq-some (batch_fields b) (or_raise-eq-ok _ _ made) in
    (
      encoded,
      ground (arith, p.0),
      ground (arith, p.0),
      fit,
      entries,
      ap (λ p. encode_frame fd_transfer r (p ++ encoded)) same ∙ h5,
    )

decode_batch_lem :
    (b : FdBatch) (payload rest : Bytes)
    → 0 < length b.entries
    → length b.entries ≤ 240
    → length payload ≡ 32 + length b.entries * 48
    → drop 32 payload ≡ rest
    → decode_entries (length b.entries) rest ≡ ok b.entries
    → decode_batch (values_of (batch_fields b)) payload ≡ ok b
unfolding decode_batch
decode_batch_lem b payload rest some_entry few size later entries =
    checked-pass _ _ (ground arith, (ground arith, tt)) ∙ rw (later, entries) (ground arith)

-- A batch that `encode_fd_batch` sends is the one that `decode_fd_batch` receives, with its request ID.
pub decode_fd_batch-encode_fd_batch :
    (b : FdBatch) (r : ℕ) {packet : Bytes}
    → encode_fd_batch b r ≡ ok packet
    → decode_fd_batch packet ≡ ok (r, b)
unfolding decode_fd_batch
decode_fd_batch-encode_fd_batch b r {packet} h =
    let (encoded, some_entry, few, fit, entries, framed) = encode_fd_batch-eq-ok b r h in
    let payload = packed (batch_fields b) ++ encoded in
    let head = length-packed (batch_fields b) in
    let size : length payload ≡ 32 + length b.entries * 48 = omega (
      arith,
      length-append (packed (batch_fields b)) encoded,
      head,
      length-encode_entries b.entries entries,
    ) in
    let values : unpack batch_widths payload ≡ values_of (batch_fields b) =
      unpack-packed (batch_fields b) encoded fit in
    let body : decode_batch (unpack batch_widths payload) payload ≡ ok b =
      ap (λ vs. decode_batch vs payload) values
      ∙ decode_batch_lem b payload encoded some_entry few size
          (drop_front 32 (packed (batch_fields b)) encoded head)
          (decode_entries-encode_entries b.entries entries) in
    rw (expect_frame-encode_frame fd_transfer 32 r payload framed (omega (arith, size)), body)
