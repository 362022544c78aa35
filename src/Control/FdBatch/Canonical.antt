-- ===== src/Control/FdBatch/Canonical.antt =====
-- A batch has exactly one packet for a request ID: what `decode_fd_batch` accepts is what
-- `encode_fd_batch` makes of it.
use mathlib.Core.Path.{subst}
use wmfs.Common.{
  ℕ, zero, suc, ◌+◌, ◌*◌, ◌≤◌, ◌<◌, ◌≡◌, refl, sym, ap, ◌∙◌, false, not, ◌&&◌, List, [], ◌∷◌, ◌++◌,
  ◌==◌, ok, checked-eq-ok, checked-pass, first_ok, length, drop, arith, Bool-cases, Option-cases,
  inl, inr, length-drop, All-drop,
}
use wmfs.Common.Bytes.{
  Bytes, IsBytes, unpack, packed, Fit, pack-Fit, fields_at, fields_at-Fit, values_of-fields_at,
  packed-fields_at, values_of,
}
use wmfs.Control.Frame.{fd_transfer, Frame, expect_frame, encode_frame}
use wmfs.Control.Canonical.{expect_frame-eq-ok, decode_frame-IsBytes, encode_frame-decode_frame}
use wmfs.Control.Enums.{entry_kind_value, entry_kind_of, entry_kind_value-entry_kind_of}
use wmfs.Control.FdBatch.{
  FdEntry, FdBatch, is_retire, fd_count, entry_widths, entry_fields, batch_widths, batch_fields,
  is_unknown_flags, encode_entry, encode_entries, encode_fd_batch, decode_entry, decode_entries,
  decode_batch, decode_fd_batch,
}

entry_values :
    (v0 v1 v2 v3 v4 v5 v6 : ℕ) {e : FdEntry}
    → decode_entry (v0 ∷ v1 ∷ v2 ∷ v3 ∷ v4 ∷ v5 ∷ v6 ∷ []) ≡ ok e
    → (is_unknown_flags e.flags ≡ false)
      × ((is_retire e.kind && not (e.flags == 0)) ≡ false)
      × (v0 ≡ entry_kind_value e.kind)
      × (v1 ≡ e.flags)
      × (v2 ≡ e.buffer_id)
      × (v3 ≡ e.generation)
      × (v4 ≡ e.allocation_id)
      × (v5 ≡ e.invocation_id)
      × (v6 ≡ e.byte_length)
unfolding decode_entry
entry_values v0 v1 v2 v3 v4 v5 v6 {e} h = elim (Option-cases (entry_kind_of v0)) [
  | inl bad ↦ absurd (ground arith)
  | inr (k, good) ↦ elim (Bool-cases (is_unknown_flags v1)) [
    | inl unknown ↦ absurd (ground arith)
    | inr known ↦ elim (Bool-cases (is_retire k && not (v1 == 0))) [
      | inl flagged ↦ absurd (ground arith)
      | inr plain ↦ ground (arith, entry_kind_value-entry_kind_of v0 good)
    ]
  ]
]

encode_entry_lem :
    (e : FdEntry)
    → is_unknown_flags e.flags ≡ false
    → (is_retire e.kind && not (e.flags == 0)) ≡ false
    → Fit (entry_fields e)
    → encode_entry e ≡ ok (packed (entry_fields e))
unfolding encode_entry
encode_entry_lem e known plain fit =
    checked-pass _ _ (
      known,
      (
        plain,
        (
          ground (arith, fit),
          (
            ground (arith, fit),
            (ground (arith, fit), (ground (arith, fit), (ground (arith, fit), tt))),
          ),
        ),
      ),
    )
    ∙ rw (pack-Fit (entry_fields e) fit) refl

encode_entry-decode_entry :
    (bs : Bytes) {e : FdEntry}
    → IsBytes bs
    → 48 ≤ length bs
    → decode_entry (unpack entry_widths bs) ≡ ok e
    → encode_entry e ≡ ok (packed (fields_at entry_widths bs))
encode_entry-decode_entry bs {e} bytes long h =
    let values : decode_entry (values_of (fields_at entry_widths bs)) ≡ ok e =
      rw (values_of-fields_at entry_widths bs) h in
    let (known, plain, e0, e1, e2, e3, e4, e5, e6) = entry_values _ _ _ _ _ _ _ values in
    let fields : entry_fields e ≡ fields_at entry_widths bs = cc (e0, e1, e2, e3, e4, e5, e6) in
    encode_entry_lem e known plain
      (subst Fit (sym fields) (fields_at-Fit entry_widths bs bytes long))
    ∙ ap (λ fs. ok (packed fs)) fields

nothing_encodes : encode_entries [] ≡ ok []
unfolding encode_entries
nothing_encodes = refl

encode_entries_lem :
    (e : FdEntry) (es : List FdEntry) (front rest bs : Bytes)
    → encode_entry e ≡ ok front
    → encode_entries es ≡ ok rest
    → front ++ rest ≡ bs
    → encode_entries (e ∷ es) ≡ ok bs
unfolding encode_entries
encode_entries_lem e es front rest bs h g whole = rw (h, g) (ap ok whole)

encode_entries-decode_entries :
    (count : ℕ) (bs : Bytes) {es : List FdEntry}
    → IsBytes bs
    → length bs ≡ count * 48
    → decode_entries count bs ≡ ok es
    → (encode_entries es ≡ ok bs) × (length es ≡ count)
unfolding decode_entries
encode_entries-decode_entries zero [] {es} bytes size h =
    let list : [] ≡ es = cc in
    subst (λ l. (encode_entries l ≡ ok []) × (length l ≡ 0)) list (nothing_encodes, refl)
encode_entries-decode_entries zero (b ∷ bs) {es} bytes size h = absurd (omega arith)
encode_entries-decode_entries (suc count) bs {es} bytes size h =
    let (e, h1, h2) = first_ok (decode_entry (unpack entry_widths bs)) _ h in
    let (rest, h3, h4) = first_ok (decode_entries count (drop 48 bs)) _ h2 in
    let front = encode_entry-decode_entry bs bytes (omega arith) h1 in
    let (later, count_same) =
      encode_entries-decode_entries count (drop 48 bs) (All-drop _ 48 bs bytes)
        (omega (arith, length-drop 48 bs)) h3 in
    let whole = packed-fields_at entry_widths bs bytes (omega arith) in
    let list : e ∷ rest ≡ es = cc in
    subst (λ l. (encode_entries l ≡ ok bs) × (length l ≡ suc count)) list
      (encode_entries_lem e rest _ _ bs front later whole, ap suc count_same)

batch_values :
    (v0 v1 v2 v3 v4 v5 : ℕ) (payload : Bytes) {b : FdBatch}
    → decode_batch (v0 ∷ v1 ∷ v2 ∷ v3 ∷ v4 ∷ v5 ∷ []) payload ≡ ok b
    → (0 < v2)
      × (v2 ≤ 240)
      × (length payload ≡ 32 + v2 * 48)
      × (decode_entries v2 (drop 32 payload) ≡ ok b.entries)
      × (v0 ≡ b.transfer_id)
      × (v1 ≡ b.session_generation)
      × (v3 ≡ fd_count b.entries)
      × (v4 ≡ 1)
      × (v5 ≡ 0)
unfolding decode_batch
batch_values v0 v1 v2 v3 v4 v5 payload {b} h =
    let (p, h1) = checked-eq-ok _ _ h in
    let (entries, read, h2) = first_ok (decode_entries v2 (drop 32 payload)) _ h1 in
    elim (Bool-cases (fd_count entries == v3)) [
      | inl same ↦ ground (arith, p, read)
      | inr other ↦ absurd (ground arith)
    ]

encode_fd_batch_lem :
    (b : FdBatch) (r : ℕ) (encoded : Bytes)
    → 0 < length b.entries
    → length b.entries ≤ 240
    → Fit (batch_fields b)
    → encode_entries b.entries ≡ ok encoded
    → encode_fd_batch b r ≡ encode_frame fd_transfer r (packed (batch_fields b) ++ encoded)
unfolding encode_fd_batch
encode_fd_batch_lem b r encoded some_entry few fit entries =
    checked-pass _ _ (ground arith, (ground (arith, fit), (ground (arith, fit), tt)))
    ∙ rw (entries, pack-Fit (batch_fields b) fit) refl

-- What `decode_fd_batch` accepts, made of bytes, is what `encode_fd_batch` makes of the batch and
-- the request ID that it reads.
pub encode_fd_batch-decode_fd_batch :
    {packet : Bytes} {r : ℕ} {b : FdBatch}
    → IsBytes packet
    → decode_fd_batch packet ≡ ok (r, b)
    → encode_fd_batch b r ≡ ok packet
unfolding decode_fd_batch
encode_fd_batch-decode_fd_batch {packet} {r} {b} bytes h =
    let (frame, h1, h2) = first_ok (expect_frame fd_transfer 32 packet) _ h in
    let (c, h3, h4) =
      first_ok (decode_batch (unpack batch_widths frame.payload) frame.payload) _ h2 in
    let id : frame.request_id ≡ r = cc in
    let batch : c ≡ b = cc in
    let (accepted, kind, long) = expect_frame-eq-ok fd_transfer 32 packet h1 in
    encodes frame (decode_frame-IsBytes packet bytes accepted) id kind long
      (encode_frame-decode_frame bytes accepted)
      (subst (λ x. decode_batch (unpack batch_widths frame.payload) frame.payload ≡ ok x) batch h3)
  where
    encodes :
        (frame : Frame)
        → IsBytes frame.payload
        → frame.request_id ≡ r
        → frame.kind ≡ fd_transfer
        → 32 ≤ length frame.payload
        → encode_frame frame.kind frame.request_id frame.payload ≡ ok packet
        → decode_batch (unpack batch_widths frame.payload) frame.payload ≡ ok b
        → encode_fd_batch b r ≡ ok packet
    encodes frame payload_bytes id kind long framed batch =
        let payload = frame.payload in
        let values : decode_batch (values_of (fields_at batch_widths payload)) payload ≡ ok b =
          rw (values_of-fields_at batch_widths payload) batch in
        let (some_entry, few, size, entries, e0, e1, e3, e4, e5) =
          batch_values _ _ _ _ _ _ payload values in
        let (encoded, count) =
          encode_entries-decode_entries _ (drop 32 payload) (All-drop _ 32 payload payload_bytes)
            (omega (arith, length-drop 32 payload, size)) entries in
        let fields : batch_fields b ≡ fields_at batch_widths payload =
          cc (e0, e1, e3, e4, e5, count) in
        encode_fd_batch_lem b r (drop 32 payload) (omega (arith, count, some_entry))
          (omega (arith, count, few))
          (subst Fit (sym fields) (fields_at-Fit batch_widths payload payload_bytes long)) encoded
        ∙ ap (λ fs. encode_frame fd_transfer r (packed fs ++ drop 32 payload)) fields
        ∙ ap (encode_frame fd_transfer r) (packed-fields_at batch_widths payload payload_bytes long)
        ∙ ap (λ k. encode_frame k r payload) (sym kind)
        ∙ ap (λ i. encode_frame frame.kind i payload) (sym id)
        ∙ framed
