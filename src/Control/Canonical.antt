-- ===== src/Control/Canonical.antt =====
-- A frame has exactly one packet: what `encode_frame` makes decodes to the frame, and what
-- `decode_frame` accepts is what `encode_frame` makes of it.
use mathlib.Core.Path.{subst}
use wmfs.Common.{
  ℕ, ◌+◌, ◌-◌, ◌^◌, ◌≤◌, ◌<◌, ◌≡◌, refl, sym, ap, ◌∙◌, true, not, ◌||◌, [], ◌∷◌, ◌++◌, ◌==◌, ltb,
  ok, checked-eq-ok, checked-pass, arith, Bool-cases, Option-cases, inl, inr, length, All-drop,
  drop, drop-append, length-append, length-drop, first_ok, raise_if-eq-ok,
}
use wmfs.Common.Bytes.{
  Bytes, IsBytes, unpack, packed, fields_at, Fit, pack-Fit, unpack-packed, length-packed,
  packed-fields_at, fields_at-Fit, values_of-fields_at, values_of,
}
use wmfs.Control.Frame.{
  Kind, kind_value, kind_of, kind_of-kind_value, unexpected_or_truncated, kind_value-kind_of,
  kind_value-lt, Frame, frame_fields, frame_widths, encode_frame, decode_header, decode_frame,
  expect_frame, magic_number,
}

frame_fields-Fit : (k : Kind) (r n : ℕ) → r < 2 ^ 64 → n ≤ 69600 → Fit (frame_fields k r n)
frame_fields-Fit k r n h g = (
  omega arith,
  (
    omega arith,
    (
      omega arith,
      (
        omega (arith, kind_value-lt k),
        (omega arith, (omega arith, (omega arith, (omega arith, tt)))),
      ),
    ),
  ),
)

-- A frame encodes exactly when its request ID and its size are in bounds.
pub encode_frame-eq-ok :
    (k : Kind) (r : ℕ) (payload : Bytes) {packet : Bytes}
    → encode_frame k r payload ≡ ok packet
    → (r < 2 ^ 64)
      × (length payload ≤ 69600)
      × (packet ≡ packed (frame_fields k r (length payload)) ++ payload)
unfolding encode_frame
encode_frame-eq-ok k r payload {packet} h = elim (Bool-cases (ltb r (2 ^ 64))) [
  | inl small ↦ elim (Bool-cases (ltb 69600 (length payload))) [
    | inl long ↦ absurd (ground arith)
    | inr short ↦ (
      ground arith,
      ground arith,
      ground (
        arith,
        pack-Fit (frame_fields k r (length payload))
            (frame_fields-Fit k r (length payload) (ground arith) (ground arith)),
      ),
    )
  ]
  | inr large ↦ absurd (ground arith)
]

pub encode_frame-total :
    (k : Kind) (r : ℕ) (payload : Bytes)
    → r < 2 ^ 64
    → length payload ≤ 69600
    → encode_frame k r payload ≡ ok (packed (frame_fields k r (length payload)) ++ payload)
unfolding encode_frame
encode_frame-total k r payload h g = ground (
  arith,
  pack-Fit (frame_fields k r (length payload)) (frame_fields-Fit k r (length payload) h g),
)

header_accepts :
    (v6 r : ℕ) (k : Kind) (packet payload : Bytes)
    → v6 ≡ length packet - 32
    → drop 32 packet ≡ payload
    → decode_header (magic_number ∷ 1 ∷ 0 ∷ kind_value k ∷ 0 ∷ 32 ∷ v6 ∷ r ∷ []) packet
      ≡ ok (record { kind = k; request_id = r; payload = payload })
unfolding decode_header
header_accepts v6 r k packet payload size rest =
    checked-pass _ _ (refl, (refl, (ground arith, tt))) ∙ rw (kind_of-kind_value k, rest)

size_passes :
    (packet : Bytes)
    → 32 ≤ length packet
    → length packet ≤ 69632
    → decode_frame packet ≡ decode_header (unpack frame_widths packet) packet
unfolding decode_frame
size_passes packet h g = ground arith

-- A packet of `encode_frame` is accepted and gives back its kind, request ID and payload.
pub decode_frame-encode_frame :
    (k : Kind) (r : ℕ) (payload : Bytes) {packet : Bytes}
    → encode_frame k r payload ≡ ok packet
    → decode_frame packet ≡ ok (record { kind = k; request_id = r; payload = payload })
decode_frame-encode_frame k r payload {packet} h =
    let (small, short, e) = encode_frame-eq-ok k r payload h in
    let fields = frame_fields k r (length payload) in
    let values : unpack frame_widths packet ≡ values_of fields =
      ap (unpack frame_widths) e
      ∙ unpack-packed fields payload (frame_fields-Fit k r _ small short) in
    let size : length packet ≡ 32 + length payload =
      ap length e
      ∙ length-append (packed fields) payload
      ∙ ap (λ n. n + length payload) (length-packed fields) in
    let rest : drop 32 packet ≡ payload =
      ap (drop 32) e
      ∙ ap (λ n. drop n (packed fields ++ payload)) (sym (length-packed fields))
      ∙ drop-append (packed fields) payload in
    size_passes packet (omega (arith, size)) (omega (arith, size, short))
    ∙ ap (λ vs. decode_header vs packet) values
    ∙ header_accepts (length payload) r k packet payload (omega (arith, size)) rest

-- What a header that is accepted says.
header_fields :
    (v0 v1 v2 v3 v4 v5 v6 v7 : ℕ) (packet : Bytes) {f : Frame}
    → decode_header (v0 ∷ v1 ∷ v2 ∷ v3 ∷ v4 ∷ v5 ∷ v6 ∷ v7 ∷ []) packet ≡ ok f
    → (v0 ≡ magic_number)
      × (v1 ≡ 1)
      × (v2 ≡ 0)
      × (v3 ≡ kind_value f.kind)
      × (v4 ≡ 0)
      × (v5 ≡ 32)
      × (v6 ≡ length packet - 32)
      × (v7 ≡ f.request_id)
      × (f.payload ≡ drop 32 packet)
unfolding decode_header
header_fields v0 v1 v2 v3 v4 v5 v6 v7 packet {f} h =
    let (p, e) = checked-eq-ok _ _ h in
    elim (Option-cases (kind_of v3)) [
      | inl bad ↦ absurd (ground arith)
      | inr (k, good) ↦ let kind = kind_value-kind_of v3 good in ground (arith, p, e, good, kind)
    ]

pub size_of_accepted :
    (packet : Bytes) {f : Frame}
    → decode_frame packet ≡ ok f
    → (32 ≤ length packet)
      × (length packet ≤ 69632)
      × (decode_header (unpack frame_widths packet) packet ≡ ok f)
unfolding decode_frame
size_of_accepted packet h = ground arith

accepted_values :
    (packet : Bytes) {f : Frame}
    → decode_header (unpack frame_widths packet) packet ≡ ok f
    → decode_header (values_of (fields_at frame_widths packet)) packet ≡ ok f
accepted_values packet h = rw (values_of-fields_at frame_widths packet) h

-- A packet that is accepted is the one that `encode_frame` makes of the frame.
pub encode_frame-decode_frame :
    {packet : Bytes} {f : Frame}
    → IsBytes packet
    → decode_frame packet ≡ ok f
    → encode_frame f.kind f.request_id f.payload ≡ ok packet
encode_frame-decode_frame {packet} {f} bytes h =
    let (long, short, accepted) = size_of_accepted packet h in
    let fit = fields_at-Fit frame_widths packet bytes long in
    let (e0, e1, e2, e3, e4, e5, e6, e7, rest) =
      header_fields _ _ _ _ _ _ _ _ packet (accepted_values packet accepted) in
    let size : length f.payload ≡ length packet - 32 = ap length rest ∙ length-drop 32 packet in
    let fields : frame_fields f.kind f.request_id (length f.payload)
        ≡ fields_at frame_widths packet =
      cc (e0, e1, e2, e3, e4, e5, e6, e7, size) in
    encode_frame-total f.kind f.request_id f.payload (rw e7 at (fit.1.1.1.1.1.1.1.0))
      (omega (arith, size, short))
    ∙ ap ok (
        ap (λ fs. packed fs ++ f.payload) fields
        ∙ ap (λ p. packed (fields_at frame_widths packet) ++ p) rest
        ∙ packed-fields_at frame_widths packet bytes long)

-- The decoder that expects the kind gets the frame.
pub expect_frame-encode_frame :
    (k : Kind) (size r : ℕ) (payload : Bytes) {packet : Bytes}
    → encode_frame k r payload ≡ ok packet
    → size ≤ length payload
    → expect_frame k size packet ≡ ok (record { kind = k; request_id = r; payload = payload })
unfolding expect_frame
expect_frame-encode_frame k size r payload {packet} h enough =
    rw (decode_frame-encode_frame k r payload h) (ground (arith, same k))
  where
    same : (k : Kind) → (kind_value k == kind_value k) ≡ true
    same k = ground arith

kind_value-inj : (j k : Kind) → kind_value j ≡ kind_value k → j ≡ k
kind_value-inj j k e = cc (kind_of-kind_value j, kind_of-kind_value k, ap kind_of e)

pub expect_frame-eq-ok :
    (k : Kind) (size : ℕ) (packet : Bytes) {f : Frame}
    → expect_frame k size packet ≡ ok f
    → (decode_frame packet ≡ ok f) × (f.kind ≡ k) × (size ≤ length f.payload)
unfolding expect_frame
expect_frame-eq-ok k size packet {f} h =
    let (g, accepted, h1) = first_ok (decode_frame packet) _ h in
    let (pass, same) =
      raise_if-eq-ok (not (kind_value g.kind == kind_value k) || ltb (length g.payload) size)
        unexpected_or_truncated (ok g) h1 in
    let e : g ≡ f = cc in
    (
      accepted ∙ same,
      sym (ap (λ frame. frame.kind) e) ∙ kind_value-inj g.kind k (ground (arith, pass)),
      ground (arith, pass, e),
    )

-- The bytes of the payload come from the packet.
pub decode_frame-IsBytes :
    (packet : Bytes) {f : Frame} → IsBytes packet → decode_frame packet ≡ ok f → IsBytes f.payload
decode_frame-IsBytes packet {f} bytes h =
    let (_, _, accepted) = size_of_accepted packet h in
    let (_, _, _, _, _, _, _, _, rest) =
      header_fields _ _ _ _ _ _ _ _ packet (accepted_values packet accepted) in
    subst IsBytes (sym rest) (All-drop _ 32 packet bytes)
