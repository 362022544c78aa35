-- ===== src/Control/Replies.antt =====
-- packages/wmfs/wmfs/protocol/control.py: `encode_fd_ack`, `decode_fd_ack`, `encode_error` and
-- `decode_error`.
use wmfs.Common.{
  ℕ, ◌+◌, ◌≤◌, ◌≡◌, refl, sym, ap, ◌∙◌, false, not, ◌||◌, some, List, [], ◌∷◌, ◌++◌, ◌==◌, ltb,
  Result, ok, ◌>>=◌, ◌>>◌, raise_if, or_raise, or_raise-eq-ok, checked, checked-pass, first_ok,
  raise_if-eq-ok, length, drop, get_or, arith, length-append, drop-append,
}
use wmfs.Common.Bytes.{
  Bytes, pack, unpack, packed, Fit, pack-eq-some, unpack-packed, length-packed, values_of,
}
use wmfs.Common.Utf8.{Text, utf8_encode, utf8_decode}
use wmfs.Common.Utf8.RoundTrip.{utf8_decode-encode}
use wmfs.Control.Frame.{
  fd_transfer_ack, error_response, ControlError, exceeds_limit, not_utf8, invalid_acknowledgement,
  invalid_error_response, unknown_enum_value, struct_error, unicode_encode_error, expect_frame,
  encode_frame,
}
use wmfs.Control.Canonical.{expect_frame-encode_frame}
use wmfs.Control.Enums.{Status, status_value, status_of, status_of-status_value}

abbrev pub max_error_bytes : ℕ
max_error_bytes = 1024

pub record FdAck : Type 0 where
  pub transfer_id : ℕ
  pub session_generation : ℕ
  pub status : Status
  pub error : Text

pub record ErrorResponse : Type 0 where
  pub status : Status
  pub message : Text

-- `_FD_ACK` and `_ERROR`
abbrev pub ack_widths : List ℕ
ack_widths = 8 ∷ 8 ∷ 4 ∷ 4 ∷ 4 ∷ 4 ∷ []

abbrev pub ack_fields : FdAck → ℕ → List (ℕ × ℕ)
ack_fields a size =
    (8, a.transfer_id)
    ∷ (8, a.session_generation)
    ∷ (4, status_value a.status)
    ∷ (4, 0)
    ∷ (4, size)
    ∷ (4, 0)
    ∷ []

abbrev pub error_widths : List ℕ
error_widths = 4 ∷ 4 ∷ []

abbrev pub error_fields : ErrorResponse → ℕ → List (ℕ × ℕ)
error_fields e size = (4, status_value e.status) ∷ (4, size) ∷ []

unfoldable pub encode_fd_ack : FdAck → ℕ → Result ControlError Bytes
encode_fd_ack a request_id = do
  error ← or_raise (utf8_encode a.error) unicode_encode_error
  raise_if (ltb max_error_bytes (length error)) exceeds_limit
  header ← or_raise (pack (ack_fields a (length error))) struct_error
  encode_frame fd_transfer_ack request_id (header ++ error)

-- `decode_fd_ack` from the values of the header on.
unfoldable pub decode_ack : List ℕ → Bytes → Result ControlError FdAck
decode_ack values payload =
    checked
      ((
        not (get_or values 3 0 == 0)
            || not (get_or values 5 0 == 0)
            || ltb max_error_bytes (get_or values 4 0)
            || not (length payload == 32 + get_or values 4 0),
        invalid_acknowledgement,
      )
        ∷ [])
      (do
        error ← or_raise (utf8_decode (drop 32 payload)) not_utf8
        status ← or_raise (status_of (get_or values 2 0)) unknown_enum_value
        ok (record {
          transfer_id = get_or values 0 0;
          session_generation = get_or values 1 0;
          status = status;
          error = error;
        }))

unfoldable pub decode_fd_ack : Bytes → Result ControlError (ℕ × FdAck)
decode_fd_ack packet = do
  frame ← expect_frame fd_transfer_ack 32 packet
  a ← decode_ack (unpack ack_widths frame.payload) frame.payload
  ok (frame.request_id, a)

unfoldable pub encode_error : ErrorResponse → ℕ → Result ControlError Bytes
encode_error e request_id = do
  message ← or_raise (utf8_encode e.message) unicode_encode_error
  raise_if (status_value e.status == 0 || ltb max_error_bytes (length message))
      invalid_error_response
  header ← or_raise (pack (error_fields e (length message))) struct_error
  encode_frame error_response request_id (header ++ message)

-- `decode_error` from the values of the header on.
unfoldable pub decode_response : List ℕ → Bytes → Result ControlError ErrorResponse
decode_response values payload =
    checked
      ((
        get_or values 0 0 == 0
            || ltb max_error_bytes (get_or values 1 0)
            || not (length (drop 8 payload) == get_or values 1 0),
        invalid_error_response,
      )
        ∷ [])
      (do
        message ← or_raise (utf8_decode (drop 8 payload)) not_utf8
        status ← or_raise (status_of (get_or values 0 0)) unknown_enum_value
        ok (record { status = status; message = message }))

unfoldable pub decode_error : Bytes → Result ControlError (ℕ × ErrorResponse)
decode_error packet = do
  frame ← expect_frame error_response 8 packet
  e ← decode_response (unpack error_widths frame.payload) frame.payload
  ok (frame.request_id, e)

decode_ack_lem :
    (a : FdAck) (payload error : Bytes)
    → length payload ≡ 32 + length error
    → length error ≤ 1024
    → drop 32 payload ≡ error
    → utf8_decode error ≡ some a.error
    → decode_ack (values_of (ack_fields a (length error))) payload ≡ ok a
unfolding decode_ack
decode_ack_lem a payload error size short rest text =
    checked-pass _ _ (ground arith, tt) ∙ rw (rest, text, status_of-status_value a.status) refl

-- An acknowledgement that `encode_fd_ack` sends is the one that `decode_fd_ack` receives, with its
-- request ID and the text of its error.
decode_fd_ack-encode_fd_ack :
    (a : FdAck) (r : ℕ) {packet : Bytes}
    → encode_fd_ack a r ≡ ok packet
    → decode_fd_ack packet ≡ ok (r, a)
unfolding encode_fd_ack decode_fd_ack
decode_fd_ack-encode_fd_ack a r {packet} h =
    let (error, text, h1) = first_ok (or_raise (utf8_encode a.error) unicode_encode_error) _ h in
    let (short, h2) = raise_if-eq-ok (ltb max_error_bytes (length error)) exceeds_limit _ h1 in
    let (header, made, framed) =
      first_ok (or_raise (pack (ack_fields a (length error))) struct_error) _ h2 in
    let (fit, same) = pack-eq-some (ack_fields a (length error)) (or_raise-eq-ok _ _ made) in
    decodes error (ground (arith, short)) (utf8_decode-encode a.error (or_raise-eq-ok _ _ text)) fit
      (ap (λ p. encode_frame fd_transfer_ack r (p ++ error)) same ∙ framed)
  where
    decodes :
        (error : Bytes)
        → length error ≤ 1024
        → utf8_decode error ≡ some a.error
        → Fit (ack_fields a (length error))
        → encode_frame fd_transfer_ack r (packed (ack_fields a (length error)) ++ error) ≡ ok packet
        → decode_fd_ack packet ≡ ok (r, a)
    decodes error short text fit framed =
        let header = packed (ack_fields a (length error)) in
        let head : length header ≡ 32 = length-packed (ack_fields a (length error)) in
        let size : length (header ++ error) ≡ 32 + length error =
          omega (arith, length-append header error, head) in
        let rest : drop 32 (header ++ error) ≡ error =
          ap (λ n. drop n (header ++ error)) (sym head) ∙ drop-append header error in
        let body : decode_ack (unpack ack_widths (header ++ error)) (header ++ error) ≡ ok a =
          ap (λ vs. decode_ack vs (header ++ error))
            (unpack-packed (ack_fields a (length error)) error fit)
          ∙ decode_ack_lem a (header ++ error) error size short rest text in
        rw (
          expect_frame-encode_frame fd_transfer_ack 32 r (header ++ error) framed
              (omega (arith, size)),
          body,
        )

decode_response_lem :
    (e : ErrorResponse) (payload message : Bytes)
    → (status_value e.status == 0 || ltb max_error_bytes (length message)) ≡ false
    → drop 8 payload ≡ message
    → utf8_decode message ≡ some e.message
    → decode_response (values_of (error_fields e (length message))) payload ≡ ok e
unfolding decode_response
decode_response_lem e payload message fine rest text =
    checked-pass _ _ (ground (arith, fine, ap length rest), tt)
    ∙ rw (rest, text, status_of-status_value e.status) refl

-- An error response that `encode_error` sends is the one that `decode_error` receives, with its
-- request ID and the text of its message.
decode_error-encode_error :
    (e : ErrorResponse) (r : ℕ) {packet : Bytes}
    → encode_error e r ≡ ok packet
    → decode_error packet ≡ ok (r, e)
unfolding encode_error decode_error
decode_error-encode_error e r {packet} h =
    let (message, text, h1) =
      first_ok (or_raise (utf8_encode e.message) unicode_encode_error) _ h in
    let (fine, h2) =
      raise_if-eq-ok (status_value e.status == 0 || ltb max_error_bytes (length message))
        invalid_error_response _ h1 in
    let (header, made, framed) =
      first_ok (or_raise (pack (error_fields e (length message))) struct_error) _ h2 in
    let (fit, same) = pack-eq-some (error_fields e (length message)) (or_raise-eq-ok _ _ made) in
    decodes message fine (utf8_decode-encode e.message (or_raise-eq-ok _ _ text)) fit
      (ap (λ p. encode_frame error_response r (p ++ message)) same ∙ framed)
  where
    decodes :
        (message : Bytes)
        → (status_value e.status == 0 || ltb max_error_bytes (length message)) ≡ false
        → utf8_decode message ≡ some e.message
        → Fit (error_fields e (length message))
        → encode_frame error_response r (packed (error_fields e (length message)) ++ message)
          ≡ ok packet
        → decode_error packet ≡ ok (r, e)
    decodes message fine text fit framed =
        let header = packed (error_fields e (length message)) in
        let head : length header ≡ 8 = length-packed (error_fields e (length message)) in
        let size : length (header ++ message) ≡ 8 + length message =
          omega (arith, length-append header message, head) in
        let rest : drop 8 (header ++ message) ≡ message =
          ap (λ n. drop n (header ++ message)) (sym head) ∙ drop-append header message in
        let body : decode_response (unpack error_widths (header ++ message)) (header ++ message)
            ≡ ok e =
          ap (λ vs. decode_response vs (header ++ message))
            (unpack-packed (error_fields e (length message)) message fit)
          ∙ decode_response_lem e (header ++ message) message fine rest text in
        rw (
          expect_frame-encode_frame error_response 8 r (header ++ message) framed
              (omega (arith, size)),
          body,
        )
