-- ===== src/Ring/Record/Transport.antt =====
-- packages/wmfs/wmfs/transport/ring.py: the codec of the records is the codec of an endpoint, `push`
-- and `pop` call it.
use wmfs.Common.{ℕ, ◌+◌, ◌^◌, ◌<◌, some, [], ◌≡◌, sym, ap, ◌∙◌, Result, ok, err}
use wmfs.Common.Bytes.{Bytes}
use wmfs.Ring.Model.{RingError, invalid_record, Codec, Ring, try_push, try_pop}
use wmfs.Ring.Window.{pending}
use wmfs.Ring.Queue.{IsValid, try_pop-try_push}
use wmfs.Ring.Record.{RecordError, Record}
use wmfs.Ring.Record.Encode.{encode}
use wmfs.Ring.Record.Decode.{decode}
use wmfs.Ring.Record.RoundTrip.{IsExact, decode-encode}

-- Any exception of the codec, a `UnicodeDecodeError` too, is one error of the endpoint.
abbrev pub raised {ℓ} : {A : Type ℓ} → Result RecordError A → Result RingError A
raised (ok a) = ok a
raised (err e) = err invalid_record

raised-eq-ok {ℓ} : {A : Type ℓ} (m : Result RecordError A) {a : A} → raised m ≡ ok a → m ≡ ok a
raised-eq-ok (ok b) h = cc h
raised-eq-ok (err e) h = absurd (cc h)

pub raised_decode-encode :
    (generation : ℕ) (r : Record) {packet : Bytes}
    → IsExact r × (r.generation ≡ generation)
    → raised (encode r) ≡ ok packet
    → raised (decode packet generation) ≡ ok r
raised_decode-encode generation r {packet} (exact, same) h =
    let back = decode-encode r exact (raised-eq-ok (encode r) h) in
    ap (λ g. raised (decode packet g)) (sym same) ∙ ap raised (back.1)

-- The codec of an endpoint of a generation.
abbrev pub record_codec : ℕ → Codec
record_codec generation = record {
  Item = Record;
  Raw = Bytes;
  encode = λ r. raised (encode r);
  decode = λ packet. raised (decode packet generation);
  IsExact = λ r. IsExact r × (r.generation ≡ generation);
  decode-encode = raised_decode-encode generation;
}

-- A record of the ring's generation that is pushed on a valid ring with nothing pending is the record
-- that is popped next, and nothing is pending after it, where each integer scalar of the record has
-- room in 64 bits, the error's type has at most 64 bytes in UTF-8 and its message at most 1024, and
-- fewer than 2 ^ 64 - 1 records have been pushed before.
pub try_pop-encode :
    (ring : Ring Bytes) {ring' : Ring Bytes} (r : Record) {packet : Bytes}
    → IsValid ring
    → ring.producer + 1 < 2 ^ 64
    → pending ring ≡ []
    → IsExact r
    → r.generation ≡ ring.generation
    → encode r ≡ ok packet
    → try_push ring packet ≡ ok (some ring')
    → (after : Ring Bytes) × (try_pop (record_codec ring.generation) ring' ≡ ok (some (r, after)))
      × (pending after ≡ [])
try_pop-encode ring r valid room empty exact same encoded pushed =
    try_pop-try_push (record_codec ring.generation) r valid room empty (exact, same)
      (ap raised encoded) pushed
