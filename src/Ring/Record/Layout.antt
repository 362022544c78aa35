-- ===== src/Ring/Record/Layout.antt =====
-- Where the areas of a record are.
use wmfs.Common.{
  ℕ, ◌+◌, ◌-◌, false, List, ◌++◌, append_assoc, ◌≡◌, sym, ap, ◌∙◌, arith, any, length, take, drop,
  length-append, drop_front, take_front, Result, ok,
}
use wmfs.Common.Bytes.{Bytes, unpack, drop-drop}
use wmfs.Ring.Record.{RecordError, area, zeros}
use wmfs.Ring.Record.Signed.{any-zeros, length-zeros, is_nonzero}
use wmfs.Ring.Record.Decode.{read_slots}

-- Seven parts of the sizes of the areas, each at its offset.
abbrev pub Parts : Bytes → Bytes → Bytes → Bytes → Bytes → Bytes → Bytes → Bytes
Parts a b c d e f g = a ++ (b ++ (c ++ (d ++ (e ++ (f ++ g)))))

next :
    (m n : ℕ) (packet part later : Bytes)
    → drop m packet ≡ part ++ later
    → length part ≡ n
    → drop (n + m) packet ≡ later
next m n packet part later h e =
    sym (drop-drop n m packet) ∙ ap (drop n) h ∙ drop_front n part later e

module _ (a b c d e f g : Bytes) (la : length a ≡ 128) (lb : length b ≡ 4992) (lc : length c ≡ 4480)
    (ld : length d ≡ 2304) (le : length e ≡ 64) (lf : length f ≡ 1104) where
  pub at_tensors : drop 128 (Parts a b c d e f g) ≡ b ++ (c ++ (d ++ (e ++ (f ++ g))))
  at_tensors = drop_front 128 a (b ++ (c ++ (d ++ (e ++ (f ++ g))))) la

  pub at_scalars : drop 5120 (Parts a b c d e f g) ≡ c ++ (d ++ (e ++ (f ++ g)))
  at_scalars = next 128 4992 (Parts a b c d e f g) b _ at_tensors lb

  pub at_outputs : drop 9600 (Parts a b c d e f g) ≡ d ++ (e ++ (f ++ g))
  at_outputs = next 5120 4480 (Parts a b c d e f g) c _ at_scalars lc

  pub at_profile : drop 11904 (Parts a b c d e f g) ≡ e ++ (f ++ g)
  at_profile = next 9600 2304 (Parts a b c d e f g) d _ at_outputs ld

  pub at_error : drop 11968 (Parts a b c d e f g) ≡ f ++ g
  at_error = next 11904 64 (Parts a b c d e f g) e _ at_profile le

  pub at_tail : drop 13072 (Parts a b c d e f g) ≡ g
  at_tail = next 11968 1104 (Parts a b c d e f g) f g at_error lf

  pub length-Parts : length g ≡ 3312 → length (Parts a b c d e f g) ≡ 16384
  length-Parts lg = omega (
    arith,
    length-append a (b ++ (c ++ (d ++ (e ++ (f ++ g))))),
    length-append b (c ++ (d ++ (e ++ (f ++ g)))),
    length-append c (d ++ (e ++ (f ++ g))),
    length-append d (e ++ (f ++ g)),
    length-append e (f ++ g),
    length-append f g,
    la,
    lb,
    lc,
    ld,
    le,
    lf,
    lg,
  )

-- The 76 bytes behind the header are zero.
pub reserved_zero :
    (header later : Bytes)
    → length header ≡ 52
    → any is_nonzero (take 76 (drop 52 (area 128 header ++ later))) ≡ false
unfolding area
reserved_zero header later h =
    let behind : drop 52 ((header ++ zeros (128 - length header)) ++ later)
        ≡ zeros (128 - length header) ++ later =
      ap (drop 52) (append_assoc header (zeros (128 - length header)) later)
      ∙ drop_front 52 header (zeros (128 - length header) ++ later) h in
    let size : length (zeros (128 - length header)) ≡ 76 =
      omega (arith, length-zeros (128 - length header), h) in
    ap (λ b. any is_nonzero (take 76 b)) behind
    ∙ ap (any is_nonzero) (take_front 76 (zeros (128 - length header)) later size)
    ∙ any-zeros (128 - length header)

pub unpack-area :
    (widths : List ℕ) (size : ℕ) (part later : Bytes) {values : List ℕ}
    → ((rest : Bytes) → unpack widths (part ++ rest) ≡ values)
    → unpack widths (area size part ++ later) ≡ values
unfolding area
unpack-area widths size part later h =
    ap (unpack widths) (append_assoc part (zeros (size - length part)) later)
    ∙ h (zeros (size - length part) ++ later)

-- A loop over the slots of an area reads what has been joined in it.
pub from_area :
    {A : Type 0} (read : Bytes → Result RecordError A) (slot size count : ℕ) (part later : Bytes)
    {xs : List A}
    → ((rest : Bytes) → read_slots read slot count (part ++ rest) ≡ ok xs)
    → read_slots read slot count (area size part ++ later) ≡ ok xs
unfolding area
from_area read slot size count part later h =
    ap (read_slots read slot count) (append_assoc part (zeros (size - length part)) later)
    ∙ h (zeros (size - length part) ++ later)
