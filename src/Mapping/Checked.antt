-- ===== src/Mapping/Checked.antt =====
-- The views of a mapped buffer have passed its check, and are few.
use mathlib.Core.Path.{subst, ap₂}
use wmfs.Common.{
  both, ℕ, suc, ◌≤◌, ◌≡◌, refl, sym, ap, Bool, true, not, Option, none, some, List, [], ◌∷◌, ◌++◌,
  ltb, ok, or_raise, or_raise-eq-ok, first_ok, length, keep, any, All, All-append, All-drop, nat_eq,
  string_eq, Bool-cases, Result-cases, inl, inr, arith, length-append, length-drop, if_elim, ==_iff,
}
use wmfs.Common.Dict
use wmfs.Common.Dict.{Dict}
use wmfs.Common.Int.{ℤ, pos, negsuc}
use wmfs.Views.Mapped.{validate_view}
use wmfs.Mapping.Cache.{
  ViewKey, View, Views, MappedBuffer, Cache, find_view, new_view, cached_or_new, item_size_of,
  int_eq, ints_eq, same_view, move_to_end, insert_view, view_of, unsupported_dtype,
}

-- A view of its key that has passed the check of a buffer of `size` bytes.
pub record ViewOk (size : ℕ) (entry : ViewKey × View) : Type 0 where
  pub item_size : ℕ
  pub made : entry.1 ≡ new_view item_size entry.0
  pub known : item_size_of entry.0.dtype_name ≡ some item_size
  pub valid :
      validate_view size entry.0.offset entry.0.byte_length item_size entry.0.shape
        entry.0.byte_strides
      ≡ ok tt

pub record BufferOk (b : MappedBuffer) : Type 0 where
  pub views_ok : All (ViewOk b.byte_length) b.views
  pub few : length b.views ≤ 64

abbrev pub IsValid : Cache → Type 0
IsValid cache = All (λ entry. BufferOk entry.1) cache

All-keep : {A : Type 0} (P : A → Type 0) (p : A → Bool) (xs : List A) → All P xs → All P (keep p xs)
All-keep P p [] h = tt
All-keep P p (x ∷ xs) h = elim (Bool-cases (p x)) [
  | inl yes_kept ↦
      let e : keep p (x ∷ xs) ≡ x ∷ keep p xs = ground arith in
      subst (All P) (sym e) (h.0, All-keep P p xs h.1)
  | inr dropped ↦
      let e : keep p (x ∷ xs) ≡ keep p xs = ground arith in
      subst (All P) (sym e) (All-keep P p xs h.1)
]

length-keep : {A : Type 0} (p : A → Bool) (xs : List A) → length (keep p xs) ≤ length xs
length-keep p [] = omega arith
length-keep p (x ∷ xs) = ground (arith, length-keep p xs)

-- A kept view that is dropped makes room for the one that is put last.
length-keep_other :
    {A : Type 0} (p : A → Bool) (xs : List A)
    → any p xs ≡ true
    → suc (length (keep (λ x. not (p x)) xs)) ≤ length xs
length-keep_other p [] h = cc
length-keep_other p (x ∷ xs) h = elim (Bool-cases (p x)) [
  | inl same ↦ ground (arith, length-keep (λ y. not (p y)) xs)
  | inr other ↦ ground (arith, length-keep_other p xs (ground arith))
]

pub All-put :
    (i : ℕ) (b : MappedBuffer) (cache : Cache)
    → IsValid cache
    → BufferOk b
    → IsValid (Dict.put i b cache)
unfolding Dict.put
All-put i b [] h g = (g, tt)
All-put i b ((j, c) ∷ cache) h g = elim (Bool-cases (nat_eq.beq j i)) [
  | inl same ↦
      let e : Dict.put i b ((j, c) ∷ cache) ≡ (j, b) ∷ cache = rw same refl in
      subst IsValid (sym e) (g, h.1)
  | inr other ↦
      let e : Dict.put i b ((j, c) ∷ cache) ≡ (j, c) ∷ Dict.put i b cache = rw other refl in
      subst IsValid (sym e) (h.0, All-put i b cache h.1 g)
]

pub All-remove : (i : ℕ) (cache : Cache) → IsValid cache → IsValid (Dict.remove i cache)
unfolding Dict.remove
All-remove i [] h = tt
All-remove i ((j, c) ∷ cache) h = elim (Bool-cases (nat_eq.beq j i)) [
  | inl same ↦
      let e : Dict.remove i ((j, c) ∷ cache) ≡ Dict.remove i cache = rw same refl in
      subst IsValid (sym e) (All-remove i cache h.1)
  | inr other ↦
      let e : Dict.remove i ((j, c) ∷ cache) ≡ (j, c) ∷ Dict.remove i cache = rw other refl in
      subst IsValid (sym e) (h.0, All-remove i cache h.1)
]

pub get-BufferOk :
    (i : ℕ) (cache : Cache) {b : MappedBuffer}
    → IsValid cache
    → Dict.get i cache ≡ some b
    → BufferOk b
unfolding Dict.get
get-BufferOk i [] h found = cc
get-BufferOk i ((j, c) ∷ cache) {b} h found = elim (Bool-cases (nat_eq.beq j i)) [
  | inl same ↦ subst BufferOk (ground arith) h.0
  | inr other ↦ get-BufferOk i cache h.1 (ground arith)
]

int_eq→eq : (m n : ℤ) → int_eq m n ≡ true → m ≡ n
unfolding int_eq
int_eq→eq (pos m) (pos n) h = ap pos ((==_iff m n).0 h)
int_eq→eq (negsuc m) (negsuc n) h = ap negsuc ((==_iff m n).0 h)
int_eq→eq (pos m) (negsuc n) h = cc
int_eq→eq (negsuc m) (pos n) h = cc

ints_eq→eq : (ms ns : List ℤ) → ints_eq ms ns ≡ true → ms ≡ ns
unfolding ints_eq
ints_eq→eq [] [] h = refl
ints_eq→eq [] (n ∷ ns) h = cc
ints_eq→eq (m ∷ ms) [] h = cc
ints_eq→eq (m ∷ ms) (n ∷ ns) h =
    let (first, rest) = both (int_eq m n) (ints_eq ms ns) h in
    ap₂ ◌∷◌ (int_eq→eq m n first) (ints_eq→eq ms ns rest)

same_view→eq : (a b : ViewKey) → same_view a b ≡ true → a ≡ b
unfolding same_view
same_view→eq a b h =
    let (h1, e5) = both _ (ints_eq a.byte_strides b.byte_strides) h in
    let (h2, e4) = both _ (ints_eq a.shape b.shape) h1 in
    let (h3, e3) = both _ (string_eq.beq a.dtype_name b.dtype_name) h2 in
    let (h4, e2) = both _ (int_eq a.byte_length b.byte_length) h3 in
    let (e0, e1) = both _ (int_eq a.offset b.offset) h4 in
    cc (
      (==_iff _ _).0 e0,
      int_eq→eq _ _ e1,
      int_eq→eq _ _ e2,
      (string_eq.beq_iff a.dtype_name b.dtype_name).0 e3,
      ints_eq→eq _ _ e4,
      ints_eq→eq _ _ e5,
    )

-- A view that is found is one of the views, under the key.
find_view-All :
    (P : ViewKey × View → Type 0) (k : ViewKey) (views : Views) {view : View}
    → find_view k views ≡ some view
    → All P views
    → P (k, view) × (any (λ (j, _). same_view k j) views ≡ true)
unfolding find_view
find_view-All P k [] found h = cc
find_view-All P k ((j, v) ∷ views) {view} found h = elim (Bool-cases (same_view k j)) [
  | inl same ↦
      let key : ◌≡◌ {A = ViewKey × View} (j, v) (k, view) =
        ap₂ (λ i u. (i, u)) (sym (same_view→eq k j same)) (ground (arith, same, found)) in
      (subst P key h.0, rw same refl)
  | inr other ↦
      let (first, rest) = find_view-All P k views (rw other at found) h.1 in
      (first, rw (other, rest) refl)
]

insert_view-ok :
    (size : ℕ) (k : ViewKey) (view : View) (views : Views)
    → ViewOk size (k, view)
    → All (ViewOk size) views
    → length views ≤ 64
    → All (ViewOk size) (insert_view k view views) × (length (insert_view k view views) ≤ 64)
insert_view-ok size k view views ok_k all few =
    let more : All (ViewOk size) (views ++ (k, view) ∷ []) =
      All-append _ views ((k, view) ∷ []) all (ok_k, tt) in
    if_elim (λ l. All (ViewOk size) l × (length l ≤ 64)) (ltb 64 (length (views ++ (k, view) ∷ [])))
      _ _
      (λ full. (
        All-drop _ 1 (views ++ (k, view) ∷ []) more,
        omega (
          arith,
          length-drop 1 (views ++ (k, view) ∷ []),
          length-append views ((k, view) ∷ []),
          few,
        ),
      ))
      (λ fits. (more, ground arith))

-- What `cached_or_new` gives is the view of the key, and what it leaves is in order.
cached_or_new-BufferOk :
    (b : MappedBuffer) (k : ViewKey) (item_size : ℕ) (found : Option View) {views : Views}
    {view : View}
    → BufferOk b
    → item_size_of k.dtype_name ≡ some item_size
    → find_view k b.views ≡ found
    → cached_or_new b k item_size found ≡ ok (views, view)
    → BufferOk (record b { views = views }) × ViewOk b.byte_length (k, view)
unfolding cached_or_new
cached_or_new-BufferOk b k item_size (some cached) {views} {view} v known found h =
    let (ok_k, there) = find_view-All (ViewOk b.byte_length) k b.views found v.views_ok in
    let e : ◌≡◌ {A = Views × View} (move_to_end k cached b.views, cached) (views, view) = cc h in
    subst
      (λ (x : Views × View). BufferOk (record b { views = x.0 }) × ViewOk b.byte_length (k, x.1)) e
      (
        record {
          views_ok = All-append _ _ ((k, cached) ∷ []) (All-keep _ _ b.views v.views_ok) (ok_k, tt);
          few = omega (
            arith,
            v.few,
            length-keep_other (λ (j, _). same_view k j) b.views there,
            length-append (keep (λ (j, _). not (same_view k j)) b.views) ((k, cached) ∷ []),
          );
        },
        ok_k,
      )
cached_or_new-BufferOk b k item_size none {views} {view} v known found h =
    elim (Result-cases
      (validate_view b.byte_length k.offset k.byte_length item_size k.shape k.byte_strides)) [
        | inl (_, valid) ↦
            let e : ◌≡◌ {A = Views × View}
                (insert_view k (new_view item_size k) b.views, new_view item_size k) (views, view) =
              cc (rw valid at h) in
            let ok_k : ViewOk b.byte_length (k, new_view item_size k) = record {
              item_size = item_size;
              made = refl;
              known = known;
              valid = valid;
            } in
            let (all, few) = insert_view-ok b.byte_length k _ b.views ok_k v.views_ok v.few in
            subst
              (λ (x : Views × View).
                BufferOk (record b { views = x.0 }) × ViewOk b.byte_length (k, x.1))
              e (record { views_ok = all; few = few }, ok_k)
        | inr (e, bad) ↦ absurd (cc (rw bad at h))
      ]

-- The views that `view_of` leaves are in order, and it gives the view of the key.
pub view_of-BufferOk :
    (b : MappedBuffer) (k : ViewKey) {views : Views} {view : View}
    → BufferOk b
    → view_of b k ≡ ok (views, view)
    → BufferOk (record b { views = views }) × ViewOk b.byte_length (k, view)
unfolding view_of
view_of-BufferOk b k v h =
    let (size, known, h1) = first_ok (or_raise (item_size_of k.dtype_name) unsupported_dtype) _ h in
    cached_or_new-BufferOk b k size (find_view k b.views) v (or_raise-eq-ok _ _ known) refl h1
