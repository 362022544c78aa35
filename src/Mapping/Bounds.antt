-- ===== src/Mapping/Bounds.antt =====
-- A worker's views lie inside the buffers that it has mapped, whatever it is told to map, retire and
-- finish.
use mathlib.Core.Path.{subst}
use wmfs.Common.{
  ℕ, ◌+◌, ◌*◌, ◌/◌, ◌≤◌, Result, ◌≡◌, sym, ◌∙◌, ap, Bool, false, not, ◌&&◌, some, List, [], ◌∷◌, ok,
  or_raise, or_raise-eq-ok, first_ok, checked-eq-ok, length, All, ◌⊎◌, nat_eq, string_eq,
  Option-cases, inl, inr, arith, if_elim,
}
use wmfs.Common.Dict
use wmfs.Common.Dict.{Dict}
use wmfs.Common.Int.{pos_part}
use wmfs.Views.Extent.{address, IsIndex}
use wmfs.Views.Mapped.{naturals, element_strides, validate_view-in_bounds}
use wmfs.Mapping.Cache.{
  ViewKey, View, new_view, CacheError, MappedBuffer, Cache, MappedFile, add, retire, invalidate,
  is_expired, finish_invocation, item_size_of, check_buffer, view_of, tensor, unmapped,
}
use wmfs.Mapping.Checked.{ViewOk, IsValid, All-put, All-remove, get-BufferOk, view_of-BufferOk}

pub tensor-IsValid :
    (cache : Cache) (i g : ℕ) (k : ViewKey) (invocation : ℕ) (w : Bool) {left : Cache}
    {given : View}
    → IsValid cache
    → tensor cache i g k invocation w ≡ ok (left, given)
    → IsValid left
unfolding tensor
tensor-IsValid cache i g k invocation w {left} {given} v h =
    let (b, found, h1) = first_ok (or_raise (Dict.get i cache) unmapped) _ h in
    let (_, passed, h2) = first_ok (check_buffer b g k.allocation_id invocation w) _ h1 in
    let ((views, view), viewed, h3) = first_ok (view_of b k) _ h2 in
    let e : Dict.put i (record b { views = views }) cache ≡ left = cc in
    subst IsValid e (
      All-put i (record b { views = views }) cache v
        ((view_of-BufferOk b k (get-BufferOk i cache v (or_raise-eq-ok _ _ found)) viewed).0))

add_cases :
    (cache : Cache) (i : ℕ) (b : MappedBuffer) (file : MappedFile)
    → ((add cache i b file).0 ≡ cache) ⊎ ((add cache i b file).0 ≡ Dict.put i b cache)
unfolding add
add_cases cache i b file = elim (Option-cases (Dict.get i cache)) [
  | inl fresh ↦ ground (arith, fresh)
  | inr (existing, there) ↦ inl (ground (arith, there))
]

add-IsValid :
    (cache : Cache) (i : ℕ) (b : MappedBuffer) (file : MappedFile)
    → IsValid cache
    → b.views ≡ []
    → IsValid (add cache i b file).0
add-IsValid cache i b file v none_yet = elim (add_cases cache i b file) [
  | inl same ↦ subst IsValid (sym same) v
  | inr new ↦ subst IsValid (sym new) (
      All-put i b cache v (record {
        views_ok = subst (All (ViewOk b.byte_length)) (sym none_yet) tt;
        few = omega (arith, ap length none_yet);
      }))
]

retire_cases :
    (cache : Cache) (i g a : ℕ)
    → ((retire cache i g a).0 ≡ cache) ⊎ ((retire cache i g a).0 ≡ Dict.remove i cache)
unfolding retire
retire_cases cache i g a = elim (Option-cases (Dict.get i cache)) [
  | inl fresh ↦ inl (ground (arith, fresh))
  | inr (existing, there) ↦ ground (arith, there)
]

retire-IsValid : (cache : Cache) (i g a : ℕ) → IsValid cache → IsValid (retire cache i g a).0
retire-IsValid cache i g a v = elim (retire_cases cache i g a) [
  | inl same ↦ subst IsValid (sym same) v
  | inr gone ↦ subst IsValid (sym gone) (All-remove i cache v)
]

finish_invocation-IsValid :
    (cache : Cache) (invocation : ℕ) → IsValid cache → IsValid (finish_invocation cache invocation)
unfolding finish_invocation
finish_invocation-IsValid [] invocation v = tt
finish_invocation-IsValid ((i, b) ∷ cache) invocation v =
    let rest = finish_invocation-IsValid cache invocation v.1 in
    if_elim IsValid (is_expired invocation b) _ _ (λ expired. rest) (λ kept. (v.0, rest))

-- What a worker does with its cache: the receiver's thread maps, retires and invalidates, the other
-- one makes tensors and finishes invocations.
pub data Step (c d : Cache) : Type 0 where
  adds :
      (i : ℕ) (b : MappedBuffer) (file : MappedFile)
      → b.views ≡ []
      → d ≡ (add c i b file).0
      → Step c d
  retires : (i g a : ℕ) → d ≡ (retire c i g a).0 → Step c d
  invalidates : d ≡ invalidate c → Step c d
  finishes : (invocation : ℕ) → d ≡ finish_invocation c invocation → Step c d
  makes :
      (i g : ℕ) (k : ViewKey) (invocation : ℕ) (w : Bool) (given : View)
      → tensor c i g k invocation w ≡ ok (d, given)
      → Step c d

pub data Reach : Cache → Type 0 where
  start : Reach []
  step : {c d : Cache} → Reach c → Step c d → Reach d

Step-IsValid : {c d : Cache} → Step c d → IsValid c → IsValid d
Step-IsValid {c} (adds i b file none_yet e) v =
    subst IsValid (sym e) (add-IsValid c i b file v none_yet)
Step-IsValid {c} (retires i g a e) v = subst IsValid (sym e) (retire-IsValid c i g a v)
Step-IsValid (invalidates e) v = subst IsValid (sym e) tt
Step-IsValid {c} (finishes invocation e) v =
    subst IsValid (sym e) (finish_invocation-IsValid c invocation v)
Step-IsValid {c} (makes i g k invocation w given h) v = tensor-IsValid c i g k invocation w v h

Reach-IsValid : {c : Cache} → Reach c → IsValid c
Reach-IsValid start = tt
Reach-IsValid (step r s) = Step-IsValid s (Reach-IsValid r)

-- In every state that a worker's cache reaches, a tensor that it gives, cached or new, has the dtype,
-- the shape, the strides and the offset that are asked for, of a buffer of that generation that is
-- mapped writable where that is required, and each of its elements lies inside that buffer.
pub Reach-tensor :
    {cache : Cache} (i g : ℕ) (k : ViewKey) (invocation : ℕ) (w : Bool) {left : Cache}
    {given : View}
    → Reach cache
    → tensor cache i g k invocation w ≡ ok (left, given)
    → (b : MappedBuffer) × (item_size : ℕ) × (Dict.get i cache ≡ some b)
      × (b.generation ≡ g)
      × ((w && not b.writable) ≡ false)
      × (item_size_of given.dtype_name ≡ some item_size)
      × (given.dtype_name ≡ k.dtype_name)
      × (given.shape ≡ k.shape)
      × (given.strides ≡ element_strides item_size k.byte_strides)
      × (given.storage_offset ≡ pos_part k.offset / item_size)
      × ((is : List ℕ)
          → IsIndex is (naturals given.shape)
          → (given.storage_offset + address is given.strides) * item_size + item_size
            ≤ b.byte_length)
unfolding tensor check_buffer
Reach-tensor {cache} i g k invocation w {left} {given} r h =
    let v = Reach-IsValid r in
    let (b, found, h1) = first_ok (or_raise (Dict.get i cache) unmapped) _ h in
    let (_, passed, h2) = first_ok (check_buffer b g k.allocation_id invocation w) _ h1 in
    let ((views, view), viewed, h3) = first_ok (view_of b k) _ h2 in
    let (p, _) = checked-eq-ok _ _ passed in
    let there = or_raise-eq-ok _ _ found in
    let ok_k = (view_of-BufferOk b k (get-BufferOk i cache v there) viewed).1 in
    let made : new_view ok_k.item_size k ≡ given = sym ok_k.made ∙ view_given h3 in
    (
      b,
      ok_k.item_size,
      there,
      ground (arith, p.0),
      p.1.1.0,
      subst (λ (u : View). item_size_of u.dtype_name ≡ some ok_k.item_size) made ok_k.known,
      sym (ap (λ (u : View). u.dtype_name) made),
      sym (ap (λ (u : View). u.shape) made),
      sym (ap (λ (u : View). u.strides) made),
      sym (ap (λ (u : View). u.storage_offset) made),
      subst
          (λ (u : View).
            (is : List ℕ)
            → IsIndex is (naturals u.shape)
            → (u.storage_offset + address is u.strides) * ok_k.item_size + ok_k.item_size
              ≤ b.byte_length)
          made
          (λ is index.
            validate_view-in_bounds b.byte_length k.offset k.byte_length ok_k.item_size k.shape
              k.byte_strides is ok_k.valid index),
    )
  where
    view_given :
        {c : Cache} {u : View}
        → ◌≡◌ {A = Result CacheError (Cache × View)} (ok (c, u)) (ok (left, given))
        → u ≡ given
    view_given h = cc h
