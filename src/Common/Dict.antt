-- ===== src/Common/Dict.antt =====
-- Python's `dict` as an association list in insertion order. A key is never stored twice, so
-- dropping every entry of a key is dropping its one entry.
use wmfs.Common.Tests.{Eq, if◌then◌else◌}
use mathlib.Core.Path.{◌≡◌, refl}
use mathlib.Core.Bool.{true}
use mathlib.Core.Option.{Option, none, some}
use mathlib.Core.List.{List, [], ◌∷◌, ◌++◌}
use native.Mathlib.Omega.{arith}

abbrev pub Dict {ℓ κ} : Type ℓ → Type κ → Type (ℓ ⊔ κ)
Dict K V = List (K × V)

-- d.keys()
abbrev pub keys {ℓ κ} : {K : Type ℓ} {V : Type κ} → Dict K V → List K
keys [] = []
keys ((k, v) ∷ d) = k ∷ keys d

module _ {ℓ κ} {K : Type ℓ} {V : Type κ} ⦃e : Eq K⦄ where
  -- d.get(k)
  unfoldable pub get : K → Dict K V → Option V
  get k [] = none
  get k ((j, v) ∷ d) = if e.beq j k then some v else get k d

  -- d[k] = v
  unfoldable pub put : K → V → Dict K V → Dict K V
  put k v [] = (k, v) ∷ []
  put k v ((j, w) ∷ d) = if e.beq j k then (j, v) ∷ d else (j, w) ∷ put k v d

  -- del d[k], d.pop(k, None)
  unfoldable pub remove : K → Dict K V → Dict K V
  remove k [] = []
  remove k ((j, w) ∷ d) = let rest = remove k d in if e.beq j k then rest else (j, w) ∷ rest

  -- d.setdefault(k, v), for its effect
  unfoldable pub set_default : K → V → Dict K V → Dict K V
  set_default k v [] = (k, v) ∷ []
  set_default k v ((j, w) ∷ d) = if e.beq j k then (j, w) ∷ d else (j, w) ∷ set_default k v d

  pub get-put :
      (k j : K) (v : V) (d : Dict K V) → get j (put k v d) ≡ (if e.beq k j then some v else get j d)
  unfolding get put
  get-put k j v [] = refl
  get-put k j v ((i, w) ∷ d) =
      ground (arith, e.beq_iff k j, e.beq_iff i k, e.beq_iff i j, get-put k j v d)

  pub get-remove :
      (k j : K) (d : Dict K V) → get j (remove k d) ≡ (if e.beq k j then none else get j d)
  unfolding get remove
  get-remove k j [] = ground arith
  get-remove k j ((i, w) ∷ d) =
      ground (arith, e.beq_iff k j, e.beq_iff i k, e.beq_iff i j, get-remove k j d)

pub beq_refl {ℓ} : {K : Type ℓ} ⦃e : Eq K⦄ (k : K) → e.beq k k ≡ true
beq_refl ⦃e⦄ k = (e.beq_iff k k).1 refl

pub ruleset dict_laws = (get-put, get-remove, beq_refl)

-- No key is stored twice, as in every dictionary that `put` and `remove` build.
abbrev pub UniqueKeys {ℓ κ} : {K : Type ℓ} {V : Type κ} ⦃e : Eq K⦄ → Dict K V → Type κ
UniqueKeys [] = Unit
UniqueKeys ((k, v) ∷ d) = (get k d ≡ none) × UniqueKeys d

module _ {ℓ κ} {K : Type ℓ} {V : Type κ} ⦃e : Eq K⦄ where
  pub UniqueKeys-put : (k : K) (v : V) (d : Dict K V) → UniqueKeys d → UniqueKeys (put k v d)
  unfolding get put
  UniqueKeys-put k v [] u = (refl, tt)
  UniqueKeys-put k v ((j, w) ∷ d) u =
      ground (arith, e.beq_iff j k, e.beq_iff k j, get-put k j v d, UniqueKeys-put k v d u.1)

  pub UniqueKeys-remove : (k : K) (d : Dict K V) → UniqueKeys d → UniqueKeys (remove k d)
  unfolding get remove
  UniqueKeys-remove k [] u = tt
  UniqueKeys-remove k ((j, w) ∷ d) u = ground (arith, get-remove k j d, UniqueKeys-remove k d u.1)

  get-none-middle :
      (k j : K) (v : V) (d f : Dict K V)
      → get k (d ++ (j, v) ∷ f) ≡ none
      → get k ((j, v) ∷ []) ≡ none
  unfolding get
  get-none-middle k j v [] f h = ground arith
  get-none-middle k j v ((i, w) ∷ d) f h = ground (arith, get-none-middle k j v d f)

  -- A key between others is none of those before it.
  pub UniqueKeys-fresh :
      (k : K) (v : V) (d f : Dict K V) → UniqueKeys (d ++ (k, v) ∷ f) → get k d ≡ none
  unfolding get
  UniqueKeys-fresh k v [] f u = refl
  UniqueKeys-fresh k v ((j, w) ∷ d) f u = ground (
    arith,
    e.beq_iff j k,
    e.beq_iff k j,
    get-none-middle j k v d f (u.0),
    UniqueKeys-fresh k v d f u.1,
  )

  -- A key that is not stored is put at the end, and its removal changes nothing.
  pub put-fresh : (k : K) (v : V) (d : Dict K V) → get k d ≡ none → put k v d ≡ d ++ (k, v) ∷ []
  unfolding get put
  put-fresh k v [] h = refl
  put-fresh k v ((j, w) ∷ d) h = ground (arith, put-fresh k v d)

  pub remove-absent : (k : K) (d : Dict K V) → get k d ≡ none → remove k d ≡ d
  unfolding get remove
  remove-absent k [] h = refl
  remove-absent k ((j, w) ∷ d) h = ground (arith, remove-absent k d)
