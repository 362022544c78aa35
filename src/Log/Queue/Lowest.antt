-- ===== src/Log/Queue/Lowest.antt =====
-- packages/wmfs-plugin/wmfs_plugin/logging.py: which record a full queue loses.
use wmfs.Common.{
  ℕ, zero, suc, ◌+◌, ◌<◌, ◌≤◌, some, List, [], ◌∷◌, ◌++◌, ltb, ltb→lt, Bool-cases, inl, inr, ◌≡◌,
  refl, ap, ◌∙◌, arith, length, All,
}
use mathlib.Core.Path.{subst}
use wmfs.Log.{LogRecord}
use wmfs.Log.Queue.{lowest_from, lowest, drop_at}

-- The index is one of the list, and no level is below the least.
abbrev IsLeast : ℕ → ℕ → List LogRecord → ℕ × ℕ → Type 0
IsLeast size least rs found =
    (found.0 < size) × (found.1 ≤ least) × All (λ (r : LogRecord). found.1 ≤ r.level) rs

lowest_from-IsLeast :
    (best least i : ℕ) (rs : List LogRecord)
    → best < i
    → IsLeast (i + length rs) least rs (lowest_from best least i rs)
unfolding lowest_from
lowest_from-IsLeast best least i [] inside = (omega arith, omega arith, tt)
lowest_from-IsLeast best least i (r ∷ rs) inside = elim (Bool-cases (ltb r.level least)) [
  | inl lower ↦
      let (index, low, all) = lowest_from-IsLeast i r.level (i + 1) rs (omega arith) in
      let found : lowest_from i r.level (i + 1) rs ≡ lowest_from best least i (r ∷ rs) =
        rw lower refl in
      subst (IsLeast (i + length (r ∷ rs)) least (r ∷ rs)) found
        (omega (arith, index), omega (arith, low, ltb→lt _ _ lower), (low, all))
  | inr same ↦
      let (index, low, all) = lowest_from-IsLeast best least (i + 1) rs (omega arith) in
      let above : least ≤ r.level = ground (arith, same) in
      let found : lowest_from best least (i + 1) rs ≡ lowest_from best least i (r ∷ rs) =
        rw same refl in
      subst (IsLeast (i + length (r ∷ rs)) least (r ∷ rs)) found
        (omega (arith, index), low, (omega (arith, low, above), all))
]

pub lowest-least :
    (rs : List LogRecord) {index least : ℕ}
    → lowest rs ≡ some (index, least)
    → (index < length rs) × All (λ (r : LogRecord). least ≤ r.level) rs
unfolding lowest
lowest-least [] h = absurd (cc h)
lowest-least (r ∷ rs) {index} {least} h =
    let same : ◌≡◌ {A = ℕ × ℕ} (lowest_from 0 r.level 1 rs) (index, least) = cc h in
    let (inside, low, all) = lowest_from-IsLeast 0 r.level 1 rs (omega arith) in
    subst (λ (p : ℕ × ℕ). (p.0 < length (r ∷ rs)) × All (λ (q : LogRecord). p.1 ≤ q.level) (r ∷ rs))
      same (omega (arith, inside), (low, all))

pub length-drop_at {ℓ} :
    {A : Type ℓ} (i : ℕ) (xs : List A) → i < length xs → length (drop_at i xs) + 1 ≡ length xs
unfolding drop_at
length-drop_at i [] h = absurd (omega (arith, h))
length-drop_at zero (x ∷ xs) h = omega arith
length-drop_at (suc i) (x ∷ xs) h = omega (arith, length-drop_at i xs (omega (arith, h)))

pub drop_at-append {ℓ} :
    {A : Type ℓ} (i : ℕ) (xs ys : List A) → drop_at (length xs + i) (xs ++ ys) ≡ xs ++ drop_at i ys
unfolding drop_at
drop_at-append i [] ys = let e : 0 + i ≡ i = omega arith in ap (λ k. drop_at k ys) e
drop_at-append i (x ∷ xs) ys =
    let e : suc (length xs) + i ≡ suc (length xs + i) = omega arith in
    ap (λ k. drop_at k (x ∷ (xs ++ ys))) e ∙ ap (λ zs. x ∷ zs) (drop_at-append i xs ys)

-- Sequence numbers that grow from above `lo` up to `hi`.
abbrev pub Between : ℕ → ℕ → List LogRecord → Type 0
Between lo hi [] = lo ≤ hi
Between lo hi (r ∷ rs) = (lo < r.sequence) × Between r.sequence hi rs

pub Between-lower :
    (lo low hi : ℕ) (rs : List LogRecord) → low ≤ lo → Between lo hi rs → Between low hi rs
Between-lower lo low hi [] h b = omega (arith, h, b)
Between-lower lo low hi (r ∷ rs) h b = (omega (arith, h, b.0), b.1)

pub Between-higher :
    (lo hi high : ℕ) (rs : List LogRecord) → hi ≤ high → Between lo hi rs → Between lo high rs
Between-higher lo hi high [] h b = omega (arith, h, b)
Between-higher lo hi high (r ∷ rs) h b = (b.0, Between-higher r.sequence hi high rs h b.1)

pub Between-snoc :
    (lo hi : ℕ) (rs : List LogRecord) (r : LogRecord)
    → hi < r.sequence
    → Between lo hi rs
    → Between lo r.sequence (rs ++ r ∷ [])
Between-snoc lo hi [] r h b = (omega (arith, h, b), omega arith)
Between-snoc lo hi (q ∷ rs) r h b = (b.0, Between-snoc q.sequence hi rs r h b.1)

pub Between-drop_at :
    (i lo hi : ℕ) (rs : List LogRecord) → Between lo hi rs → Between lo hi (drop_at i rs)
unfolding drop_at
Between-drop_at i lo hi [] b = b
Between-drop_at zero lo hi (r ∷ rs) b = Between-lower r.sequence lo hi rs (omega (arith, b.0)) b.1
Between-drop_at (suc i) lo hi (r ∷ rs) b = (b.0, Between-drop_at i r.sequence hi rs b.1)
