-- ===== src/Buffers/Access/Requests.antt =====
-- The dictionary of accesses that `reserve_access` builds from the tensors that it is given.
use wmfs.Common.{
  ℕ, ◌+◌, ◌≤◌, ◌≡◌, refl, Bool, true, false, ◌&&◌, Bool-cases, inl, inr, some, none, List, [], ◌∷◌,
  ◌==◌, if◌then◌else◌, any, arith,
}
use wmfs.Common.Dict
use wmfs.Common.Dict.{get-put}
use wmfs.Buffers.Access.Keys.{AccessKey, key_eq, key_eq_iff, access_key_eq}
use wmfs.Buffers.Access.Model.{Accesses, requested, collect_reads, collect_writes}
use wmfs.Buffers.Access.Counts.{count_items, IsDict}

abbrev pub total : AccessKey → Accesses → ℕ
total k acc = count_items k false acc + count_items k true acc

-- An item more for a key that had none, and no item more for any other.
abbrev with_one : Bool → ℕ → ℕ
with_one hit n = if hit && n == 0 then 1 else n

count_item :
    (k j : AccessKey) (b : Bool) (acc : Accesses)
    → total k ((j, b) ∷ acc) ≡ (if key_eq j k then 1 else 0) + total k acc
count_item k j true acc = omega arith
count_item k j false acc = omega arith

total-put :
    (k j : AccessKey) (b : Bool) (acc : Accesses)
    → total k (Dict.put j b acc) ≡ with_one (key_eq j k) (total k acc)
unfolding Dict.put
total-put k j b [] = rw count_item (ground arith)
total-put k j b ((i, c) ∷ acc) = elim (Bool-cases (key_eq i j)) [
  | inl same ↦
      rw (same, count_item k i b acc, count_item k i c acc) (ground (arith, key_eq_iff i j))
  | inr other ↦
      rw (other, count_item k i c (Dict.put j b acc), count_item k i c acc, total-put k j b acc)
        (ground (arith, key_eq_iff i k, key_eq_iff j k, key_eq_iff i j))
]

total-set_default :
    (k j : AccessKey) (b : Bool) (acc : Accesses)
    → total k (Dict.set_default j b acc) ≡ with_one (key_eq j k) (total k acc)
unfolding Dict.set_default
total-set_default k j b [] = rw count_item (ground arith)
total-set_default k j b ((i, c) ∷ acc) = elim (Bool-cases (key_eq i j)) [
  | inl same ↦ rw (same, count_item k i c acc) (ground (arith, key_eq_iff i j))
  | inr other ↦
      rw
        (
          other,
          count_item k i c (Dict.set_default j b acc),
          count_item k i c acc,
          total-set_default k j b acc,
        )
        (ground (arith, key_eq_iff i k, key_eq_iff j k, key_eq_iff i j))
]

with_one-le : (hit : Bool) (n : ℕ) → n ≤ 1 → with_one hit n ≤ 1
with_one-le hit n h = ground arith

collect_reads-IsDict :
    (ks : List AccessKey) (acc : Accesses) → IsDict acc → IsDict (collect_reads ks acc)
unfolding collect_reads
collect_reads-IsDict [] acc d = d
collect_reads-IsDict (j ∷ ks) acc d =
    collect_reads-IsDict ks (Dict.set_default j false acc)
      (λ k. rw total-set_default (with_one-le (key_eq j k) _ (d k)))

collect_writes-IsDict :
    (ks : List AccessKey) (acc : Accesses) → IsDict acc → IsDict (collect_writes ks acc)
unfolding collect_writes
collect_writes-IsDict [] acc d = d
collect_writes-IsDict (j ∷ ks) acc d =
    collect_writes-IsDict ks (Dict.put j true acc)
      (λ k. rw total-put (with_one-le (key_eq j k) _ (d k)))

-- The requested accesses are a dictionary: no key is stored twice.
pub requested-IsDict : (reads writes : List AccessKey) → IsDict (requested reads writes)
unfolding requested
requested-IsDict reads writes =
    collect_writes-IsDict writes (collect_reads reads [])
      (collect_reads-IsDict reads [] (λ k. omega arith))

get-set_default :
    (k j : AccessKey) (b : Bool) (acc : Accesses)
    → Dict.get k (Dict.set_default j b acc)
      ≡ (elim (Dict.get k acc) [ some c ↦ some c | none ↦ if key_eq j k then some b else none ])
unfolding Dict.get Dict.set_default
get-set_default k j b [] = ground arith
get-set_default k j b ((i, c) ∷ acc) =
    ground (arith, get-set_default k j b acc, key_eq_iff i k, key_eq_iff j k, key_eq_iff i j)

get-collect_reads :
    (k : AccessKey) (ks : List AccessKey) (acc : Accesses)
    → Dict.get k (collect_reads ks acc) ≡ (elim (Dict.get k acc) [
      | some c ↦ some c
      | none ↦ if any (λ j. key_eq j k) ks then some false else none
    ])
unfolding collect_reads
get-collect_reads k [] acc = ground arith
get-collect_reads k (j ∷ ks) acc =
    ground
      (arith, get-collect_reads k ks (Dict.set_default j false acc), get-set_default k j false acc)

get-collect_writes :
    (k : AccessKey) (ks : List AccessKey) (acc : Accesses)
    → Dict.get k (collect_writes ks acc)
      ≡ (if any (λ j. key_eq j k) ks then some true else Dict.get k acc)
unfolding collect_writes
get-collect_writes k [] acc = refl
get-collect_writes k (j ∷ ks) acc =
    ground (arith, get-collect_writes k ks (Dict.put j true acc), get-put j k true acc)

-- `reserve_access` asks to write exactly the keys of its writes, and to read exactly those of its
-- reads that it does not write; and it lists no key twice.
pub requested_lem :
    (reads writes : List AccessKey) (k : AccessKey)
    → (Dict.get k (requested reads writes) ≡ (
        if any (λ j. key_eq j k) writes
        then some true
        else if any (λ j. key_eq j k) reads
        then some false
        else none))
      × (total k (requested reads writes) ≤ 1)
unfolding requested Dict.get
requested_lem reads writes k = (
  rw (get-collect_writes k writes (collect_reads reads []), get-collect_reads k reads []),
  requested-IsDict reads writes k,
)
