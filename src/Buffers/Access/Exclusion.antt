-- ===== src/Buffers/Access/Exclusion.antt =====
-- Passes over the queue and releases keep the key states in step with the leases that are held.
use wmfs.Common.{
  ℕ, ◌+◌, ◌≡◌, refl, inl, inr, Bool, true, false, ◌&&◌, List, [], ◌∷◌, ◌++◌, if◌then◌else◌,
  Bool-cases, Option-cases, ok, arith,
}
use wmfs.Common.Dict
use wmfs.Common.Dict.{get-put, get-remove}
use wmfs.Buffers.Access.Keys.{AccessKey, key_eq, key_eq_iff, access_key_eq}
use wmfs.Buffers.Access.Model.{
  AccessState, Accesses, States, Waiter, take_accesses, can_grant_access, is_disjoint, grant_loop,
  left, store_left, drop_access, release_access_locked,
}
use wmfs.Buffers.Access.Counts.{count_items, held, AllDict, state_at, Agrees, take_accesses-Agrees}

pub held-append :
    (k : AccessKey) (b : Bool) (xs ys : List Waiter)
    → held k b (xs ++ ys) ≡ held k b xs + held k b ys
held-append k b [] ys = omega arith
held-append k b (x ∷ xs) ys = omega (arith, held-append k b xs ys)

pub AllDict-append : (xs ys : List Waiter) → AllDict xs → AllDict ys → AllDict (xs ++ ys)
AllDict-append [] ys h g = g
AllDict-append (x ∷ xs) ys h g = (h.0, AllDict-append xs ys h.1 g)

-- A pass adds to each key what it grants, and nothing else.
pub grant_loop-Agrees :
    (k : AccessKey) (ws : List Waiter) (blocked : List AccessKey) (st : States) (r w : ℕ)
    → AllDict ws
    → Agrees (state_at k st) r w
    → let p = grant_loop ws blocked st in
      Agrees (state_at k p.states) (r + held k false p.granted) (w + held k true p.granted)
unfolding grant_loop
grant_loop-Agrees k [] blocked st r w d v = ground arith
grant_loop-Agrees k (x ∷ ws) blocked st r w d v =
    elim (Bool-cases
      (is_disjoint blocked (Dict.keys x.accesses) && can_grant_access st x.accesses)) [
        | inl yes_granted ↦ rw yes_granted (
            ground (
              arith,
              take_accesses-Agrees k x.accesses st r w d.0 (ground arith) v,
              grant_loop-Agrees k ws blocked (take_accesses st x.accesses)
                  (r + count_items k false x.accesses) (w + count_items k true x.accesses) d.1
                  (take_accesses-Agrees k x.accesses st r w d.0 (ground arith) v),
            ))
        | inr kept ↦ rw kept (grant_loop-Agrees k ws (blocked ++ Dict.keys x.accesses) st r w d.1 v)
      ]

-- What one round of a release leaves at each key.
drop_access-ok :
    (st : States) (j : AccessKey) (b : Bool) (r w : ℕ)
    → Agrees
        (state_at j st)
        (r + count_items j false ((j, b) ∷ []))
        (w + count_items j true ((j, b) ∷ []))
    → (drop_access st j b ≡ ok (store_left st j (left (state_at j st) b)))
unfolding drop_access
drop_access-ok st j true r w v =
    ground (arith, Option-cases (Dict.get j st), (key_eq_iff j j).1 refl)
drop_access-ok st j false r w v =
    ground (arith, Option-cases (Dict.get j st), (key_eq_iff j j).1 refl)

state_at-store_left :
    (k j : AccessKey) (s : AccessState) (st : States)
    → state_at k (store_left st j s) ≡ (if key_eq j k then s else state_at k st)
state_at-store_left k j s st = ground (arith, key_eq_iff j k, get-put j k s st, get-remove j k st)

left-Agrees :
    (k j : AccessKey) (b : Bool) (rest : Accesses) (st : States) (r w : ℕ)
    → Agrees
        (state_at k st)
        (r + count_items k false ((j, b) ∷ rest))
        (w + count_items k true ((j, b) ∷ rest))
    → Agrees
        (state_at k (store_left st j (left (state_at j st) b)))
        (r + count_items k false rest)
        (w + count_items k true rest)
left-Agrees k j true rest st r w v =
    ground (arith, key_eq_iff j k, state_at-store_left k j (left (state_at j st) true) st)
left-Agrees k j false rest st r w v =
    ground (arith, key_eq_iff j k, state_at-store_left k j (left (state_at j st) false) st)

-- The release of a lease that is held raises nothing and takes its own items off every key.
pub release_access_locked-Agrees :
    (acc : Accesses) (st : States) (r w : AccessKey → ℕ)
    → ((k : AccessKey)
        → Agrees (state_at k st) (r k + count_items k false acc) (w k + count_items k true acc))
    → (st' : States) × (release_access_locked st acc ≡ ok st')
      × ((k : AccessKey) → Agrees (state_at k st') (r k) (w k))
unfolding release_access_locked
release_access_locked-Agrees [] st r w v = (st, refl, λ k. ground (arith, v k))
release_access_locked-Agrees ((j, b) ∷ rest) st r w v =
    let next = store_left st j (left (state_at j st) b) in
    let first =
      drop_access-ok st j b (r j + count_items j false rest) (w j + count_items j true rest)
        (regroup j b rest (state_at j st) (r j) (w j) (v j)) in
    let (st', e, g) =
      release_access_locked-Agrees rest next r w
        (λ k. left-Agrees k j b rest st (r k) (w k) (v k)) in
    (st', rw first e, g)
  where
    regroup :
        (j : AccessKey) (b : Bool) (rest : Accesses) (s : AccessState) (r w : ℕ)
        → Agrees s
            (r + count_items j false ((j, b) ∷ rest))
            (w + count_items j true ((j, b) ∷ rest))
        → Agrees s
            (r + count_items j false rest + count_items j false ((j, b) ∷ []))
            (w + count_items j true rest + count_items j true ((j, b) ∷ []))
    regroup j true rest s r w h = ground arith
    regroup j false rest s r w h = ground arith
