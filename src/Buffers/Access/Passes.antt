-- ===== src/Buffers/Access/Passes.antt =====
-- What a pass over the queue leaves, another pass leaves as it is.
use wmfs.Common.{
  ◌≡◌, refl, ap, ◌∙◌, inl, inr, Bool, true, false, ◌&&◌, Option, none, some, List, [], ◌∷◌, ◌++◌,
  Bool-cases, arith,
}
use wmfs.Common.Dict
use wmfs.Common.Dict.{get-put}
use wmfs.Buffers.Access.Keys.{AccessKey, key_eq, key_eq_iff, access_key_eq}
use wmfs.Buffers.Access.Model.{
  AccessState, Accesses, States, Waiter, state_of, taken, take_access, take_accesses, can_take,
  can_grant_access, is_disjoint, grant_loop,
}

-- What cannot be taken stays so.
abbrev IsFuller : States → States → Type 0
IsFuller st fuller =
    (k : AccessKey) (b : Bool)
    → can_take (Dict.get k st) b ≡ false
    → can_take (Dict.get k fuller) b ≡ false

taken-full :
    (o : Option AccessState) (b c : Bool)
    → can_take o c ≡ false
    → can_take (some (taken (state_of o) b)) c ≡ false
unfolding can_take
taken-full none b c h = absurd (cc h)
taken-full (some s) true c h = refl
taken-full (some s) false c h = ground (arith, h)

take_access-IsFuller : (st : States) (j : AccessKey) (b : Bool) → IsFuller st (take_access st j b)
unfolding take_access
take_access-IsFuller st j b k c h = elim (Bool-cases (key_eq j k)) [
  | inl equal ↦
      rw (get-put j k (taken (state_of (Dict.get j st)) b) st, equal)
        (taken-full (Dict.get j st) b c
          (ap (λ i. can_take (Dict.get i st) c) ((key_eq_iff j k).0 equal) ∙ h))
  | inr other ↦ rw (get-put j k (taken (state_of (Dict.get j st)) b) st, other) h
]

take_accesses-IsFuller : (st : States) (acc : Accesses) → IsFuller st (take_accesses st acc)
unfolding take_accesses
take_accesses-IsFuller st [] k b h = h
take_accesses-IsFuller st ((j, c) ∷ acc) k b h =
    take_accesses-IsFuller (take_access st j c) acc k b (take_access-IsFuller st j c k b h)

can_grant-IsFuller :
    (st fuller : States) (acc : Accesses)
    → IsFuller st fuller
    → can_grant_access st acc ≡ false
    → can_grant_access fuller acc ≡ false
unfolding can_grant_access
can_grant-IsFuller st fuller [] more h = h
can_grant-IsFuller st fuller ((k, b) ∷ acc) more h =
    ground (arith, more k b, can_grant-IsFuller st fuller acc more)

grant_loop-IsFuller :
    (ws : List Waiter) (blocked : List AccessKey) (st : States)
    → IsFuller st (grant_loop ws blocked st).states
unfolding grant_loop
grant_loop-IsFuller [] blocked st k b h = h
grant_loop-IsFuller (w ∷ ws) blocked st k b h =
    elim (Bool-cases
      (is_disjoint blocked (Dict.keys w.accesses) && can_grant_access st w.accesses)) [
        | inl fits ↦ rw fits (
            grant_loop-IsFuller ws blocked (take_accesses st w.accesses) k b
              (take_accesses-IsFuller st w.accesses k b h))
        | inr blocks ↦ rw blocks (grant_loop-IsFuller ws (blocked ++ Dict.keys w.accesses) st k b h)
      ]

-- What a pass has kept, another pass keeps.
pub grant_loop-again :
    (ws : List Waiter) (blocked : List AccessKey) (st fuller : States)
    → let p = grant_loop ws blocked st in
      IsFuller p.states fuller
      → grant_loop p.waiting blocked fuller
        ≡ record { states = fuller; waiting = p.waiting; granted = [] }
unfolding grant_loop
grant_loop-again [] blocked st fuller more = refl
grant_loop-again (w ∷ ws) blocked st fuller more =
    elim (Bool-cases
      (is_disjoint blocked (Dict.keys w.accesses) && can_grant_access st w.accesses)) [
        | inl fits ↦
            rw fits
              (grant_loop-again ws blocked (take_accesses st w.accesses) fuller (rw fits at more))
        | inr blocks ↦
            let ks = blocked ++ Dict.keys w.accesses in
            let later : IsFuller (grant_loop ws ks st).states fuller = rw blocks at more in
            let full =
              can_grant-IsFuller st fuller w.accesses
                (λ k b h. later k b (grant_loop-IsFuller ws ks st k b h)) in
            let stuck : (is_disjoint blocked (Dict.keys w.accesses)
                  && can_grant_access fuller w.accesses)
                ≡ false =
              ground (arith, blocks, full) in
            rw (blocks, stuck, grant_loop-again ws ks st fuller later) refl
      ]
