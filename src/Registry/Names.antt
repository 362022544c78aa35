-- ===== src/Registry/Names.antt =====
-- What a bare name means after any plugins have been registered.
use wmfs.Common.{
  ◌≡◌, refl, sym, ap, ◌∙◌, true, false, Option, some, none, List, [], ◌∷◌, ◌++◌, if◌then◌else◌,
  Result, ok, err, ◌>>=◌, raise_if-eq-ok, first_ok, append_assoc, append-nil, Bool-cases, inl, inr,
}
use wmfs.Common.Utf8.{Text}
use wmfs.Common.Dict
use wmfs.Common.Dict.{Dict}
use wmfs.Common.Text.{same_text, same_text→eq, eq→same_text, text_eq}
use wmfs.Registry.Model.{
  plugin, Operation, Plugin, Registry, RegistryError, already_registered, not_registered, ambiguous,
  new_registry, qualify, is_there, next_alias, register_one, register_all, register, has_dot,
  resolve_alias, resolve_name,
}

-- Plugins that are registered one after the other.
unfoldable pub register_plugins : List Plugin → Registry → Result RegistryError Registry
register_plugins [] r = ok r
register_plugins (p ∷ ps) r = do next ← register p r; register_plugins ps next

-- The qualified names of the operations of a bare name, in the order of registration.
abbrev pub named : Text → Text → List Operation → List Text
named name plugin [] = []
named name plugin (o ∷ os) =
    (if same_text o.name name then qualify plugin o.name ∷ [] else []) ++ named name plugin os

abbrev pub choices : Text → List Plugin → List Text
choices name [] = []
choices name (p ∷ ps) = named name p.name p.operations ++ choices name ps

-- The alias of a name with these choices.
abbrev pub alias_of : List Text → Option (Option Text)
alias_of [] = none
alias_of (q ∷ []) = some (some q)
alias_of (q ∷ p ∷ qs) = some none

-- A name means its only choice.
abbrev pub meaning : List Text → Result RegistryError Text
meaning [] = err not_registered
meaning (q ∷ []) = ok q
meaning (q ∷ p ∷ qs) = err ambiguous

next_alias_lem :
    (seen : List Text) (q : Text) → some (next_alias (alias_of seen) q) ≡ alias_of (seen ++ q ∷ [])
next_alias_lem [] q = refl
next_alias_lem (s ∷ []) q = refl
next_alias_lem (s ∷ t ∷ seen) q = refl

register_all-aliases :
    (name plugin : Text) (os : List Operation) (r : Registry) (seen : List Text)
    → Dict.get name r.aliases ≡ alias_of seen
    → Dict.get name (register_all plugin os r).aliases ≡ alias_of (seen ++ named name plugin os)
unfolding register_all register_one
register_all-aliases name plugin [] r seen h = h ∙ ap alias_of (sym (append-nil seen))
register_all-aliases name plugin (o ∷ os) r seen h = elim (Bool-cases (same_text o.name name)) [
  | inl same ↦
      let e : o.name ≡ name = same_text→eq o.name name same in
      let new : Dict.get name (register_one plugin o r).aliases
          ≡ alias_of (seen ++ qualify plugin o.name ∷ []) =
        Dict.get-put o.name name (next_alias (Dict.get o.name r.aliases) (qualify plugin o.name))
          r.aliases
        ∙ rw same (ap (λ k. some (next_alias (Dict.get k r.aliases) (qualify plugin o.name))) e)
        ∙ ap (λ a. some (next_alias a (qualify plugin o.name))) h
        ∙ next_alias_lem seen (qualify plugin o.name) in
      register_all-aliases name plugin os (register_one plugin o r)
        (seen ++ qualify plugin o.name ∷ []) new
      ∙ ap alias_of (
          append_assoc seen (qualify plugin o.name ∷ []) (named name plugin os)
          ∙ ap
              (λ t.
                seen ++ ((if t then qualify plugin o.name ∷ [] else []) ++ named name plugin os))
              (sym same))
  | inr other ↦
      let old : Dict.get name (register_one plugin o r).aliases ≡ alias_of seen =
        Dict.get-put o.name name (next_alias (Dict.get o.name r.aliases) (qualify plugin o.name))
          r.aliases
        ∙ rw other h in
      register_all-aliases name plugin os (register_one plugin o r) seen old
      ∙ ap alias_of (
          ap (λ t. seen ++ ((if t then qualify plugin o.name ∷ [] else []) ++ named name plugin os))
            (sym other))
]

register-aliases :
    (name : Text) (p : Plugin) (r : Registry) (seen : List Text) {next : Registry}
    → Dict.get name r.aliases ≡ alias_of seen
    → register p r ≡ ok next
    → Dict.get name next.aliases ≡ alias_of (seen ++ named name p.name p.operations)
unfolding register
register-aliases name p r seen {next} h g =
    let (_, e) = raise_if-eq-ok (is_there (Dict.get p.name r.plugins)) already_registered _ g in
    let a : (register_all p.name p.operations
          (record r { plugins = Dict.put p.name p r.plugins })).aliases
        ≡ next.aliases =
      cc in
    ap (Dict.get name) (sym a)
    ∙ register_all-aliases name p.name p.operations
        (record r { plugins = Dict.put p.name p r.plugins }) seen h

register_plugins-aliases :
    (name : Text) (ps : List Plugin) (r : Registry) (seen : List Text) {last : Registry}
    → Dict.get name r.aliases ≡ alias_of seen
    → register_plugins ps r ≡ ok last
    → Dict.get name last.aliases ≡ alias_of (seen ++ choices name ps)
unfolding register_plugins
register_plugins-aliases name [] r seen {last} h g =
    let e : last ≡ r = cc in
    ap (λ k. Dict.get name k.aliases) e ∙ h ∙ ap alias_of (sym (append-nil seen))
register_plugins-aliases name (p ∷ ps) r seen {last} h g =
    let (next, first, rest) = first_ok (register p r) _ g in
    register_plugins-aliases name ps next (seen ++ named name p.name p.operations)
      (register-aliases name p r seen h first) rest
    ∙ ap alias_of (append_assoc seen (named name p.name p.operations) (choices name ps))

resolve_alias-alias_of : (qs : List Text) → resolve_alias (alias_of qs) ≡ meaning qs
resolve_alias-alias_of [] = refl
resolve_alias-alias_of (q ∷ []) = refl
resolve_alias-alias_of (q ∷ p ∷ qs) = refl

nothing : (name : Text) → Dict.get name (new_registry.aliases) ≡ none
unfolding Dict.get
nothing name = refl

-- After any plugins have been registered in a new registry, a name without a dot means the only
-- operation of that name among all that they offer, in whatever plugin; it is not registered where
-- there is none and ambiguous where there are several.
pub resolve_name-register_plugins :
    (name : Text) (ps : List Plugin) {r : Registry}
    → register_plugins ps new_registry ≡ ok r
    → has_dot name ≡ false
    → resolve_name name r ≡ meaning (choices name ps)
unfolding resolve_name
resolve_name-register_plugins name ps {r} h bare = rw bare (
    ap resolve_alias (register_plugins-aliases name ps new_registry [] start h)
    ∙ resolve_alias-alias_of (choices name ps))
  where
    start : Dict.get name new_registry.aliases ≡ none
    start = nothing name

register_all-plugins :
    (plugin : Text) (os : List Operation) (r : Registry)
    → (register_all plugin os r).plugins ≡ r.plugins
unfolding register_all register_one
register_all-plugins plugin [] r = refl
register_all-plugins plugin (o ∷ os) r = register_all-plugins plugin os (register_one plugin o r)

there_again : (o : Option Plugin) (p : Plugin) → o ≡ some p → is_there o ≡ true
there_again o p h = ap is_there h

stored :
    (p : Plugin) (r : Registry) {next : Registry}
    → register p r ≡ ok next
    → Dict.get p.name next.plugins ≡ some p
unfolding register
stored p r {next} h =
    let (_, e) = raise_if-eq-ok (is_there (Dict.get p.name r.plugins)) already_registered _ h in
    let a : (register_all p.name p.operations
          (record r { plugins = Dict.put p.name p r.plugins })).plugins
        ≡ next.plugins =
      cc in
    ap (Dict.get p.name) (
      sym a
      ∙ register_all-plugins p.name p.operations
          (record r { plugins = Dict.put p.name p r.plugins }))
    ∙ Dict.get-put p.name p.name p r.plugins
    ∙ rw (eq→same_text p.name p.name refl) refl

-- A plugin that has been registered is found by its name, and no plugin of that name can be
-- registered after it.
register-refuses :
    (p q : Plugin) (r : Registry) {next : Registry}
    → register p r ≡ ok next
    → q.name ≡ p.name
    → (plugin p.name next ≡ ok p) × (register q next ≡ err already_registered)
unfolding plugin register
register-refuses p q r {next} h same =
    let found = stored p r h in
    let again : Dict.get q.name next.plugins ≡ some p =
      ap (λ k. Dict.get k next.plugins) same ∙ found in
    (rw found refl, rw again refl)
