-- ===== src/Registry/Model.antt =====
-- packages/wmfs/wmfs/registry.py: `OperationRegistry`. A name is the list of its code points. Of the
-- metadata of an operation only its name, its ID and its `internal` flag count here.
use wmfs.Common.{
  ℕ, Bool, true, false, Option, some, none, List, [], ◌∷◌, ◌++◌, ◌==◌, if◌then◌else◌, Result, ok,
  err, ◌>>=◌, ◌>>◌, raise_if, or_raise, any, nat_eq,
}
use wmfs.Common.Utf8.{Text}
use wmfs.Common.Text.{text_eq}
use wmfs.Common.Dict
use wmfs.Common.Dict.{Dict}

pub record Operation : Type 0 where
  pub operation_id : ℕ
  pub name : Text
  pub internal : Bool

pub record Plugin : Type 0 where
  pub name : Text
  pub operations : List Operation

-- An alias is the qualified name, or `None` where it is ambiguous.
pub record Registry : Type 0 where
  pub plugins : Dict Text Plugin
  pub operations : Dict Text Operation
  pub operation_plugins : Dict Text Text
  pub aliases : Dict Text (Option Text)
  pub operation_ids : Dict Text (Dict ℕ Operation)

-- Each is a `ValueError` or a `KeyError` with its message.
pub data RegistryError : Type 0 where
  already_registered : RegistryError
  not_registered : RegistryError
  ambiguous : RegistryError

abbrev pub new_registry : Registry
new_registry = record {
  plugins = [];
  operations = [];
  operation_plugins = [];
  aliases = [];
  operation_ids = [];
}

abbrev pub dot : ℕ
dot = 46

-- f"{plugin.name}.{operation.name}"
abbrev pub qualify : Text → Text → Text
qualify plugin name = plugin ++ dot ∷ name

abbrev pub is_there {ℓ} : {A : Type ℓ} → Option A → Bool
is_there none = false
is_there (some a) = true

-- The alias that a name gets when an operation of it is registered.
abbrev pub next_alias : Option (Option Text) → Text → Option Text
next_alias none qualified = some qualified
next_alias (some old) qualified = none

-- One round of the loop of `register`.
unfoldable pub register_one : Text → Operation → Registry → Registry
register_one plugin o r =
    let qualified = qualify plugin o.name in
    record r {
      operations = Dict.put qualified o r.operations;
      operation_plugins = Dict.put qualified plugin r.operation_plugins;
      aliases = Dict.put o.name (next_alias (Dict.get o.name r.aliases) qualified) r.aliases;
    }

unfoldable pub register_all : Text → List Operation → Registry → Registry
register_all plugin [] r = r
register_all plugin (o ∷ os) r = register_all plugin os (register_one plugin o r)

-- The dictionary of the operations by their IDs.
unfoldable pub by_id : List Operation → Dict ℕ Operation → Dict ℕ Operation
by_id [] ids = ids
by_id (o ∷ os) ids = by_id os (Dict.put o.operation_id o ids)

-- `register`
unfoldable pub register : Plugin → Registry → Result RegistryError Registry
register p r = do
  raise_if (is_there (Dict.get p.name r.plugins)) already_registered
  let done =
        register_all p.name p.operations (record r { plugins = Dict.put p.name p r.plugins }) in
      ok
        (record done { operation_ids = Dict.put p.name (by_id p.operations []) done.operation_ids })

abbrev pub has_dot : Text → Bool
has_dot name = any (λ c. c == dot) name

-- What `_resolve_name` makes of the alias of a name.
abbrev pub resolve_alias : Option (Option Text) → Result RegistryError Text
resolve_alias none = err not_registered
resolve_alias (some none) = err ambiguous
resolve_alias (some (some qualified)) = ok qualified

-- `_resolve_name`
unfoldable pub resolve_name : Text → Registry → Result RegistryError Text
resolve_name name r = if has_dot name then ok name else resolve_alias (Dict.get name r.aliases)

-- `operation`
unfoldable pub operation : Text → Registry → Result RegistryError Operation
operation name r = do
  qualified ← resolve_name name r
  or_raise (Dict.get qualified r.operations) not_registered

-- `plugin_for_operation`
unfoldable pub plugin_for_operation : Text → Registry → Result RegistryError Text
plugin_for_operation name r = do
  qualified ← resolve_name name r
  or_raise (Dict.get qualified r.operation_plugins) not_registered

-- `plugin`
unfoldable pub plugin : Text → Registry → Result RegistryError Plugin
plugin name r = or_raise (Dict.get name r.plugins) not_registered

-- `operation_by_id`
unfoldable pub operation_by_id : Text → ℕ → Registry → Result RegistryError Operation
operation_by_id name i r = do
  ids ← or_raise (Dict.get name r.operation_ids) not_registered
  or_raise (Dict.get i ids) not_registered
