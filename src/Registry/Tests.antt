-- ===== src/Registry/Tests.antt =====
-- Two plugins that share the name of an operation.
use wmfs.Common.{ℕ, ◌≡◌, refl, false, [], ◌∷◌, Result, ok, err, nat_eq}
use wmfs.Common.Dict
use wmfs.Common.Text.{same_text, text_eq}
use wmfs.Registry.Model.{
  Operation, Plugin, Registry, RegistryError, ambiguous, new_registry, register, register_one,
  register_all, by_id, resolve_name, operation, operation_by_id, plugin_for_operation,
}
use wmfs.Registry.Names.{register_plugins, resolve_name-register_plugins}

abbrev op : ℕ → ℕ → Operation
op i letter = record { operation_id = i; name = letter ∷ []; internal = false }

-- Plugin `p` with the operations `a` and `b`, and plugin `q` with `b`.
abbrev first : Plugin
first = record { name = 112 ∷ []; operations = op 1 97 ∷ op 2 98 ∷ [] }

abbrev second : Plugin
second = record { name = 113 ∷ []; operations = op 1 98 ∷ [] }

abbrev registry_of : Result RegistryError Registry → Registry
registry_of (ok r) = r
registry_of (err e) = new_registry

abbrev both_registered : Registry
both_registered = registry_of (register_plugins (first ∷ second ∷ []) new_registry)

both_register : register_plugins (first ∷ second ∷ []) new_registry ≡ ok both_registered
unfolding register_plugins register register_all register_one by_id Dict.get Dict.put same_text
both_register = refl

resolve_name-register_plugins_example : resolve_name (98 ∷ []) both_registered ≡ err ambiguous
unfolding same_text
resolve_name-register_plugins_example =
    resolve_name-register_plugins (98 ∷ []) (first ∷ second ∷ []) both_register refl

found :
    (resolve_name (97 ∷ []) both_registered ≡ ok (112 ∷ 46 ∷ 97 ∷ []))
    × (operation (113 ∷ 46 ∷ 98 ∷ []) both_registered ≡ ok (op 1 98))
    × (operation_by_id (112 ∷ []) 2 both_registered ≡ ok (op 2 98))
    × (plugin_for_operation (97 ∷ []) both_registered ≡ ok (112 ∷ []))
unfolding resolve_name operation operation_by_id plugin_for_operation register_plugins register
    register_all register_one by_id Dict.get Dict.put same_text
found = (refl, refl, refl, refl)

abbrev one_registered : Registry
one_registered = registry_of (register first new_registry)

one_registers : register first new_registry ≡ ok one_registered
unfolding register register_all register_one by_id Dict.get Dict.put same_text
one_registers = refl
