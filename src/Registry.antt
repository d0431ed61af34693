-- ===== src/Registry.antt =====
-- src/intent_packages/registry.py: the agent registry of another checkout, which may be missing.
use intent_packages.Prelude.{
  String, ◌<>◌, Bool, true, false, Option, none, some, List, [], ◌∷◌, ◌==◌, if◌then◌else◌,
}
use intent_packages.Key.{name, odd}
use intent_packages.Value.{Value, dict, Entries, end, entry, is_text}
use intent_packages.Value.Dict.{get}
use intent_packages.Outcome.{Outcome, ok, raised, load_error}
use intent_packages.Host.{Host, RegistryDir}
use intent_packages.Loader.{load_yaml_strict}

-- The terms of a vocabulary that are texts; a term that is no text matches none.
abbrev text_keys : Entries → List String
text_keys end = []
text_keys (entry (name k) v d) = k ∷ text_keys d
text_keys (entry (odd n) v d) = text_keys d

-- `except LoadError`; any other exception goes on.
abbrev on_load_error {ℓ} : {A : Type ℓ} → A → Outcome A → Outcome A
on_load_error a (raised (load_error s)) = ok a
on_load_error a m = m

module _ (H : Host) where
  unfoldable pub registry_dir : Option RegistryDir
  registry_dir =
      if H.standards_dir == ""
      then H.registry_at (H.home <> "/Projects/security-standards/registry")
      else H.registry_at (H.standards_dir <> "/registry")

  abbrev terms_of : Value → Option (List String)
  terms_of (dict ts) = some (text_keys ts)
  terms_of _ = none

  abbrev map_ok {ℓ κ} : {A : Type ℓ} {B : Type κ} → (A → B) → Outcome A → Outcome B
  map_ok f (ok a) = ok (f a)
  map_ok f (raised e) = raised e

  -- `none` where the registry, its file or its `terms` is missing.
  unfoldable pub capability_vocabulary : Outcome (Option (List String))
  unfolding registry_dir get load_yaml_strict
  capability_vocabulary = elim registry_dir [
    | none ↦ ok none
    | some r ↦ elim (r.capabilities_file) [
      | none ↦ ok none
      | some text ↦
          on_load_error none (map_ok (λ d. terms_of (get d "terms")) (load_yaml_strict H text))
    ]
  ]

  unfoldable pub is_registered_agent : String → Bool
  unfolding registry_dir
  is_registered_agent id = elim registry_dir [
    | none ↦ false
    | some r ↦ elim (r.agent_file id) [ none ↦ false | some text ↦ true ]
  ]

  -- Only an identity file that declares the human-operator profile makes a human.
  unfoldable pub is_human_operator : String → Outcome Bool
  unfolding registry_dir get load_yaml_strict
  is_human_operator id = elim registry_dir [
    | none ↦ ok false
    | some r ↦ elim (r.agent_file id) [
      | none ↦ ok false
      | some text ↦ on_load_error false (
          map_ok (λ d. is_text (get d "authority_profile") "human-operator-v1")
            (load_yaml_strict H text))
    ]
  ]
