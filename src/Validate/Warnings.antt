-- ===== src/Validate/Warnings.antt =====
-- `validate_warnings` of src/intent_packages/validate.py: what is said of a package without refusing
-- it.
pub mod Laws
use intent_packages.Prelude.{
  ℕ, suc, String, Bool, true, false, not, ◌&&◌, Option, none, some, List, [], ◌∷◌, ◌++◌, length,
  any, starts_with, if◌then◌else◌,
}
use intent_packages.Value.{Value, null, str, list, dict, Entries, to_list, in_set, is_null}
use intent_packages.Value.Dict.{get}
use intent_packages.Outcome.{Outcome, ok, raised, load_error, ◌>>=◌}
use intent_packages.Host.{Host, PackageDir, RegistryDir}
use intent_packages.Loader.{load_package}
use intent_packages.Registry.{registry_dir}

-- A warning, with the number or the indexes that its message names.
pub data Warning : Type 0 where
  open_questions : ℕ → Warning
  tags_without_profile : List ℕ → Warning
  registry_not_found : Warning

abbrev pub known_evidence_prefixes : List String
known_evidence_prefixes =
    "ci:" ∷ "gate:" ∷ "scan:" ∷ "review:" ∷ "health:" ∷ "human:" ∷ "plan:" ∷ "backup:" ∷ "external:"
    ∷ "observation:" ∷ []

abbrev pub inside : Value → String → Value
inside (dict d) k = get d k
inside _ k = null

unfoldable pub count_warning : List Value → List Warning
count_warning [] = []
count_warning (v ∷ vs) = open_questions (length (v ∷ vs)) ∷ []

unfoldable pub list_warning : Value → List Warning
unfolding count_warning to_list
list_warning (list xs) = count_warning (to_list xs)
list_warning _ = []

-- Check O
unfoldable pub question_warnings : Entries → List Warning
unfolding get list_warning
question_warnings pkg = list_warning (inside (get pkg "scope") "open_questions")

tagged_text : Value → Bool
unfolding any
tagged_text (str s) = any (λ p. starts_with s p) known_evidence_prefixes
tagged_text _ = false

is_tagged : Value → Bool
unfolding tagged_text get
is_tagged (dict c) = tagged_text (get c "evidence")
is_tagged _ = false

-- The indexes, counted from `i`, of the criteria with a known tag.
unfoldable pub tagged_from : ℕ → List Value → List ℕ
unfolding is_tagged
tagged_from i [] = []
tagged_from i (v ∷ vs) = let rest = tagged_from (suc i) vs in if is_tagged v then i ∷ rest else rest

index_warning : List ℕ → List Warning
index_warning [] = []
index_warning (i ∷ is') = tags_without_profile (i ∷ is') ∷ []

acceptance_warnings : Value → List Warning
unfolding tagged_from index_warning to_list
acceptance_warnings (list xs) = index_warning (tagged_from 0 (to_list xs))
acceptance_warnings _ = []

unfoldable pub tag_warnings : Entries → Outcome (List Warning)
unfolding get in_set acceptance_warnings
tag_warnings pkg =
    if is_null (get pkg "profile")
    then (in_set (get pkg "status") ("closed" ∷ "superseded" ∷ []) >>= λ over.
        ok (if over then [] else acceptance_warnings (get pkg "acceptance")))
    else ok []

registry_warnings : Option RegistryDir → List Warning
registry_warnings none = registry_not_found ∷ []
registry_warnings (some r) = []

module _ (H : Host) where
  warnings_of : Outcome Entries → Outcome (List Warning)
  unfolding question_warnings tag_warnings registry_warnings registry_dir
  warnings_of (raised (load_error w)) = ok []
  warnings_of (raised e) = raised e
  warnings_of (ok pkg) = tag_warnings pkg >>= λ tags.
      ok (question_warnings pkg ++ (tags ++ registry_warnings (registry_dir H)))

  unfoldable pub validate_warnings : PackageDir → Outcome (List Warning)
  unfolding load_package warnings_of
  validate_warnings dir = warnings_of (load_package H dir)
