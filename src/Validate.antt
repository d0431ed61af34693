-- ===== src/Validate.antt =====
-- src/intent_packages/validate.py: the checks of one package file. A check that meets a value which
-- Python cannot hash raises, as the code does. The loader hands over a mapping, so the first test
-- of `_check_k_and_j` is not modelled.
pub mod Formats
pub mod Acceptance
pub mod Package
pub mod Warnings
use intent_packages.Prelude.{
  ℕ, suc, String, Bool, true, false, not, ◌&&◌, ◌||◌, Option, none, some, List, [], ◌∷◌, ◌++◌, mem,
  if◌then◌else◌, is_blank,
}
use intent_packages.Key.{Key, name, odd}
use intent_packages.Value.{
  Value, null, str, list, dict, Entries, Items, nil, cons, to_list, is_str, is_null, is_dict,
  in_set, is_text,
}
use intent_packages.Value.Dict.{get, lookup, has, keys}
use intent_packages.Outcome.{Outcome, ok, raised, ◌>>=◌}
use intent_packages.Outcome.Report.{
  Where, top, in_top, at, nth, Issues, one, one_if, each, Report, issue, issue_if, clean, ◌+++◌,
  for_each,
}
use intent_packages.Schema.{is_field_key, unknown_keys, walk_fields}
use intent_packages.Schema.Top.{top_schema}

abbrev pub reserved_top_level : List String
reserved_top_level = "profile" ∷ "profile_fields" ∷ "reach" ∷ []

abbrev pub trust_values : List String
trust_values = "trusted_instruction" ∷ "untrusted_data" ∷ []

abbrev pub pre_approval_states : List String
pre_approval_states = "draft" ∷ "needs_clarification" ∷ "ready_for_review" ∷ []

unfoldable pub is_reserved : Key → Bool
unfolding mem
is_reserved (name k) = mem k reserved_top_level
is_reserved (odd n) = false

profile_errors : Option Value → Issues
profile_errors none = []
profile_errors (some v) =
    one_if (not (is_null v) && not (is_str v)) (in_top "profile") "expected str"

profile_fields_errors : Option Value → Issues
profile_fields_errors none = []
profile_fields_errors (some v) =
    one_if (not (is_dict v)) (in_top "profile_fields") "expected a mapping"

unfoldable pub check_k_and_j : Entries → Issues
unfolding unknown_keys keys is_reserved walk_fields profile_errors profile_fields_errors lookup
check_k_and_j d =
    unknown_keys (λ k. is_field_key k top_schema || is_reserved k) (keys d) top
    ++ (walk_fields top_schema d top
        ++ (profile_errors (lookup "profile" d)
            ++ profile_fields_errors (lookup "profile_fields" d)))

reach_item : ℕ → Value → Issues
unfolding is_blank
reach_item i (str s) = one_if (is_blank s) (nth (in_top "reach") i) "expected a non-empty string"
reach_item i v = one (nth (in_top "reach") i) "expected a non-empty string"

unfoldable pub reach_errors : Value → Issues
unfolding reach_item each to_list
reach_errors (list (cons v vs)) = each reach_item 0 (to_list (cons v vs))
reach_errors _ = one (in_top "reach") "expected a non-empty list of reach values"

unfoldable pub check_reach : Entries → Report
unfolding get lookup in_set reach_errors
check_reach d = elim (lookup "reach" d) [
  | none ↦ in_set (get d "status") pre_approval_states >>= λ pending.
      issue_if pending (in_top "reach") "missing required key"
  | some v ↦ ok (reach_errors v)
]

unfoldable pub check_package_id : Entries → String → Issues
unfolding get
check_package_id d dir_name =
    one_if (not (is_text (get d "package_id") dir_name)) (in_top "package_id")
      "does not match the package directory name"

unfoldable pub check_source : ℕ → Value → Report
unfolding get in_set
check_source i (dict src) = in_set (get src "trust") trust_values >>= λ legal.
    issue_if (not legal) (at (nth (in_top "sources") i) "trust") "not a legal trust value"
check_source i _ = clean

unfoldable pub check_trust : Entries → Report
unfolding get check_source for_each to_list
check_trust d = elim (get d "sources") [
  | list xs ↦ for_each check_source 0 (to_list xs)
  | _ ↦ clean
]
