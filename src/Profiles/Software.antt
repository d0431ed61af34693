-- ===== src/Profiles/Software.antt =====
-- src/intent_packages/profiles/software_delivery.py
use intent_packages.Prelude.{
  ℕ, String, Bool, false, ◌&&◌, ◌||◌, Option, none, some, List, [], ◌∷◌, ◌++◌, ◌==◌, eqb,
  if◌then◌else◌,
}
use intent_packages.Value.{Value, int, pos, str, list, dict, Entries, nil, to_list}
use intent_packages.Value.Dict.{get, lookup}
use intent_packages.Schema.{Spec, map_of, no_more, required, text, nullable_text, texts, walk}
use intent_packages.Outcome.Report.{Where, in_top, at, nth, Issues, one, each}
use intent_packages.Profiles.Tags.{
  TagMap, check_evidence_tags, blank_fields, blank_value, unless_errors,
}

abbrev pub profile_fields_schema : Spec
profile_fields_schema = map_of (
    required "repo" text (
      required "branch" text (
        required "deploy_target" nullable_text
          (required "required_checks" texts (required "rollback_plan" text no_more)))))

abbrev pub tag_to_evidence_type : TagMap
tag_to_evidence_type =
    ("ci:", "automated_check")
    ∷ ("gate:", "automated_check")
    ∷ ("scan:", "automated_test")
    ∷ ("review:", "human_review")
    ∷ ("health:", "automated_test")
    ∷ ("human:", "human_review")
    ∷ []

abbrev pub superseded_tag_to_evidence_type : TagMap
superseded_tag_to_evidence_type =
    ("ci:", "automated_test")
    ∷ ("gate:", "automated_test")
    ∷ ("scan:", "automated_test")
    ∷ ("review:", "automated_test")
    ∷ ("health:", "automated_test")
    ∷ ("human:", "human_review")
    ∷ []

abbrev pub superseded_map_revisions : List (String × ℕ)
superseded_map_revisions =
    ("conformance-claim-helper", 1)
    ∷ ("factory-cli-main-guard", 1)
    ∷ ("pre-phase4-foundation-cleanliness", 1)
    ∷ ("ws-2.3-intent-authoring-skill-v2", 1)
    ∷ ("ws-2.4-brain-approver-gate", 1)
    ∷ ("ws-2.4-ci-evidence-control", 1)
    ∷ ("ws-3.1-orchestrator-core", 1)
    ∷ ("ws-3.2-package-intake-decomposition", 1)
    ∷ ("ws-3.3-protocol-smoke-runtime-semantics", 1)
    ∷ ("ws-3.4-evidence-events", 2)
    ∷ ("ws-p2.1-recovery-controls-drills", 1)
    ∷ ("ws-p2.15-fail-closed-lifecycle-guards", 1)
    ∷ []

unfoldable pub is_superseded : String → ℕ → List (String × ℕ) → Bool
is_superseded id r [] = false
is_superseded id r ((j, n) ∷ rest) = (id == j && eqb r n) || is_superseded id r rest

-- The map of the two types that were read; a bool is no revision.
unfoldable pub map_for : Value → Value → TagMap
unfolding is_superseded
map_for (str id) (int (pos r)) =
    if is_superseded id r superseded_map_revisions
    then superseded_tag_to_evidence_type
    else tag_to_evidence_type
map_for _ _ = tag_to_evidence_type

unfoldable pub tag_map : Entries → TagMap
unfolding map_for get
tag_map d = map_for (get d "package_id") (get d "revision")

check_list : Value → Where → Issues
unfolding each to_list
check_list (list nil) p = one p "must be a non-empty list"
check_list (list xs) p = each (λ i v. blank_value v (nth p i)) 0 (to_list xs)
check_list _ p = []

abbrev fields_place : Where
fields_place = in_top "profile_fields"

check_fields : Option Value → Issues
unfolding walk blank_fields check_list get
check_fields none = one fields_place "missing required key"
check_fields (some (dict fields)) =
    unless_errors (walk profile_fields_schema (dict fields) fields_place) (
      blank_fields ("repo" ∷ "branch" ∷ "rollback_plan" ∷ []) fields fields_place
      ++ check_list (get fields "required_checks") (at fields_place "required_checks"))
check_fields (some _) = []

unfoldable pub check_profile_fields : Entries → Issues
unfolding check_fields lookup
check_profile_fields d = check_fields (lookup "profile_fields" d)

unfoldable pub validate : Entries → Issues
unfolding check_profile_fields check_evidence_tags tag_map
validate d = check_profile_fields d ++ check_evidence_tags d (tag_map d)
