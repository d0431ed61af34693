-- ===== src/Profiles/Infrastructure.antt =====
-- src/intent_packages/profiles/infrastructure_change.py
use intent_packages.Prelude.{Option, none, some, [], ◌∷◌, ◌++◌}
use intent_packages.Value.{Value, dict, Entries}
use intent_packages.Value.Dict.{lookup}
use intent_packages.Schema.{Spec, map_of, no_more, required, one_of, text, nullable_text, walk}
use intent_packages.Outcome.Report.{Where, in_top, Issues, one}
use intent_packages.Profiles.Tags.{TagMap, check_evidence_tags, blank_fields, unless_errors}

abbrev pub profile_fields_schema : Spec
profile_fields_schema = map_of (
    required "blast_radius" (one_of ("single-app" ∷ "shared-service" ∷ "portfolio-wide" ∷ [])) (
      required "change_window" nullable_text
        (required "backup_evidence" nullable_text (required "rollback_plan" text no_more))))

abbrev pub tag_to_evidence_type : TagMap
tag_to_evidence_type =
    ("health:", "automated_test")
    ∷ ("backup:", "automated_test")
    ∷ ("change-log:", "automated_test")
    ∷ ("human:", "human_review")
    ∷ []

abbrev fields_place : Where
fields_place = in_top "profile_fields"

check_fields : Option Value → Issues
unfolding walk blank_fields
check_fields none = one fields_place "missing required key"
check_fields (some (dict fields)) =
    unless_errors (walk profile_fields_schema (dict fields) fields_place)
      (blank_fields ("rollback_plan" ∷ []) fields fields_place)
check_fields (some _) = []

unfoldable pub check_profile_fields : Entries → Issues
unfolding check_fields lookup
check_profile_fields d = check_fields (lookup "profile_fields" d)

unfoldable pub validate : Entries → Issues
unfolding check_profile_fields check_evidence_tags
validate d = check_profile_fields d ++ check_evidence_tags d tag_to_evidence_type
