-- ===== src/Schema/Top.antt =====
-- `TOP_SCHEMA` of src/intent_packages/schema.py.
use intent_packages.Prelude.{true, false, none, [], ◌∷◌}
use intent_packages.Lifecycle.{states}
use intent_packages.Schema.{
  Fields, no_more, Spec, scalar, list_of, map_of, open_map, int_type, bool_type, text,
  nullable_text, one_of, texts, required,
}

abbrev pub number : Spec
number = scalar int_type false none

abbrev outcome : Fields
outcome =
    required "what" text
      (required "why" text (required "beneficiary" text (required "success_signal" text no_more)))

abbrev scope : Fields
scope = required "included" texts (
    required "excluded" texts (
      required "non_goals" texts
        (required "assumptions" texts (required "open_questions" texts no_more))))

abbrev source : Fields
source = required "location" text (
    required "authority_level" (one_of ("authoritative" ∷ "supporting" ∷ "reference" ∷ [])) (
      required "required_version" nullable_text (
        required "trust" text (
          required "sensitivity" (one_of ("public" ∷ "internal" ∷ "confidential" ∷ "secret" ∷ []))
            no_more))))

abbrev constraints : Fields
constraints = required "time_budget" nullable_text (
    required "technology" nullable_text (
      required "policy_legal" nullable_text (
        required "privacy_security" nullable_text (
          required "compatibility" nullable_text (
            required "quality_accessibility" nullable_text
              (required "operational" nullable_text (required "other" texts no_more)))))))

abbrev criterion : Fields
criterion = required "id" text (
    required "condition" text
      (required "evidence_type" text (required "evidence" text (required "approver" text no_more))))

abbrev budgets : Fields
budgets =
    required "max_attempts" (scalar int_type true none)
      (required "max_llm_calls" (scalar int_type true none) no_more)

abbrev authority : Fields
authority = required "allowed" texts (
    required "requires_approval" texts
      (required "prohibited" texts (required "budgets" (map_of budgets) no_more)))

abbrev deliverables : Fields
deliverables = required "artifacts" texts (
    required "destination" text (
      required "recipient" text
        (required "definition_of_done" text (required "operator_responsibilities" texts no_more))))

abbrev dependencies : Fields
dependencies =
    required "predecessor_packages"
      (list_of (map_of (required "package" text (required "revision" number no_more))))
      (required "external_decisions" texts (
        required "required_people_systems" texts
          (required "required_capabilities" texts (required "blocking_conditions" texts no_more))))

abbrev risk : Fields
risk = required "failure_modes" texts (
    required "max_impact" text (
      required "stop_conditions" texts
        (required "rollback" text (required "escalation_target" text no_more))))

abbrev follow_up : Fields
follow_up = required "required" (scalar bool_type false none) (
    required "revisit_when" nullable_text
      (required "signals" texts (required "owner" nullable_text no_more)))

-- The fields of the document, in two parts.
abbrev content : Fields
content = required "constraints" (map_of constraints) (
    required "acceptance" (list_of (map_of criterion)) (
      required "authority" (map_of authority) (
        required "deliverables" (map_of deliverables) (
          required "dependencies" (map_of dependencies) (
            required "risk" (map_of risk) (
              required "verification"
                (map_of
                  (required "independent_review" texts (required "non_mechanical" texts no_more)))
                (required "follow_up" (map_of follow_up)
                  (required "applicable_standards" (open_map ("project" ∷ [])) no_more))))))))

abbrev pub top_schema : Fields
top_schema = required "schema_version" number (
    required "package_id" text (
      required "title" text (
        required "revision" number (
          required "status" (one_of states) (
            required "created_by" text (
              required "owner" text (
                required "created_at" text (
                  required "supersedes" nullable_text (
                    required "outcome" (map_of outcome) (
                      required "scope" (map_of scope)
                        (required "sources" (list_of (map_of source)) content)))))))))))
