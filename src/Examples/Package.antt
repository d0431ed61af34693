-- ===== src/Examples/Package.antt =====
-- A package of the maintenance-remediation profile, its ledger and a line of the events file.
use intent_packages.Prelude.{String, false, List, [], ◌∷◌}
use intent_packages.Value.{Value, null, bool, int, str, list, pos, nil, Entries}
use intent_packages.Value.Dict.{of_pairs}
use intent_packages.Examples.{record_of, list_of, texts}

unfoldable pub acceptance : Value
unfolding record_of list_of
acceptance = list_of (
    record_of (
      ("id", str "AC-001")
      ∷ ("condition", str "the check passes")
      ∷ ("evidence_type", str "automated_check")
      ∷ ("evidence", str "ci: the named check")
      ∷ ("approver", str "policy")
      ∷ [])
    ∷ record_of (
        ("id", str "AC-002")
        ∷ ("condition", str "the change is merged")
        ∷ ("evidence_type", str "human_review")
        ∷ ("evidence", str "human: the merged change")
        ∷ ("approver", str "devon")
        ∷ [])
    ∷ [])

unfoldable pub authority : Value
unfolding record_of texts
authority = record_of (
    ("allowed", texts ("repository_read" ∷ "repository_write" ∷ []))
    ∷ ("requires_approval", texts ("merge_to_main" ∷ []))
    ∷ ("prohibited", texts ("secret_write" ∷ []))
    ∷ ("budgets", record_of (("max_attempts", int (pos 3)) ∷ ("max_llm_calls", int (pos 4)) ∷ []))
    ∷ [])

-- The document in a state.
unfoldable pub package_in : String → Entries
unfolding acceptance authority record_of texts of_pairs list_of
package_in status = of_pairs (
    ("schema_version", int (pos 1))
    ∷ ("package_id", str "docs-canary")
    ∷ ("title", str "A change of the documentation")
    ∷ ("revision", int (pos 1))
    ∷ ("status", str status)
    ∷ ("created_by", str "factory-create")
    ∷ ("owner", str "devon")
    ∷ ("created_at", str "2026-07-30T16:28:41Z")
    ∷ ("supersedes", null)
    ∷ ("reach", texts ("source_repository" ∷ []))
    ∷ ("profile", str "maintenance-remediation")
    ∷ (
      "profile_fields",
      record_of (
          ("repo", str "AlobarQuest/change-manager")
          ∷ ("remediation_source", str "certification")
          ∷ ("rollback_plan", str "revert")
          ∷ []),
    )
    ∷ (
      "outcome",
      record_of (
          ("what", str "a file")
          ∷ ("why", str "a test")
          ∷ ("beneficiary", str "devon")
          ∷ ("success_signal", str "merged")
          ∷ []),
    )
    ∷ (
      "scope",
      record_of (
          ("included", texts ("one change" ∷ []))
          ∷ ("excluded", texts [])
          ∷ ("non_goals", texts [])
          ∷ ("assumptions", texts [])
          ∷ ("open_questions", texts [])
          ∷ []),
    )
    ∷ (
      "sources",
      list_of (
          record_of (
            ("location", str "the spec")
            ∷ ("authority_level", str "authoritative")
            ∷ ("required_version", null)
            ∷ ("trust", str "trusted_instruction")
            ∷ ("sensitivity", str "internal")
            ∷ [])
          ∷ []),
    )
    ∷ (
      "constraints",
      record_of (
          ("time_budget", null)
          ∷ ("technology", null)
          ∷ ("policy_legal", null)
          ∷ ("privacy_security", null)
          ∷ ("compatibility", null)
          ∷ ("quality_accessibility", null)
          ∷ ("operational", null)
          ∷ ("other", texts [])
          ∷ []),
    )
    ∷ ("acceptance", acceptance)
    ∷ ("authority", authority)
    ∷ (
      "deliverables",
      record_of (
          ("artifacts", texts ("a file" ∷ []))
          ∷ ("destination", str "packages/")
          ∷ ("recipient", str "devon")
          ∷ ("definition_of_done", str "merged")
          ∷ ("operator_responsibilities", texts [])
          ∷ []),
    )
    ∷ (
      "dependencies",
      record_of (
          ("predecessor_packages", list nil)
          ∷ ("external_decisions", texts [])
          ∷ ("required_people_systems", texts [])
          ∷ ("required_capabilities", texts [])
          ∷ ("blocking_conditions", texts [])
          ∷ []),
    )
    ∷ (
      "risk",
      record_of (
          ("failure_modes", texts [])
          ∷ ("max_impact", str "low")
          ∷ ("stop_conditions", texts [])
          ∷ ("rollback", str "revert")
          ∷ ("escalation_target", str "devon")
          ∷ []),
    )
    ∷ (
      "verification",
      record_of (("independent_review", texts []) ∷ ("non_mechanical", texts []) ∷ []),
    )
    ∷ (
      "follow_up",
      record_of (
          ("required", bool false)
          ∷ ("revisit_when", null)
          ∷ ("signals", texts [])
          ∷ ("owner", null)
          ∷ []),
    )
    ∷ ("applicable_standards", record_of (("project", str "1.0") ∷ []))
    ∷ [])

unfoldable pub approval_entry : Value
unfolding record_of
approval_entry =
    record_of
      (("revision", int (pos 1)) ∷ ("approved_hash", str "h1") ∷ ("approver", str "devon") ∷ [])

-- The ledger in a state, with its approvals.
unfoldable pub ledger_in : String → List Value → Entries
unfolding of_pairs list_of record_of
ledger_in state approvals = of_pairs (
    ("package_id", str "docs-canary")
    ∷ ("current_state", str state)
    ∷ (
      "revisions",
      list_of (
          record_of (("revision", int (pos 1)) ∷ ("hash", str "h1") ∷ ("author", str "devon") ∷ [])
          ∷ []),
    )
    ∷ (
      "transitions",
      list_of (
          record_of (
            ("kind", str "transition")
            ∷ ("from", str "draft")
            ∷ ("to", str "ready_for_review")
            ∷ [])
          ∷ []),
    )
    ∷ ("approvals", list_of approvals)
    ∷ ("grants", list nil)
    ∷ [])

-- A line of the events file that records the approval.
unfoldable pub approved_line : Value
unfolding record_of list_of
approved_line = record_of (
    (
      "event",
      record_of (
          ("action", str "package.approved")
          ∷ (
            "evidence",
            list_of (record_of (("approved_hash", str "h1") ∷ ("revision", int (pos 1)) ∷ []) ∷ []),
          )
          ∷ []),
    )
    ∷ [])
