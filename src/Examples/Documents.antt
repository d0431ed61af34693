-- ===== src/Examples/Documents.antt =====
-- Documents: a shape, a ledger, a policy and a package that it permits, a destination, and the
-- fields of a version bump.
use intent_packages.Prelude.{
  mem, String, ◌≡◌, ◌↔◌, refl, true, none, some, List, [], ◌∷◌, ◌++◌, codes, all,
}
use intent_packages.Value.{Value, bool, Entries, int, pos, str, dict}
use intent_packages.Key.{Key}
use intent_packages.Value.Dict.{put, of_pairs}
use intent_packages.Outcome.{ok}
use intent_packages.Outcome.Report.{top, IsClean}
use intent_packages.Host.{Pairs, Node, Host, Text}
use intent_packages.Schema.{Spec, map_of, scalar, int_type, required, no_more, walk}
use intent_packages.Schema.Conforms.{Conforms, walk-Conforms}
use intent_packages.Lineage.{append_transition}
use intent_packages.Semantic.Ledger.{lineage_consistency_errors}
use intent_packages.Semantic.Ledger.Laws.{append_transition-consistent}
use intent_packages.Policy.{ApprovalPolicy}
use intent_packages.Policy.Refusals.{refusals_for}
use intent_packages.Policy.Load.{load_policy}
use intent_packages.Policy.Load.Laws.{WellFormed, load_policy-WellFormed}
use intent_packages.Loader.{construct}
use intent_packages.Loader.Laws.{Unique, construct-Unique}
use intent_packages.Members.{granted_targets}
use intent_packages.Members.Laws.{Recorded, granted_targets-Recorded}
use intent_packages.Policy.Laws.Permits.{PolicyPermits, refusals_for-Permits}
use intent_packages.Operations.Approvers.{authorize_approver}
use intent_packages.Operations.Approvers.Laws.{Authorised, authorize_approver_sound}
use intent_packages.DestinationFormat.{
  destination_error, fields_of, first_word, identity_fields, Held,
}
use intent_packages.DestinationFormat.Laws.{
  destination_error-canonical, destination_error-render, AllValid, render_all, has_space,
}
use intent_packages.Profiles.Dependency.{unsafe_field_errors}
use intent_packages.Profiles.Dependency.Safety.{unsafe_field_errors-inert, InertName, solid}
use intent_packages.Examples.{host, record_of, texts, list_of}
use intent_packages.Examples.Package.{ledger_in}

abbrev attempts : Spec
attempts = map_of (required "max_attempts" (scalar int_type true none) no_more)

abbrev budgets : Value
budgets = dict (Entries.entry (Key.name "max_attempts") (int (pos 3)) Entries.end)

walk-Conforms_example : (walk attempts budgets top ≡ []) ↔ Conforms attempts budgets
walk-Conforms_example = walk-Conforms attempts budgets top

unfoldable ledger : Entries
unfolding ledger_in
ledger = ledger_in "approved" []

unfoldable longer : Entries
unfolding append_transition ledger
longer =
    elim (append_transition ledger "transition" (str "approved") "executable" "now" "devon" none) [
      | ok d ↦ d
      | _ ↦ Entries.end
    ]

append_transition-consistent_example :
    IsClean (lineage_consistency_errors (put "current_state" (str "executable") longer))
unfolding append_transition ledger longer lineage_consistency_errors
append_transition-consistent_example =
    append_transition-consistent ledger longer "approved" "executable" "now" "devon" none refl refl
      refl

unfoldable plain_row : Value
unfolding record_of
plain_row = record_of (("rationale", str "a person decides") ∷ ("decided", str "ADR-0028") ∷ [])

unfoldable granted_row : Value
unfolding record_of texts list_of
granted_row = record_of (
    ("rationale", str "a bump of a version")
    ∷ ("decided", str "ADR-0028")
    ∷ (
      "grant",
      record_of (
          ("targets_from", str "sds-member-record:factory")
          ∷ ("reach_options", list_of (texts ("source_repository" ∷ []) ∷ []))
          ∷ ("rationale", str "a bump of a version")
          ∷ ("decided", str "ADR-0028")
          ∷ ("authority_allowed", texts ("repository_read" ∷ "repository_write" ∷ []))
          ∷ ("authority_requires_approval", texts ("merge_to_main" ∷ []))
          ∷ ("authority_prohibited", texts ("secret_write" ∷ []))
          ∷ ("max_attempts", int (pos 3))
          ∷ ("max_llm_calls", int (pos 8))
          ∷ ("acceptance_evidence_types", texts ("automated_check" ∷ []))
          ∷ ("acceptance_approvers", texts ("policy" ∷ []))
          ∷ ("max_impact", texts ("low" ∷ []))
          ∷ []),
    )
    ∷ [])

unfoldable policy_document : Entries
unfolding record_of of_pairs plain_row granted_row
policy_document = of_pairs (
    ("version", int (pos 3))
    ∷ (
      "profile",
      record_of (
          ("software-delivery", plain_row)
          ∷ ("infrastructure-change", plain_row)
          ∷ ("dependency-update", granted_row)
          ∷ ("maintenance-remediation", plain_row)
          ∷ ("non-software-operational", plain_row)
          ∷ []),
    )
    ∷ [])

unfoldable members : Value
unfolding record_of list_of
members = record_of (
    (
      "members",
      list_of (
          record_of (
            ("repository", str "AlobarQuest/change-manager")
            ∷ ("state", str "active")
            ∷ ("grants", record_of (("factory", record_of (("state", str "granted") ∷ [])) ∷ []))
            ∷ [])
          ∷ []),
    )
    ∷ [])

unfoldable bump : Entries
unfolding record_of texts list_of of_pairs
bump = of_pairs (
    ("profile", str "dependency-update")
    ∷ ("reach", texts ("source_repository" ∷ []))
    ∷ (
      "profile_fields",
      record_of (
          ("target_repo", str "AlobarQuest/change-manager")
          ∷ ("standing", bool true)
          ∷ ("from_version", str "1.0.0")
          ∷ ("to_version", str "1.0.1")
          ∷ []),
    )
    ∷ (
      "acceptance",
      list_of (
          record_of (("evidence_type", str "automated_check") ∷ ("approver", str "policy") ∷ [])
          ∷ []),
    )
    ∷ (
      "authority",
      record_of (
          ("allowed", texts ("repository_write" ∷ "repository_read" ∷ []))
          ∷ ("requires_approval", texts ("merge_to_main" ∷ []))
          ∷ ("prohibited", texts ("secret_write" ∷ []))
          ∷ (
            "budgets",
            record_of (("max_attempts", int (pos 3)) ∷ ("max_llm_calls", int (pos 4)) ∷ []),
          )
          ∷ []),
    )
    ∷ ("risk", record_of (("max_impact", str "low") ∷ []))
    ∷ [])

unfoldable policy_host : Host
unfolding host members policy_document
policy_host = host Entries.end Entries.end (some members) (some policy_document)

unfoldable policy : ApprovalPolicy
unfolding load_policy policy_host
policy = elim (load_policy policy_host) [ ok p ↦ p | _ ↦ record { version = 0; grants = [] } ]

refusals_for-Permits_example : PolicyPermits policy_host policy bump
unfolding refusals_for policy policy_host bump
refusals_for-Permits_example = refusals_for-Permits policy_host policy bump refl

authorize_approver_sound_example : Authorised policy_host bump "policy:dependency-update@v3"
unfolding authorize_approver policy_host bump
authorize_approver_sound_example =
    authorize_approver_sound policy_host bump "policy:dependency-update@v3" refl

abbrev destination : Text
destination = codes "gh-actions-secret repo=\"intent-packages\" name=\"TOKEN\""

abbrev sample : Host
sample = host Entries.end Entries.end none none

accepted : destination_error sample destination ≡ none
unfolding destination_error host codes
accepted = refl

destination_error-canonical_example :
    (fs : List String) × (vs : List Held) × (fields_of (first_word destination) identity_fields
      ≡ some fs)
    × AllValid sample fs vs
    × (destination ≡ first_word destination ++ render_all fs vs)
destination_error-canonical_example = destination_error-canonical sample destination accepted

abbrev values : List Held
values = Held.held (codes "a b") ∷ Held.held (codes "TOKEN") ∷ []

destination_error-render_example :
    destination_error sample (codes "gh-actions-secret" ++ render_all ("repo" ∷ "name" ∷ []) values)
    ≡ none
unfolding destination_error host codes has_space fields_of
destination_error-render_example =
    destination_error-render sample (codes "gh-actions-secret") ("repo" ∷ "name" ∷ []) values refl
      refl (refl, (refl, tt))

unsafe_field_errors-inert_example :
    InertName (codes "fastapi")
    × (all solid (codes "0.110.0") ≡ true)
    × (all solid (codes "0.111.0") ≡ true)
unfolding unsafe_field_errors
unsafe_field_errors-inert_example = unsafe_field_errors-inert "fastapi" "0.110.0" "0.111.0" refl

load_policy-WellFormed_example : WellFormed policy
unfolding load_policy policy_host policy
load_policy-WellFormed_example = load_policy-WellFormed policy_host policy refl

granted_targets-Recorded_example : Recorded policy_host "factory" "AlobarQuest/change-manager"
unfolding granted_targets policy_host mem
granted_targets-Recorded_example =
    granted_targets-Recorded policy_host "factory" "AlobarQuest/change-manager"
      ("AlobarQuest/change-manager" ∷ []) refl refl

abbrev two_keys : Pairs
two_keys =
    Pairs.pair (Node.leaf (str "status")) (Node.leaf (str "draft"))
      (Pairs.pair (Node.leaf (str "revision")) (Node.leaf (int (pos 1))) Pairs.no_pairs)

abbrev two_entries : Entries
two_entries =
    Entries.entry (Key.name "status") (str "draft")
      (Entries.entry (Key.name "revision") (int (pos 1)) Entries.end)

construct-Unique_example : Unique two_entries
unfolding construct
construct-Unique_example = construct-Unique two_keys two_entries refl
