-- ===== src/Policy.antt =====
-- src/intent_packages/approval_policy.py: the grants of the policy and its objections.
pub mod Approver
pub mod Load
pub mod Judge
pub mod Refusals
pub mod Laws
use Prim.Native.Nat.{Ordering}
use Prim.Native.String.{compare}
use intent_packages.Prelude.{
  ℕ, suc, String, Bool, true, false, not, ◌&&◌, ◌||◌, Option, none, some, List, [], ◌∷◌, ◌++◌, ◌==◌,
  mem, leb, ltb, length, if◌then◌else◌, all, any,
}
use intent_packages.Value.{
  Value, null, bool, int, pos, str, list, dict, Entries, Items, nil, cons, to_list, is_str, is_int,
  in_set, truthy,
}
use intent_packages.Value.Dict.{get}
use intent_packages.Outcome.{Exn, Outcome, ok, raised, type_error, members_unreadable, ◌>>=◌}
use intent_packages.Host.{Host}
use intent_packages.Members.{granted_targets}

-- Why policy objects.
pub data Refusal : Type 0 where
  profile_undeclared profile_unrecognised profile_not_policy_approvable : Refusal
  target_repository_not_permitted member_record_unreadable reach_not_permitted : Refusal
  authority_terms_not_permitted budget_above_ceiling acceptance_not_permitted : Refusal
  max_impact_not_permitted bump_versions_not_distinct not_a_standing_package : Refusal

pub record Grant : Type 0 where
  pub rationale : String
  pub decided : String
  pub target_repositories : List String
  pub target_service : Option String
  pub reach_options : List (List String)
  pub authority_allowed : List String
  pub authority_requires_approval : List String
  pub authority_prohibited : List String
  pub max_attempts : ℕ
  pub max_llm_calls : ℕ
  pub acceptance_evidence_types : List String
  pub acceptance_approvers : List String
  pub max_impact : List String

pub record ApprovalPolicy : Type 0 where
  pub version : ℕ
  pub grants : List (String × Option Grant)
