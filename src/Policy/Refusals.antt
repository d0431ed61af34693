-- ===== src/Policy/Refusals.antt =====
-- `ApprovalPolicy.refusals_for` of src/intent_packages/approval_policy.py.
use intent_packages.Prelude.{String, Option, none, some, List, [], ◌∷◌, ◌==◌, if◌then◌else◌}
use intent_packages.Value.{Value, str, Entries}
use intent_packages.Value.Dict.{get}
use intent_packages.Outcome.{Outcome, ok, ◌>>=◌}
use intent_packages.Host.{Host}
use intent_packages.Policy.{
  ApprovalPolicy, Grant, Refusal, profile_not_policy_approvable, profile_undeclared,
  profile_unrecognised,
}
use intent_packages.Policy.Judge.{
  Answer, acceptance_refusal, authority_refusal, budget_refusal, bump_refusal, impact_refusal,
  reach_refusal, standing_refusal, target_refusal,
}

-- The objections that were raised, in order.
unfoldable pub gather : List Answer → Outcome (List Refusal)
gather [] = ok []
gather (a ∷ as') =
    let rest = gather as' in a >>= λ r. (rest >>= λ rs. ok (elim r [ none ↦ rs | some x ↦ x ∷ rs ]))

unfoldable pub find_grant : String → List (String × Option Grant) → Option (Option Grant)
find_grant k [] = none
find_grant k ((j, g) ∷ gs) = if k == j then some g else find_grant k gs

module _ (H : Host) where
  -- The tests of a grant, in order.
  abbrev pub grant_answers : Entries → Grant → List Answer
  grant_answers pkg g =
      target_refusal H pkg g
      ∷ standing_refusal pkg
      ∷ bump_refusal pkg
      ∷ reach_refusal pkg g
      ∷ authority_refusal pkg g
      ∷ budget_refusal pkg g
      ∷ acceptance_refusal pkg g
      ∷ impact_refusal pkg g
      ∷ []

  unfoldable pub grant_refusals : Entries → Grant → Outcome (List Refusal)
  unfolding gather target_refusal standing_refusal bump_refusal reach_refusal authority_refusal
      budget_refusal acceptance_refusal impact_refusal
  grant_refusals pkg g = gather (grant_answers pkg g)

  unfoldable pub by_grant : Option (Option Grant) → Entries → Outcome (List Refusal)
  unfolding grant_refusals
  by_grant none pkg = ok (profile_unrecognised ∷ [])
  by_grant (some none) pkg = ok (profile_not_policy_approvable ∷ [])
  by_grant (some (some g)) pkg = grant_refusals pkg g

  unfoldable pub by_profile : Value → ApprovalPolicy → Entries → Outcome (List Refusal)
  unfolding by_grant find_grant
  by_profile (str p) policy pkg =
      if p == "" then ok (profile_undeclared ∷ []) else by_grant (find_grant p policy.grants) pkg
  by_profile _ policy pkg = ok (profile_undeclared ∷ [])

  unfoldable pub refusals_for : ApprovalPolicy → Entries → Outcome (List Refusal)
  unfolding by_profile get
  refusals_for policy pkg = by_profile (get pkg "profile") policy pkg
