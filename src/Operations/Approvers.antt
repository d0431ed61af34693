-- ===== src/Operations/Approvers.antt =====
-- Who may approve, in src/intent_packages/operations.py: `_is_recognised_approver`,
-- `_has_matching_approval`, `_approval_entries` and `_authorize_approver`.
pub mod Laws
use intent_packages.Prelude.{
  String, Bool, true, false, not, ◌&&◌, ◌||◌, Option, none, some, List, [], ◌∷◌, ◌==◌, codes,
  same_text, if◌then◌else◌,
}
use intent_packages.Value.{Value, str, list, dict, Entries, Items, to_list, is_text}
use intent_packages.Value.Dict.{get, lookup}
use intent_packages.Outcome.{Outcome, ok, raised, Exn, policy_error, operation_error, ◌>>=◌}
use intent_packages.Host.{Host}
use intent_packages.Registry.{is_human_operator}
use intent_packages.Policy.{ApprovalPolicy, Refusal}
use intent_packages.Policy.Refusals.{refusals_for}
use intent_packages.Policy.Approver.{is_policy_approver, approver_for}
use intent_packages.Policy.Load.{load_policy}

-- `approver != expected`, where a profile that is no text expects `None`.
abbrev pub is_expected : String → Value → ApprovalPolicy → Bool
is_expected approver (str profile) policy = same_text (codes approver) (approver_for policy profile)
is_expected approver _ policy = false

no_refusals : List Refusal → Outcome (Unit {0})
no_refusals [] = ok tt
no_refusals (r ∷ rs) = raised (operation_error "the approval policy refuses this revision")

-- `except ApprovalPolicyError`
readable : Outcome ApprovalPolicy → Outcome ApprovalPolicy
readable (raised (policy_error w)) =
    raised (operation_error "the approval policy could not be read")
readable m = m

module _ (H : Host) where
  unfoldable pub is_recognised_approver : Value → Outcome Bool
  unfolding is_human_operator is_policy_approver
  is_recognised_approver (str s) =
      is_human_operator H s >>= λ human. ok (human || is_policy_approver s)
  is_recognised_approver _ = ok false

  -- `any(…)` over the entries, up to the first that matches.
  unfoldable pub any_approval : List Value → String → Outcome Bool
  unfolding get is_recognised_approver
  any_approval [] h = ok false
  any_approval (dict a ∷ as') h =
      let rest = any_approval as' h in
      if is_text (get a "approved_hash") h
      then is_recognised_approver (get a "approver")
        >>= (λ known. (if known then ok true else rest))
      else rest
  any_approval (v ∷ as') h = any_approval as' h

  unfoldable pub has_matching_approval : Value → String → Outcome Bool
  unfolding any_approval to_list
  has_matching_approval (list xs) h = any_approval (to_list xs) h
  has_matching_approval _ h = ok false

  granted_by : ApprovalPolicy → Entries → String → Outcome (Unit {0})
  unfolding get no_refusals refusals_for approver_for codes same_text
  granted_by policy pkg approver =
      if is_expected approver (get pkg "profile") policy
      then refusals_for H policy pkg >>= no_refusals
      else raised (operation_error "not the approver this policy grants")

  by_policy : String → Entries → Outcome (Unit {0})
  unfolding granted_by readable load_policy is_policy_approver
  by_policy approver pkg =
      if is_policy_approver approver
      then readable (load_policy H) >>= (λ policy. granted_by policy pkg approver)
      else raised (operation_error "neither a human operator nor a policy approver")

  -- `_authorize_approver`: a human operator first, then the policy for this package.
  unfoldable pub authorize_approver : Entries → String → Outcome (Unit {0})
  unfolding is_human_operator by_policy
  authorize_approver pkg approver =
      is_human_operator H approver >>= λ human. (if human then ok tt else by_policy approver pkg)

-- `lineage_data.get("approvals", [])`, where a missing key counts as no entries.
unfoldable pub approvals_of : Entries → Value
unfolding lookup
approvals_of lin = elim (lookup "approvals" lin) [ none ↦ list Items.nil | some v ↦ v ]

unfoldable pub as_entries : Value → Outcome Value
as_entries (list xs) = ok (list xs)
as_entries _ = raised (operation_error "approvals must be a list")

unfoldable pub approval_entries : Entries → Outcome Value
unfolding approvals_of as_entries
approval_entries lin = as_entries (approvals_of lin)
