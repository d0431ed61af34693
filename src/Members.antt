-- ===== src/Members.antt =====
-- src/intent_packages/members.py: the repositories whose member holds a grant. The HTTP call is the
-- host's; reading its body is modelled.
pub mod Laws
use intent_packages.Prelude.{
  Option, none, some, String, not, ◌&&◌, none, some, List, [], ◌∷◌, ◌==◌, if◌then◌else◌,
}
use intent_packages.Value.{Value, str, list, dict, to_list}
use intent_packages.Value.Dict.{get, subscript}
use intent_packages.Outcome.{Outcome, ok, raised, members_unreadable, key_error, type_error, ◌>>=◌}
use intent_packages.Host.{Host}

-- The three fields that are read of a member.
pub record Fields : Type 0 where
  pub repository : Value
  pub state : Value
  pub grant_state : Value

unfoldable pub member_fields : String → Value → Outcome Fields
unfolding subscript
member_fields service member = subscript member "repository" >>= λ repository.
    (subscript member "state" >>= λ state.
    (subscript member "grants" >>= λ grants.
    (subscript grants service >>= λ grant.
    (subscript grant "state" >>= λ g.
    ok (record { repository = repository; state = state; grant_state = g })))))

-- `except KeyError, TypeError`
abbrev as_unreadable {ℓ} : {A : Type ℓ} → Outcome A → Outcome A
as_unreadable (raised (key_error k)) = raised (members_unreadable "a member lacked a field")
as_unreadable (raised type_error) = raised (members_unreadable "a member lacked a field")
as_unreadable m = m

module _ (H : Host) where
  add_member : String → String → String → List String → List String
  add_member repository state g granted =
      if not (state == "retired") && g == "granted"
      then H.casefold repository ∷ granted
      else granted

  add_texts : Value → Value → Value → List String → Outcome (List String)
  unfolding add_member
  add_texts (str r) (str s) (str g) granted = ok (add_member r s g granted)
  add_texts _ _ _ granted =
      raised (members_unreadable "a member held a non-string repository or state")

  unfoldable pub target_loop : String → List Value → List String → Outcome (List String)
  unfolding member_fields add_texts
  target_loop service [] granted = ok granted
  target_loop service (m ∷ ms) granted = as_unreadable (member_fields service m) >>= λ f.
      (add_texts f.repository f.state f.grant_state granted >>= λ more. target_loop service ms more)

  unfoldable pub targets_of : Value → String → Outcome (List String)
  unfolding target_loop to_list
  targets_of (list ms) service = target_loop service (to_list ms) []
  targets_of _ service = raised (members_unreadable "the member record had no members list")

  unfoldable pub members_of : Value → Value
  unfolding get
  members_of (dict body) = get body "members"
  members_of _ = Value.null

  unfoldable pub targets_from : Option Value → String → Outcome (List String)
  unfolding targets_of members_of
  targets_from none service = raised (members_unreadable "the member record was unreachable")
  targets_from (some body) service = targets_of (members_of body) service

  -- `granted_targets`: case-folded repositories.
  unfoldable pub granted_targets : String → Outcome (List String)
  unfolding targets_from
  granted_targets service = targets_from H.members_body service
