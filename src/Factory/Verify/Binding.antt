-- ===== src/Factory/Verify/Binding.antt =====
-- src/intent_packages/factory/verify.py: what named-check evidence is bound to. It is read off the
-- payload of the latest dispatch and off the row of the unit, or refused.
use intent_packages.Prelude.{
  String, ◌<>◌, not, ◌&&◌, ◌||◌, Option, none, some, List, [], ◌∷◌, if◌then◌else◌,
}
use intent_packages.Value.{Value, str, Entries, is_null, truthy, in_set}
use intent_packages.Value.Dict.{of_pairs}
use intent_packages.Value.Equal.{value_eq}
use intent_packages.Value.Access.{field_of}
use intent_packages.Outcome.{Outcome, ok, ◌>>=◌}
use intent_packages.Factory.Session.{Backend}
use intent_packages.Factory.Api.{shown}

abbrev pub verifiable_states : List String
verifiable_states = "submitted" ∷ "verifying" ∷ []

-- The dispatch record and the repository of a dispatch.
pub record Dispatched : Type 0 where
  pub dispatch_id : Value
  pub repository : Value

-- What a row says of a pull request that is armed for verification.
pub record Armed : Type 0 where
  pub work_package_revision_id : Value
  pub pr_number : Value
  pub head_sha : Value
  pub version : Value

unfoldable pub dispatched_in : Value → Outcome (Option Dispatched)
unfolding field_of truthy
dispatched_in payload = if is_null payload then ok none else (do
  dispatch_id ← field_of payload "dispatch_record_id"
  repository ← field_of payload "target_repository"
  ok (
      if truthy dispatch_id && truthy repository
      then some (record { dispatch_id = dispatch_id; repository = repository })
      else none))

-- The checks of a row, in their order; a state that cannot be hashed raises.
unfoldable pub armed_in : Value → Outcome (Option Armed)
unfolding field_of truthy in_set value_eq
armed_in snapshot = if is_null snapshot then ok none else (do
  pr_number ← field_of snapshot "pr_number"
  current ← field_of snapshot "head_sha"
  armed ← field_of snapshot "verification_read_head_sha"
  state ← field_of snapshot "state"
  revision ← field_of snapshot "work_package_revision_id"
  version ← field_of snapshot "version"
  if is_null pr_number || not (truthy armed)
      then ok none
      else in_set state verifiable_states >>= λ verifiable. ok (
          if verifiable && value_eq current armed
          then some (record {
            work_package_revision_id = revision;
            pr_number = pr_number;
            head_sha = armed;
            version = version;
          })
          else none))

module _ (B : Backend) where
  -- The body of the named-check post, without its key.
  unfoldable pub named_check_payload : Dispatched → Armed → String → String → String → Entries
  unfolding shown of_pairs
  named_check_payload d a ac_id check_name conclusion = of_pairs (
      ("work_package_revision_id", a.work_package_revision_id)
      ∷ ("ac_id", str ac_id)
      ∷ ("dispatch_id", d.dispatch_id)
      ∷ ("repository", d.repository)
      ∷ ("pr_number", a.pr_number)
      ∷ (
        "pr_url",
        str ("https://github.com/" <> shown B d.repository <> "/pull/" <> shown B a.pr_number),
      )
      ∷ ("head_sha", a.head_sha)
      ∷ ("check_name", str check_name)
      ∷ ("expected_conclusion", str conclusion)
      ∷ ("expected_version", a.version)
      ∷ [])
