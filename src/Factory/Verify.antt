-- ===== src/Factory/Verify.antt =====
-- src/intent_packages/factory/verify.py: the verb `verify`, which posts named-check evidence for a
-- unit and then has the unit verified.
pub mod Criteria
pub mod Binding
pub mod Writes
pub mod Bound
pub mod Posts
pub mod Laws
use intent_packages.Prelude.{
  ℕ, String, ◌<>◌, Bool, true, false, not, ◌&&◌, ◌||◌, Option, none, some, List, [], ◌∷◌, ◌==◌, all,
  if◌then◌else◌,
}
use intent_packages.Value.{Value, str, list, dict, Entries, nil, is_dict, is_null, is_text}
use intent_packages.Value.Dict.{get, put, of_pairs, item}
use intent_packages.Value.Access.{field_or, iterate}
use intent_packages.Outcome.{Outcome, ok, raised, attribute_error}
use intent_packages.Factory.Session.{
  Backend, Verb, Line, out, err, ◌>>=◌, ◌>>◌, pure, lift, print, catch, exit, give_up, draw,
}
use intent_packages.Factory.Api.{shown, get_intake, named_check}
use intent_packages.Factory.Api
use intent_packages.Factory.Execution.{keyed}
use intent_packages.Factory.Reads.{
  resolve_revision, resolve_unit_id, in_flight_snapshot, latest_dispatched_payload,
}
use intent_packages.Factory.Verify.Criteria.{ac_refused}
use intent_packages.Factory.Verify.Binding.{
  Dispatched, Armed, dispatched_in, armed_in, named_check_payload,
}

-- What the command line gives.
pub record Claim : Type 0 where
  pub ac_id : String
  pub check_name : String
  pub expected_conclusion : String

-- `evaluation.get(…)` of each evaluation.
unfoldable pub readable : List Value → Outcome (Unit {0})
unfolding all
readable vs = if all is_dict vs then ok tt else raised attribute_error

module _ (B : Backend) where
  unfoldable pub refuse {ℓ} : {A : Type ℓ} → String → Verb (Option A)
  refuse why = print (err why) >> pure none

  unfoldable pub bound : Dispatched → Claim → Option Armed → Verb (Option Entries)
  unfolding named_check_payload refuse
  bound d c none = refuse "verify failed: no pull request is armed for verification"
  bound d c (some a) =
      pure (some (named_check_payload B d a c.ac_id c.check_name c.expected_conclusion))

  unfoldable pub bind_to_row : Value → Claim → Option Dispatched → Verb (Option Entries)
  unfolding in_flight_snapshot armed_in bound refuse
  bind_to_row unit_id c none = refuse "verify failed: never dispatched"
  bind_to_row unit_id c (some d) = do
    snapshot ← in_flight_snapshot B unit_id
    armed ← lift (armed_in snapshot)
    bound d c armed

  -- `_derive_named_check_payload`
  unfoldable pub derive_payload : Value → Claim → Verb (Option Entries)
  unfolding latest_dispatched_payload dispatched_in bind_to_row
  derive_payload unit_id c = do
    payload ← latest_dispatched_payload B unit_id
    dispatched ← lift (dispatched_in payload)
    bind_to_row unit_id c dispatched

  -- The two posts.
  unfoldable pub post_evidence : Value → Entries → Verb (Option (Value × Entries))
  unfolding item draw named_check Api.verify shown put of_pairs
  post_evidence unit_id payload = do
    version ← lift (item payload "expected_version")
    key ← draw B
    _accepted ←
        named_check B (shown B unit_id)
          (put "idempotency_key" (str ("factory-verify-" <> key)) payload)
    key' ← draw B
    reply ← Api.verify B (shown B unit_id) (keyed ("factory-verify-" <> key') version)
    pure (some (unit_id, reply))

  abbrev post_bound : Value → Option Entries → Verb (Option (Value × Entries))
  post_bound unit_id none = pure none
  post_bound unit_id (some payload) = post_evidence unit_id payload

  unfoldable pub verify_unit : Value → Claim → Verb (Option (Value × Entries))
  unfolding derive_payload post_evidence
  verify_unit unit_id c = do payload ← derive_payload unit_id c; post_bound unit_id payload

  unfoldable pub verify_admitted : String → String → Claim → Verb (Option (Value × Entries))
  unfolding resolve_unit_id verify_unit
  verify_admitted revision unit_key c = do
    unit_id ← resolve_unit_id B revision unit_key
    if is_null unit_id then pure none else verify_unit unit_id c

  unfoldable pub verify_resolved : String → String → Claim → Verb (Option (Value × Entries))
  unfolding get_intake ac_refused verify_admitted refuse
  verify_resolved revision unit_key c = do
    intake ← get_intake B revision
    refused ← lift (ac_refused intake c.ac_id)
    if refused
        then refuse "verify failed: the criterion accepts no named-check evidence"
        else verify_admitted revision unit_key c

  unfoldable pub by_result : Value → Verb ℕ
  by_result result =
      if is_text result "completed"
      then print (out "verified: every required acceptance criterion passed") >> exit 0
      else (if is_text result "awaiting_review"
          then print (out "NOT A PASS: this unit is awaiting human review") >> exit 0
          else give_up "verify: the result is not a pass" 1)

  -- `_report_verification`
  unfoldable pub report_verification : Entries → Verb ℕ
  unfolding field_or iterate readable by_result get
  report_verification reply = do
    evaluations ← lift (field_or (dict reply) "evaluations" (list nil))
    rows ← lift (iterate evaluations)
    lift (readable rows)
    by_result (get reply "result")

  abbrev report_reply : Option (Value × Entries) → Verb ℕ
  report_reply none = exit 1
  report_reply (some (unit_id, reply)) = report_verification reply

  unfoldable pub verify_reported : String → String → Claim → Verb ℕ
  unfolding verify_resolved report_verification refuse
  verify_reported revision unit_key c = do
    reply ← catch (verify_resolved revision unit_key c) (λ _. refuse "verify failed")
    report_reply reply

  unfoldable pub verify : String → String → Claim → Verb ℕ
  unfolding resolve_revision verify_reported
  verify revision unit_key c = elim (resolve_revision B revision) [
    | none ↦ give_up "verify failed: no revision id" 2
    | some r ↦ verify_reported r unit_key c
  ]
