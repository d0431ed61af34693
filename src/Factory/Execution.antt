-- ===== src/Factory/Execution.antt =====
-- src/intent_packages/factory/execution.py: the verbs `ready` and `dispatch`, which move a unit.
pub mod Writes
pub mod Verdict
pub mod Scanned
pub mod Laws
use intent_packages.Prelude.{
  ℕ, String, ◌<>◌, Bool, true, false, not, ◌&&◌, ◌||◌, Option, none, some, List, [], ◌∷◌, ◌==◌, all,
  if◌then◌else◌,
}
use intent_packages.Value.{Value, ℤ, str, dict, Entries, is_null, is_text, truthy}
use intent_packages.Value.Dict.{get, subscript, of_pairs}
use intent_packages.Outcome.{Outcome, ok}
use intent_packages.Factory.Session.{
  Backend, Verb, ApiError, Line, out, err, ◌>>=◌, ◌>>◌, pure, lift, print, catch, exit, give_up,
  draw,
}
use intent_packages.Factory.Api.{shown, resolve_version, command}
use intent_packages.Factory.Api
use intent_packages.Factory.Views.{in_ids, listed, state_is}
use intent_packages.Factory.Reads.{
  resolve_revision, resolve_unit_id, in_flight_snapshot, scan_dispatch_events, joinable,
}

abbrev pub keyed : String → Value → Entries
keyed key version = of_pairs (("idempotency_key", str key) ∷ ("expected_version", version) ∷ [])

-- What `dispatch` has read before it posts: the unit, its row, and its record ids.
pub record Target : Type 0 where
  pub unit_id : Value
  pub snapshot : Value
  pub prior : List Value

-- `current_ids - prior_dispatch_ids`
unfoldable pub minus : List Value → List Value → List Value
unfolding listed
minus [] prior = []
minus (v ∷ vs) prior = let rest = minus vs prior in if listed v prior then rest else v ∷ rest

abbrev is_inconclusive : ApiError → Bool
is_inconclusive e = e.code == "api_timeout" || e.code == "api_unavailable"

abbrev pub landed_line : Line
landed_line = err "dispatch: IT LANDED; do not retry"

abbrev pub unlanded_line : Line
unlanded_line = err "dispatch: it did not land; re-running this command is safe"

abbrev pub unknown_line : Line
unknown_line = err "dispatch: could NOT determine whether it landed; do not retry blind"

module _ (B : Backend) where
  -- A unit that is not ready yet: the probe, then the command.
  unfoldable pub make_ready : Value → String → Verb ℕ
  unfolding resolve_version command shown of_pairs
  make_ready unit_id key = do
    version ←
        resolve_version B (shown B unit_id) (of_pairs (("idempotency_key", str key) ∷ [])) "ready"
    _result ← command B (shown B unit_id) "ready" (keyed key version)
    print (out "unit moved; next: factory dispatch")
    exit 0

  unfoldable pub already_ready : Verb ℕ
  already_ready = print (out "unit is already ready; next: factory dispatch") >> exit 0

  unfoldable pub ready_unit : String → Value → Verb ℕ
  unfolding in_flight_snapshot state_is make_ready already_ready
  ready_unit key unit_id = do
    snapshot ← in_flight_snapshot B unit_id
    already ← lift (state_is snapshot "ready")
    if already then already_ready else make_ready unit_id key

  unfoldable pub ready_resolved : String → String → String → Verb ℕ
  unfolding resolve_unit_id ready_unit
  ready_resolved revision unit_key key = do
    unit_id ← resolve_unit_id B revision unit_key
    if is_null unit_id then exit 1 else ready_unit key unit_id

  unfoldable pub ready : String → String → Verb ℕ
  unfolding resolve_revision draw ready_resolved
  ready revision unit_key = elim (resolve_revision B revision) [
    | none ↦ give_up "ready failed: no revision id" 2
    | some r ↦ do
      key ← draw B
      catch (ready_resolved r unit_key ("factory-ready-" <> key)) (λ _. give_up "ready failed" 1)
  ]

  unfoldable pub not_in_flight : Verb (Option Target)
  not_in_flight = print (err "dispatch failed: unit is not in flight") >> pure none

  unfoldable pub scanned : Value → Value → Verb (Option Target)
  unfolding scan_dispatch_events
  scanned unit_id snapshot = do
    scan ← scan_dispatch_events B unit_id
    pure (some (record { unit_id = unit_id; snapshot = snapshot; prior = scan.1 }))

  unfoldable pub prepare_unit : Value → Verb (Option Target)
  unfolding in_flight_snapshot not_in_flight scanned
  prepare_unit unit_id = do
    snapshot ← in_flight_snapshot B unit_id
    if is_null snapshot then not_in_flight else scanned unit_id snapshot

  -- The reads of `dispatch`; `none` where it refuses.
  unfoldable pub prepare : String → String → Verb (Option Target)
  unfolding resolve_unit_id prepare_unit
  prepare revision unit_key = do
    unit_id ← resolve_unit_id B revision unit_key
    if is_null unit_id then pure none else prepare_unit unit_id

  unfoldable pub say_landed : List Value → Verb (Unit {0})
  unfolding joinable
  say_landed [] = print unlanded_line
  say_landed (v ∷ vs) = do lift (joinable (v ∷ vs)); print landed_line

  unfoldable pub compare_ids : Value → List Value → Verb (Unit {0})
  unfolding scan_dispatch_events minus say_landed
  compare_ids unit_id prior = do
    scan ← scan_dispatch_events B unit_id
    say_landed (minus scan.1 prior)

  -- `_reconcile_inconclusive_dispatch`
  unfoldable pub reconcile : Target → Verb (Unit {0})
  unfolding compare_ids
  reconcile t = catch (compare_ids t.unit_id t.prior) (λ _. print unknown_line)

  -- The handler of the POST's error: the failure is said, and where the POST may have been acted on,
  -- whether it was.
  unfoldable pub dispatch_failed : Target → ApiError → Verb (Option Entries)
  unfolding truthy reconcile
  dispatch_failed t e = do
    print (err "dispatch failed")
    if is_inconclusive e && truthy t.unit_id then reconcile t else pure tt
    pure none

  unfoldable pub no_op : Verb ℕ
  no_op = give_up "dispatch was a silent no-op: the returned record was already there" 1

  unfoldable pub by_status : Entries → Verb ℕ
  unfolding get
  by_status reply =
      if is_text (get reply "status") "dispatched"
      then print (out "dispatched") >> exit 0
      else give_up "dispatch failed: no workflow_dispatch fired" 1

  -- `new_id is not None and new_id in prior_dispatch_ids`
  unfoldable pub is_repeat : Value → List Value → Outcome Bool
  unfolding in_ids
  is_repeat id prior = if is_null id then ok false else in_ids id prior

  -- `_report_dispatch_outcome`
  unfoldable pub report_dispatch : Entries → List Value → Verb ℕ
  unfolding is_repeat no_op by_status get
  report_dispatch reply prior = do
    repeat ← lift (is_repeat (get reply "id") prior)
    if repeat then no_op else by_status reply

  unfoldable pub posted : Target → Entries → Verb (Option Entries)
  unfolding shown Api.dispatch
  posted t payload = do reply ← Api.dispatch B (shown B t.unit_id) payload; pure (some reply)

  abbrev report_reply : Target → Option Entries → Verb ℕ
  report_reply t none = exit 1
  report_reply t (some reply) = report_dispatch reply t.prior

  unfoldable pub dispatch_target : Target → Verb ℕ
  unfolding draw subscript posted dispatch_failed report_dispatch of_pairs
  dispatch_target t = do
    key ← draw B
    version ← lift (subscript t.snapshot "version")
    reply ← catch (posted t (keyed ("factory-dispatch-" <> key) version)) (dispatch_failed t)
    report_reply t reply

  abbrev dispatch_prepared : Option Target → Verb ℕ
  dispatch_prepared none = exit 1
  dispatch_prepared (some t) = dispatch_target t

  unfoldable pub dispatch_resolved : String → String → Verb ℕ
  unfolding prepare dispatch_target
  dispatch_resolved revision unit_key = do
    target ← catch (prepare revision unit_key) (λ _. print (err "dispatch failed") >> pure none)
    dispatch_prepared target

  unfoldable pub dispatch : String → String → Verb ℕ
  unfolding resolve_revision dispatch_resolved
  dispatch revision unit_key = elim (resolve_revision B revision) [
    | none ↦ give_up "dispatch failed: no revision id" 2
    | some r ↦ dispatch_resolved r unit_key
  ]
