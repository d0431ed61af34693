-- ===== src/Factory/Reads.antt =====
-- src/intent_packages/factory/reads.py: the reads that the verbs share, each with its requests.
pub mod Laws
pub mod Answers
use intent_packages.Prelude.{
  String, Bool, true, false, not, Option, none, some, List, [], ◌∷◌, ◌==◌, all, if◌then◌else◌,
}
use intent_packages.Value.{Value, ℤ, Items, list, to_list, is_null, is_str}
use intent_packages.Value.Access.{iterate}
use intent_packages.Outcome.{Outcome, ok, raised, type_error}
use intent_packages.Factory.Session.{Backend, Verb, Line, err, ◌>>=◌, ◌>>◌, pure, lift, print}
use intent_packages.Factory.Api.{shown, traceability, history, in_flight_units}
use intent_packages.Factory.Views.{
  UnitView, units_of, unit_id_for_key, snapshot_of, scan_history, latest_dispatched,
}

-- `", ".join(sorted(…))` wants texts.
unfoldable pub joinable : List Value → Outcome (Unit {0})
unfolding all
joinable vs = if all is_str vs then ok tt else raised type_error

abbrev keys_of : List UnitView → List Value
keys_of [] = []
keys_of (u ∷ us) = u.unit_key ∷ keys_of us

module _ (B : Backend) where
  -- `resolve_revision`: `none` where it raises `RevisionRequired`.
  unfoldable pub resolve_revision : String → Option String
  resolve_revision revision =
      if not (revision == "")
      then some revision
      else if not (B.revision_env == "")
      then some B.revision_env
      else none

  unfoldable pub units_for : String → Verb (List UnitView)
  unfolding traceability units_of
  units_for revision = traceability B revision >>= λ body. lift (units_of body)

  unfoldable pub unknown_key : List UnitView → Value → Verb Value
  unfolding joinable
  unknown_key units id = do
    lift (joinable (keys_of units))
    print (err "unknown --unit-key; known keys")
    pure id

  unfoldable pub found_or_named : List UnitView → Value → Verb Value
  unfolding unknown_key
  found_or_named units id = if is_null id then unknown_key units id else pure id

  -- `resolve_unit_id`: null where no live unit has the key, which is said.
  unfoldable pub resolve_unit_id : String → String → Verb Value
  unfolding units_for unit_id_for_key found_or_named
  resolve_unit_id revision unit_key = do
    units ← units_for revision
    found_or_named units (unit_id_for_key units unit_key)

  unfoldable pub in_flight_snapshot : Value → Verb Value
  unfolding in_flight_units snapshot_of
  in_flight_snapshot unit_id = in_flight_units B >>= λ body. lift (snapshot_of B unit_id body)

  unfoldable pub rows_of : Value → List Value
  unfolding to_list
  rows_of (list xs) = to_list xs
  rows_of _ = []

  -- One `history` request: the highest ordinal, and every record id.
  unfoldable pub scan_dispatch_events : Value → Verb (ℤ × List Value)
  unfolding history shown scan_history rows_of
  scan_dispatch_events unit_id =
      history B (shown B unit_id) >>= λ events. lift (scan_history B (rows_of events))

  unfoldable pub latest_dispatched_payload : Value → Verb Value
  unfolding history shown latest_dispatched rows_of
  latest_dispatched_payload unit_id =
      history B (shown B unit_id) >>= λ events. lift (latest_dispatched B (rows_of events))
