-- ===== src/Factory/Reads/Laws.antt =====
-- The shared reads of src/intent_packages/factory/reads.py post nothing.
use intent_packages.Prelude.{String, refl, List}
use intent_packages.Value.{Value, is_null}
use intent_packages.Factory.Session.{Backend, lift, print, pure, err, resume, ◌>>◌}
use intent_packages.Factory.Api.{traceability, history, in_flight_units, shown}
use intent_packages.Factory.Api.Quiet.{
  Quiet, Quiet-bind, Quiet-if, Quiet-traceability, Quiet-history, Quiet-in_flight_units,
}
use intent_packages.Factory.Views.{UnitView, unit_id_for_key}
use intent_packages.Factory.Reads.{
  units_for, unknown_key, found_or_named, resolve_unit_id, in_flight_snapshot, scan_dispatch_events,
  joinable, latest_dispatched_payload, keys_of,
}

module _ (B : Backend) where
  pub Quiet-units_for : (revision : String) → Quiet (units_for B revision)
  unfolding units_for
  Quiet-units_for revision =
      Quiet-bind (traceability B revision) _ (Quiet-traceability B revision) (λ _ s. refl)

  Quiet-unknown_key : (units : List UnitView) (id : Value) → Quiet (unknown_key B units id)
  unfolding unknown_key resume
  Quiet-unknown_key units id =
      Quiet-bind (lift (joinable (keys_of units)))
        (λ _. print (err "unknown --unit-key; known keys") >> pure id) (λ s. refl) (λ _ s. refl)

  Quiet-found_or_named : (units : List UnitView) (id : Value) → Quiet (found_or_named B units id)
  unfolding found_or_named
  Quiet-found_or_named units id =
      Quiet-if (is_null id) (unknown_key B units id) (pure id) (Quiet-unknown_key units id)
        (λ s. refl)

  pub Quiet-resolve_unit_id :
      (revision unit_key : String) → Quiet (resolve_unit_id B revision unit_key)
  unfolding resolve_unit_id
  Quiet-resolve_unit_id revision unit_key =
      Quiet-bind (units_for B revision) _ (Quiet-units_for revision)
        (λ units. Quiet-found_or_named units (unit_id_for_key units unit_key))

  pub Quiet-in_flight_snapshot : (unit_id : Value) → Quiet (in_flight_snapshot B unit_id)
  unfolding in_flight_snapshot
  Quiet-in_flight_snapshot unit_id =
      Quiet-bind (in_flight_units B) _ (Quiet-in_flight_units B) (λ _ s. refl)

  pub Quiet-scan_dispatch_events : (unit_id : Value) → Quiet (scan_dispatch_events B unit_id)
  unfolding scan_dispatch_events
  Quiet-scan_dispatch_events unit_id =
      Quiet-bind (history B (shown B unit_id)) _ (Quiet-history B (shown B unit_id)) (λ _ s. refl)

  pub Quiet-latest_dispatched_payload :
      (unit_id : Value) → Quiet (latest_dispatched_payload B unit_id)
  unfolding latest_dispatched_payload
  Quiet-latest_dispatched_payload unit_id =
      Quiet-bind (history B (shown B unit_id)) _ (Quiet-history B (shown B unit_id)) (λ _ s. refl)
