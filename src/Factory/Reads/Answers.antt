-- ===== src/Factory/Reads/Answers.antt =====
-- The shared reads of src/intent_packages/factory/reads.py, where they answer: what the service
-- replied, and what was derived from it.
use intent_packages.Prelude.{◌≡◌, sym, ap, ◌∙◌}
use intent_packages.Value.{Value, Entries, Items, list, dict, to_list}
use intent_packages.Outcome.{ok}
use intent_packages.Factory.Session.{Route, Session, Backend, done}
use intent_packages.Factory.Api.{shown, reading, history, in_flight_units}
use intent_packages.Factory.Api.Quiet.{bind-done, lift-done}
use intent_packages.Factory.Api.Answers.{ReplyTo, request_dict-Replied, request_list-Replied}
use intent_packages.Factory.Views.{snapshot_of, latest_dispatched}
use intent_packages.Factory.Reads.{rows_of, in_flight_snapshot, latest_dispatched_payload}

module _ (B : Backend) where
  -- The row is that of the unit, in units in flight that the service listed.
  abbrev pub RowRead : Value → Value → Type 0
  RowRead unit_id snapshot =
      (s : Session) × (body : Entries) × ReplyTo B s.requests (reading B Route.in_flight_units)
        (dict body)
      × (snapshot_of B unit_id body ≡ ok snapshot)

  pub in_flight_snapshot-RowRead :
      (unit_id snapshot : Value) (s s' : Session)
      → in_flight_snapshot B unit_id s ≡ (done snapshot, s')
      → RowRead unit_id snapshot
  unfolding in_flight_snapshot in_flight_units
  in_flight_snapshot-RowRead unit_id snapshot s s' h =
      let (body, s1, m, h1) = bind-done (in_flight_units B s) _ h in
      let (_, status, text, a) =
        request_dict-Replied B (reading B Route.in_flight_units) s s1 body m in
      (s, body, (status, text, a), lift-done _ (ap (λ p. p.0) h1))

  -- The payload is that of the latest dispatch in a history of the unit that the service sent.
  abbrev pub DispatchRead : Value → Value → Type 0
  DispatchRead unit_id payload =
      (s : Session) × (xs : Items) × ReplyTo B s.requests
        (reading B (Route.history (shown B unit_id))) (list xs)
      × (latest_dispatched B (to_list xs) ≡ ok payload)

  pub latest_dispatched_payload-DispatchRead :
      (unit_id payload : Value) (s s' : Session)
      → latest_dispatched_payload B unit_id s ≡ (done payload, s')
      → DispatchRead unit_id payload
  unfolding latest_dispatched_payload history rows_of
  latest_dispatched_payload-DispatchRead unit_id payload s s' h =
      let (v, s1, m, h1) = bind-done (history B (shown B unit_id) s) _ h in
      let (xs, e, (_, status, text, a)) =
        request_list-Replied B (reading B (Route.history (shown B unit_id))) s s1 v m in
      (
        s,
        xs,
        (status, text, a),
        ap (λ w. latest_dispatched B (rows_of B w)) (sym e) ∙ lift-done _ (ap (λ p. p.0) h1),
      )
