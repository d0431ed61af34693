-- ===== src/Factory/Execution/Scanned.antt =====
-- What `dispatch` of src/intent_packages/factory/execution.py has read before it posts.
use intent_packages.Prelude.{
  String, ◌≡◌, sym, ap, ◌∙◌, inl, inr, true, some, List, [], ◌∷◌, ◌++◌, arith, Bool-cases,
}
use intent_packages.Value.{Value, ℤ, Items, list, to_list, is_null, truthy}
use intent_packages.Outcome.{ok}
use intent_packages.Factory.Session.{Route, Session, Backend, done, resume}
use intent_packages.Factory.Api.{shown, reading, history}
use intent_packages.Factory.Api.Quiet.{bind-done, lift-done, pair-done}
use intent_packages.Factory.Api.Answers.{ReplyTo, request_list-Replied}
use intent_packages.Factory.Views.{scan_history}
use intent_packages.Factory.Reads.{
  rows_of, resolve_unit_id, in_flight_snapshot, scan_dispatch_events,
}
use intent_packages.Factory.Execution.{Target, not_in_flight, scanned, prepare_unit, prepare}

pub null-falsy : (v : Value) → is_null v ≡ true → truthy v ≡ true → ⊥
unfolding truthy
null-falsy Value.null n t = cc t
null-falsy v n t = ground arith

module _ (B : Backend) where
  -- The ids of the scan are those of the history that was read.
  abbrev pub Scanned : Value → List Value → Session → Session → Type 0
  Scanned unit_id prior s s' =
      (xs : Items) × (latest : ℤ) × ReplyTo B s.requests
        (reading B (Route.history (shown B unit_id))) (list xs)
      × (s'.requests ≡ s.requests ++ reading B (Route.history (shown B unit_id)) ∷ [])
      × (scan_history B (to_list xs) ≡ ok (latest, prior))

  scan-Scanned :
      (unit_id : Value) (s s' : Session) (scan : ℤ × List Value)
      → scan_dispatch_events B unit_id s ≡ (done scan, s')
      → Scanned unit_id scan.1 s s'
  unfolding scan_dispatch_events history rows_of
  scan-Scanned unit_id s s' scan h =
      let (v, t, m, h1) = bind-done (history B (shown B unit_id) s) _ h in
      let (xs, e, (q, status, text, a)) =
        request_list-Replied B (reading B (Route.history (shown B unit_id))) s t v m in
      (
        xs,
        scan.0,
        (status, text, a),
        ap (λ x. x.requests) (sym (ap (λ p. p.1) h1)) ∙ q,
        ap (λ w. scan_history B (rows_of B w)) (sym e) ∙ lift-done _ (ap (λ p. p.0) h1),
      )

  scanned-Scanned :
      (unit_id snapshot : Value) (s s' : Session) (t : Target)
      → scanned B unit_id snapshot s ≡ (done (some t), s')
      → Scanned t.unit_id t.prior s s'
  unfolding scanned
  scanned-Scanned unit_id snapshot s s' t h =
      let (scan, s1, m, h1) = bind-done (scan_dispatch_events B unit_id s) _ h in
      let (e, w) = pair-done h1 in
      let f : (unit_id ≡ t.unit_id) × (scan.1 ≡ t.prior) = (cc e, cc e) in
      rw (← f.0) (rw (← f.1) (rw (← w) (scan-Scanned unit_id s s1 scan m)))

  prepare_unit-Scanned :
      (unit_id : Value) (s s' : Session) (t : Target)
      → prepare_unit B unit_id s ≡ (done (some t), s')
      → (s1 : Session) × Scanned t.unit_id t.prior s1 s'
  unfolding prepare_unit not_in_flight resume
  prepare_unit-Scanned unit_id s s' t h =
      let (snapshot, s1, m, h1) = bind-done (in_flight_snapshot B unit_id s) _ h in
      elim (Bool-cases (is_null snapshot)) [
        | inl e ↦ absurd (cc (rw e at h1))
        | inr e ↦ (s1, scanned-Scanned unit_id snapshot s1 s' t (rw e at h1))
      ]

  pub prepare-Scanned :
      (revision unit_key : String) (s s' : Session) (t : Target)
      → prepare B revision unit_key s ≡ (done (some t), s')
      → (s1 : Session) × Scanned t.unit_id t.prior s1 s'
  unfolding prepare
  prepare-Scanned revision unit_key s s' t h =
      let (unit_id, s1, m, h1) = bind-done (resolve_unit_id B revision unit_key s) _ h in
      elim (Bool-cases (is_null unit_id)) [
        | inl e ↦ absurd (cc (rw e at h1))
        | inr e ↦ prepare_unit-Scanned unit_id s1 s' t (rw e at h1)
      ]
