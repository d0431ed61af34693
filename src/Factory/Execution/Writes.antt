-- ===== src/Factory/Execution/Writes.antt =====
-- What the verb `dispatch` of src/intent_packages/factory/execution.py posts, however it ends.
use intent_packages.Prelude.{
  ℕ, String, ◌≡◌, refl, inl, ◌&&◌, Option, none, some, List, [], ◌∷◌, ◌<>◌, if◌then◌else◌,
}
use intent_packages.Value.{Value, Entries, is_null, is_text, truthy}
use intent_packages.Value.Dict.{get, subscript}
use intent_packages.Factory.Session.{
  Role, Route, Request, Session, Backend, ApiError, Verb, resume, lift, print, pure, err, out, exit,
  draw, catch, ◌>>◌, give_up,
}
use intent_packages.Factory.Api.{shown, writing}
use intent_packages.Factory.Api
use intent_packages.Factory.Api.Quiet.{
  writes, Quiet, Quiet-bind, Quiet-catch, Quiet-if, Quiet-draw, AtMost, quiet-AtMost, AtMost-bind,
  AtMost-handled, request_dict-posts, bind-any,
}
use intent_packages.Factory.Reads.{
  resolve_unit_id, in_flight_snapshot, scan_dispatch_events, joinable, resolve_revision,
}
use intent_packages.Factory.Reads.Laws.{
  Quiet-resolve_unit_id, Quiet-in_flight_snapshot, Quiet-scan_dispatch_events,
}
use intent_packages.Factory.Execution.{
  Target, keyed, minus, not_in_flight, scanned, prepare_unit, prepare, say_landed, compare_ids,
  reconcile, dispatch_failed, no_op, by_status, is_repeat, report_dispatch, posted, report_reply,
  dispatch_target, dispatch_prepared, dispatch_resolved, dispatch, is_inconclusive, landed_line,
}

module _ (B : Backend) where
  Quiet-scanned : (unit_id snapshot : Value) → Quiet (scanned B unit_id snapshot)
  unfolding scanned
  Quiet-scanned unit_id snapshot =
      Quiet-bind (scan_dispatch_events B unit_id) _ (Quiet-scan_dispatch_events B unit_id)
        (λ _ s. refl)

  Quiet-prepare_unit : (unit_id : Value) → Quiet (prepare_unit B unit_id)
  unfolding prepare_unit not_in_flight resume
  Quiet-prepare_unit unit_id =
      Quiet-bind (in_flight_snapshot B unit_id) _ (Quiet-in_flight_snapshot B unit_id) λ snapshot.
        Quiet-if (is_null snapshot) (not_in_flight B) (scanned B unit_id snapshot) (λ s. refl)
          (Quiet-scanned unit_id snapshot)

  Quiet-prepare : (revision unit_key : String) → Quiet (prepare B revision unit_key)
  unfolding prepare
  Quiet-prepare revision unit_key =
      Quiet-bind (resolve_unit_id B revision unit_key) _ (Quiet-resolve_unit_id B revision unit_key)
        λ unit_id.
          Quiet-if (is_null unit_id) (pure none) (prepare_unit B unit_id) (λ s. refl)
            (Quiet-prepare_unit unit_id)

  Quiet-say_landed : (ids : List Value) → Quiet (say_landed B ids)
  unfolding say_landed
  Quiet-say_landed [] = λ s. refl
  Quiet-say_landed (v ∷ vs) =
      Quiet-bind (lift (joinable (v ∷ vs))) (λ _. print landed_line) (λ s. refl) (λ _ s. refl)

  Quiet-reconcile : (t : Target) → Quiet (reconcile B t)
  unfolding reconcile compare_ids
  Quiet-reconcile t =
      Quiet-catch (compare_ids B t.unit_id t.prior) _
        (Quiet-bind (scan_dispatch_events B t.unit_id) _ (Quiet-scan_dispatch_events B t.unit_id)
          (λ scan. Quiet-say_landed (minus scan.1 t.prior)))
        (λ _ s. refl)

  Quiet-dispatch_failed : (t : Target) (e : ApiError) → Quiet (dispatch_failed B t e)
  unfolding dispatch_failed
  Quiet-dispatch_failed t e =
      Quiet-bind (print (err "dispatch failed")) _ (λ s. refl)
        λ _.
          Quiet-bind (if is_inconclusive e && truthy t.unit_id then reconcile B t else pure tt)
            (λ _. pure none)
            (Quiet-if (is_inconclusive e && truthy t.unit_id) (reconcile B t) (pure tt)
              (Quiet-reconcile t) (λ s. refl))
            (λ _ s. refl)

  Quiet-by_status : (reply : Entries) → Quiet (by_status B reply)
  unfolding by_status resume
  Quiet-by_status reply =
      Quiet-if (is_text (get reply "status") "dispatched") (print (out "dispatched") >> exit 0)
        (give_up "dispatch failed: no workflow_dispatch fired" 1) (λ s. refl) (λ s. refl)

  Quiet-report_dispatch :
      (reply : Entries) (prior : List Value) → Quiet (report_dispatch B reply prior)
  unfolding report_dispatch no_op resume
  Quiet-report_dispatch reply prior =
      Quiet-bind (lift (is_repeat B (get reply "id") prior)) _ (λ s. refl)
        λ repeat. Quiet-if repeat (no_op B) (by_status B reply) (λ s. refl) (Quiet-by_status reply)

  Quiet-report_reply : (t : Target) (reply : Option Entries) → Quiet (report_reply B t reply)
  Quiet-report_reply t none = λ s. refl
  Quiet-report_reply t (some reply) = Quiet-report_dispatch reply t.prior

  -- Nothing was posted, or one dispatch of one unit.
  abbrev pub OneDispatch : List Request → List Request → Type 0
  OneDispatch rs rs' =
      (unit_id : String) × (payload : Entries) × AtMost
        (writing B (Route.dispatch unit_id) Role.system payload) rs rs'

  posted-AtMost :
      (t : Target) (payload : Entries) (s : Session)
      → AtMost
          (writing B (Route.dispatch (shown B t.unit_id)) Role.system payload)
          s.requests
          (posted B t payload s).1.requests
  unfolding posted Api.dispatch
  posted-AtMost t payload s =
      let r = writing B (Route.dispatch (shown B t.unit_id)) Role.system payload in
      AtMost-bind r s.requests (Api.dispatch B (shown B t.unit_id) payload s) _
        (request_dict-posts B (Route.dispatch (shown B t.unit_id)) Role.system payload s)
        (λ _ x. refl)

  none_sent : (rs rs' : List Request) → writes rs' ≡ writes rs → OneDispatch rs rs'
  none_sent rs rs' e = ("", Entries.end, inl e)

  dispatch_target-OneDispatch :
      (t : Target) (s : Session) → OneDispatch s.requests (dispatch_target B t s).1.requests
  unfolding dispatch_target
  dispatch_target-OneDispatch t s =
      let P = λ (x : Session). OneDispatch s.requests x.requests in
      let quiet = none_sent s.requests (draw B s).1.requests (Quiet-draw B s) in
      bind-any P (draw B s) _ quiet λ key _.
        let s1 = (draw B s).1 in
        bind-any P (lift (subscript t.snapshot "version") s1) _ quiet λ version _.
          let payload = keyed ("factory-dispatch-" <> key) version in
          let r = writing B (Route.dispatch (shown B t.unit_id)) Role.system payload in
          (
            shown B t.unit_id,
            payload,
            quiet-AtMost r s.requests s1.requests _ (Quiet-draw B s) (
                AtMost-bind r s1.requests (catch (posted B t payload) (dispatch_failed B t) s1)
                  (report_reply B t)
                  (AtMost-handled r s1.requests (posted B t payload s1) (dispatch_failed B t)
                    (posted-AtMost t payload s1) (Quiet-dispatch_failed t))
                  (Quiet-report_reply t)),
          )

  dispatch_prepared-OneDispatch :
      (o : Option Target) (s : Session)
      → OneDispatch s.requests (dispatch_prepared B o s).1.requests
  dispatch_prepared-OneDispatch none s = none_sent s.requests s.requests refl
  dispatch_prepared-OneDispatch (some t) s = dispatch_target-OneDispatch t s

  later-OneDispatch :
      (rs rs1 rs2 : List Request)
      → writes rs1 ≡ writes rs
      → OneDispatch rs1 rs2
      → OneDispatch rs rs2
  later-OneDispatch rs rs1 rs2 q (u, p, a) =
      (u, p, quiet-AtMost (writing B (Route.dispatch u) Role.system p) rs rs1 rs2 q a)

  dispatch_resolved-OneDispatch :
      (revision unit_key : String) (s : Session)
      → OneDispatch s.requests (dispatch_resolved B revision unit_key s).1.requests
  unfolding dispatch_resolved resume
  dispatch_resolved-OneDispatch revision unit_key s =
      let reads =
        catch (prepare B revision unit_key) (λ _. print (err "dispatch failed") >> pure none) in
      let quiet =
        Quiet-catch (prepare B revision unit_key) _ (Quiet-prepare revision unit_key) (λ _ x. refl)
          s in
      bind-any (λ x. OneDispatch s.requests x.requests) (reads s) (dispatch_prepared B)
        (none_sent s.requests (reads s).1.requests quiet)
        λ o _.
          later-OneDispatch s.requests (reads s).1.requests _ quiet
            (dispatch_prepared-OneDispatch o (reads s).1)

  -- However `dispatch` ends, also when it raises, and whatever the service replies: it has posted
  -- nothing, or one dispatch of one unit and nothing else.
  pub dispatch-OneDispatch :
      (revision unit_key : String) (s : Session)
      → OneDispatch s.requests (dispatch B revision unit_key s).1.requests
  unfolding dispatch resume
  dispatch-OneDispatch revision unit_key s = by_revision (resolve_revision B revision)
    where
      by_revision :
          (o : Option String)
          → OneDispatch s.requests
              ((elim o as (λ _. Verb ℕ) [
                | none ↦ give_up "dispatch failed: no revision id" 2
                | some r ↦ dispatch_resolved B r unit_key
              ])
                s).1.requests
      by_revision none = none_sent s.requests s.requests refl
      by_revision (some r) = dispatch_resolved-OneDispatch r unit_key s
