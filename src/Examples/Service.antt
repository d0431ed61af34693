-- ===== src/Examples/Service.antt =====
-- A service of one revision with one unit, for the runs of the factory verbs.
use intent_packages.Prelude.{true, some, [], ◌∷◌, List}
use intent_packages.Value.{Value, int, pos, str, dict, end, Entries}
use intent_packages.Value.Dict.{of_pairs}
use intent_packages.Outcome.{raised, value_error}
use intent_packages.Factory.Session.{Route, replied, Session, Backend}
use intent_packages.Examples.{record_of, list_of}

-- The dispatch of the unit that its history has already.
unfoldable pub dispatch_payload : Value
unfolding record_of
dispatch_payload = record_of (
    ("dispatch_record_id", str "d1")
    ∷ ("runner_attempt", int (pos 1))
    ∷ ("target_repository", str "o/r")
    ∷ [])

unfoldable pub events : List Value
unfolding record_of dispatch_payload
events =
    record_of (("action", str "unit.created") ∷ [])
    ∷ record_of (("action", str "dispatch.dispatched") ∷ ("payload", dispatch_payload) ∷ [])
    ∷ []

unfoldable pub unit_row : Value
unfolding record_of
unit_row = record_of (
    ("work_unit_id", str "u1")
    ∷ ("version", int (pos 3))
    ∷ ("state", str "submitted")
    ∷ ("pr_number", int (pos 7))
    ∷ ("head_sha", str "abc")
    ∷ ("verification_read_head_sha", str "abc")
    ∷ ("work_package_revision_id", str "rev-1")
    ∷ [])

unfoldable pub intake : Entries
unfolding of_pairs list_of record_of
intake = of_pairs (
    ("id", str "rev-1")
    ∷ (
      "acceptance_criteria",
      list_of (
          record_of (
            ("ac_id", str "AC-001")
            ∷ ("id", str "c1")
            ∷ ("evidence_type", str "automated_check")
            ∷ [])
          ∷ record_of (("ac_id", str "AC-002") ∷ ("id", str "c2") ∷ [])
          ∷ []),
    )
    ∷ [])

unfoldable chains : Value
unfolding list_of record_of
chains = list_of (
    record_of (
      (
        "unit",
        record_of (("id", str "u1") ∷ ("unit_key", str "r-ac-001") ∷ ("state", str "ready") ∷ []),
      )
      ∷ [])
    ∷ [])

unfoldable body_of : Route → Value
unfolding chains unit_row events intake record_of list_of
body_of (Route.package_intake r) = dict intake
body_of (Route.traceability r) = record_of (("chains", chains) ∷ [])
body_of (Route.history u) = list_of events
body_of Route.in_flight_units = record_of (("units", list_of (unit_row ∷ [])) ∷ [])
body_of (Route.dispatch u) = record_of (("status", str "dispatched") ∷ ("id", str "d2") ∷ [])
body_of (Route.verify u) = record_of (("result", str "completed") ∷ [])
body_of _ = dict end

unfoldable pub service : Backend
unfolding body_of
service = record {
  answer = λ log r. replied 200 "" (some (body_of r.route));
  has_token = λ role. true;
  uuid = λ n. "id";
  revision_env = "";
  show = λ v. "?";
  int_of = λ v. raised (value_error "no number");
}

unfoldable pub fresh : Session
fresh = record { requests = []; lines = []; drawn = 0; written = []; copied = []; opened = [] }
