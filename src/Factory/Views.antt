-- ===== src/Factory/Views.antt =====
-- src/intent_packages/factory/reads.py: what is derived from a body that the orchestrator sent. Each
-- function takes the body; the calls that fetch it are in Reads.
pub mod Order
pub mod Laws
pub mod Latest
use Prim.Native.String.{slice, len}
use intent_packages.Prelude.{
  ℕ, String, Bool, true, false, not, ◌&&◌, ◌||◌, Option, none, some, List, [], ◌∷◌, ◌==◌, ltb,
  starts_with, if◌then◌else◌,
}
use intent_packages.Value.{
  Value, ℤ, pos, negsuc, null, bool, int, str, list, dict, Entries, Items, nil, end, is_text,
  is_null, is_hashable, truthy, scalar_eq,
}
use intent_packages.Value.Dict.{subscript}
use intent_packages.Value.Access.{field_of, field_or, iterate}
use intent_packages.Outcome.{Outcome, ok, raised, type_error, attribute_error, ◌>>=◌}
use intent_packages.Factory.Session.{Backend}
use intent_packages.Factory.Api.{shown}

-- One chain of a revision, as the verbs see it. `pr` is null where the chain has none.
pub record UnitView : Type 0 where
  pub id : Value
  pub unit_key : Value
  pub state : Value
  pub authority_fingerprint : Value
  pub authority_approved_by : Value
  pub authority_decision : Value
  pub pr : Value

unfoldable pub unit_view : Value → Outcome UnitView
unfolding subscript field_of
unit_view chain = do
  unit ← subscript chain "unit"
  id ← subscript unit "id"
  key ← subscript unit "unit_key"
  state ← subscript unit "state"
  fingerprint ← field_of unit "authority_fingerprint"
  approved_by ← field_of unit "authority_approved_by"
  decision ← field_of unit "authority_decision"
  pr ← field_of chain "pr"
  ok (record {
    id = id;
    unit_key = key;
    state = state;
    authority_fingerprint = fingerprint;
    authority_approved_by = approved_by;
    authority_decision = decision;
    pr = pr;
  })

unfoldable pub views_of : List Value → Outcome (List UnitView)
unfolding unit_view
views_of [] = ok []
views_of (chain ∷ chains) = do u ← unit_view chain; us ← views_of chains; ok (u ∷ us)

-- `units_for` of the answer to `traceability`.
unfoldable pub units_of : Entries → Outcome (List UnitView)
unfolding field_or iterate views_of
units_of body = do
  chains ← field_or (dict body) "chains" (list nil)
  rows ← iterate chains
  views_of rows

-- `_unit_id_for_key`
unfoldable pub unit_id_for_key : List UnitView → String → Value
unit_id_for_key [] unit_key = null
unit_id_for_key (u ∷ us) unit_key =
    if is_text u.unit_key unit_key && not (is_text u.state "cancelled")
    then u.id
    else unit_id_for_key us unit_key

-- `snapshot is not None and snapshot.get("state") == state`
unfoldable pub state_is : Value → String → Outcome Bool
unfolding field_of
state_is snapshot state =
    if is_null snapshot then ok false else field_of snapshot "state" >>= λ v. ok (is_text v state)

module _ (B : Backend) where
  -- The first row of a unit. A row that is no mapping has no fields to read.
  unfoldable pub row_of_unit : Value → List Value → Outcome Value
  unfolding field_of shown
  row_of_unit unit_id [] = ok null
  row_of_unit unit_id (row ∷ rows) = field_of row "work_unit_id" >>= λ id.
      (let rest = row_of_unit unit_id rows in if is_text unit_id (shown B id) then ok row else rest)

  -- `in_flight_snapshot` of the answer to `in_flight_units`; null where the unit is not in flight.
  unfoldable pub snapshot_of : Value → Entries → Outcome Value
  unfolding field_or iterate row_of_unit
  snapshot_of unit_id body = do
    units ← field_or (dict body) "units" (list nil)
    rows ← iterate units
    row_of_unit unit_id rows

  -- `int(value)`
  unfoldable pub as_int : Value → Outcome ℤ
  as_int (int n) = ok n
  as_int (bool true) = ok (pos 1)
  as_int (bool false) = ok (pos 0)
  as_int null = raised type_error
  as_int (list xs) = raised type_error
  as_int (dict d) = raised type_error
  as_int v = B.int_of v

-- A dispatch event: its status, and its payload.
pub record DispatchEvent : Type 0 where
  pub status : String
  pub payload : Value

abbrev pub dispatch_prefix : String
dispatch_prefix = "dispatch."

-- The status that an action names, if it is a dispatch.
unfoldable pub dispatch_status : Value → Outcome (Option String)
dispatch_status (str action) = ok (
    if starts_with action dispatch_prefix
    then some (slice action (len dispatch_prefix) (len action))
    else none)
dispatch_status v = raised attribute_error

abbrev pub or_empty : Value → Value
or_empty v = if truthy v then v else dict end

-- `_dispatch_event_payloads` of the answer to `history`.
unfoldable pub dispatch_events : List Value → Outcome (List DispatchEvent)
unfolding field_or field_of dispatch_status truthy
dispatch_events [] = ok []
dispatch_events (event ∷ events) = do
  action ← field_or event "action" (str "")
  status ← dispatch_status action
  payload ← elim status [ none ↦ ok null | some _ ↦ field_of event "payload" ]
  rest ← dispatch_events events
  elim status [
    | none ↦ ok rest
    | some s ↦ ok (record { status = s; payload = or_empty payload } ∷ rest)
  ]

unfoldable pub ltℤ : ℤ → ℤ → Bool
ltℤ (pos a) (pos b) = ltb a b
ltℤ (pos a) (negsuc b) = false
ltℤ (negsuc a) (pos b) = true
ltℤ (negsuc a) (negsuc b) = ltb b a

-- `v in s` for a set of record ids: hashing comes first.
unfoldable pub listed : Value → List Value → Bool
unfolding scalar_eq
listed v [] = false
listed v (w ∷ ws) = scalar_eq v w || listed v ws

unfoldable pub in_ids : Value → List Value → Outcome Bool
unfolding listed
in_ids v ids = if is_hashable v then ok (listed v ids) else raised type_error

-- `if record_id: record_ids.add(record_id)`
unfoldable pub add_id : Value → List Value → Outcome (List Value)
unfolding truthy listed
add_id v ids =
    if truthy v
    then (if is_hashable v then ok (if listed v ids then ids else v ∷ ids) else raised type_error)
    else ok ids

module _ (B : Backend) where
  unfoldable pub attempt_of : Value → Outcome ℤ
  unfolding field_or as_int
  attempt_of payload = field_or payload "runner_attempt" (int (pos 0)) >>= as_int B

  -- The loop of `scan_dispatch_events`: the highest ordinal and the record ids so far.
  unfoldable pub scan_events : ℤ → List Value → List DispatchEvent → Outcome (ℤ × List Value)
  unfolding field_of add_id attempt_of ltℤ
  scan_events latest ids [] = ok (latest, ids)
  scan_events latest ids (e ∷ es) = do
    id ← field_of e.payload "dispatch_record_id"
    more ← add_id id ids
    attempt ← attempt_of e.payload
    scan_events (if ltℤ latest attempt then attempt else latest) more es

  unfoldable pub scan_history : List Value → Outcome (ℤ × List Value)
  unfolding dispatch_events scan_events
  scan_history rows = dispatch_events rows >>= scan_events (pos 0) []

  -- The loop of `latest_dispatched_payload`.
  unfoldable pub latest_event : ℤ → Value → List DispatchEvent → Outcome Value
  unfolding attempt_of ltℤ
  latest_event best payload [] = ok payload
  latest_event best payload (e ∷ es) = elim (e.status == "dispatched") [
    | true ↦ attempt_of e.payload >>= λ attempt.
        latest_event (if ltℤ best attempt then attempt else best)
          (if ltℤ best attempt then e.payload else payload) es
    | false ↦ latest_event best payload es
  ]

  unfoldable pub latest_dispatched : List Value → Outcome Value
  unfolding dispatch_events latest_event
  latest_dispatched rows = dispatch_events rows >>= latest_event (negsuc 0) null
