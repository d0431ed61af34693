-- ===== src/Factory/Api.antt =====
-- src/intent_packages/factory/api.py: the client of the orchestrator's HTTP interface.
pub mod Quiet
pub mod Answers
use intent_packages.Prelude.{
  ℕ, String, Bool, true, false, not, ◌&&◌, Option, none, some, List, [], ◌∷◌, ◌++◌, ◌==◌, leb, eqb,
  if◌then◌else◌,
}
use intent_packages.Value.{Value, null, bool, int, pos, str, list, dict, Entries, end, is_null}
use intent_packages.Value.Dict.{get, lookup, put}
use intent_packages.Factory.Session.{
  Role, system, verifier, Route, Request, Response, timed_out, unreachable, replied, ApiError,
  Fault, api, Session, Backend, Answer, done, failed, Verb, ◌>>=◌, pure, fail, catch,
}

-- An error that is raised on this side of the wire.
abbrev pub local_error : String → ApiError
local_error code = record {
  code = code;
  recovery = null;
  current_version = null;
  status_code = none;
}

abbrev pub invalid_response : Fault
invalid_response = api (local_error "invalid_response")

module _ (B : Backend) where
  -- `str(value)`
  unfoldable pub shown : Value → String
  shown (str s) = s
  shown v = B.show v

  -- `detail.get("code", "http_error")`
  code_in : Option Value → String
  unfolding shown
  code_in none = "http_error"
  code_in (some v) = shown v

  -- `raw_version if isinstance(raw_version, int) else None`, where a truth value is an integer too.
  abbrev version_in : Value → Value
  version_in (int n) = int n
  version_in (bool b) = bool b
  version_in _ = null

  abbrev unauthorized : ℕ → Value → Value
  unauthorized status recovery = if eqb status 401 then str "retrying will not help" else recovery

  error_with : ℕ → Value → ApiError
  unfolding code_in lookup get
  error_with status (dict detail) = record {
    code = code_in (lookup "code" detail);
    recovery = unauthorized status (get detail "recovery");
    current_version = version_in (get detail "current_version");
    status_code = some status;
  }
  error_with status _ = record {
    code = "http_error";
    recovery = unauthorized status null;
    current_version = null;
    status_code = some status;
  }

  abbrev detail_of : Option Value → Value
  detail_of (some (dict body)) = get body "error"
  detail_of _ = null

  -- `_error_from`
  unfoldable pub error_from : ℕ → Option Value → ApiError
  unfolding error_with get
  error_from status json = error_with status (detail_of json)

  -- `response.is_error`
  abbrev is_error : ℕ → Bool
  is_error status = leb 400 status && leb status 599

  -- What `_send` makes of the response.
  unfoldable pub received : Response → Answer (String × Option Value)
  unfolding error_from
  received timed_out = failed (api (local_error "api_timeout"))
  received unreachable = failed (api (local_error "api_unavailable"))
  received (replied status text json) =
      if is_error status then failed (api (error_from status json)) else done (text, json)

  -- The request is on its way before any answer is: it stays sent whatever comes back.
  unfoldable pub exchange : Request → Session → Answer (String × Option Value) × Session
  unfolding received
  exchange r s = (received (B.answer s.requests r), record s { requests = s.requests ++ r ∷ [] })

  -- `_send`: without a token nothing is sent.
  unfoldable pub send : Request → Verb (String × Option Value)
  unfolding exchange
  send r s =
      if B.has_token r.role
      then exchange r s
      else (failed (api (local_error "credential_unavailable")), s)

  -- `_body_of`, then the shape that a route promises.
  unfoldable pub object_in : Option Value → Answer Entries
  object_in (some (dict d)) = done d
  object_in _ = failed invalid_response

  unfoldable pub array_in : Option Value → Answer Value
  array_in (some (list xs)) = done (list xs)
  array_in _ = failed invalid_response

  -- `_request_dict`
  unfoldable pub request_dict : Request → Verb Entries
  unfolding send object_in
  request_dict r = send r >>= λ reply. λ s. (object_in reply.1, s)

  -- `_request_list`
  unfoldable pub request_list : Request → Verb Value
  unfolding send array_in
  request_list r = send r >>= λ reply. λ s. (array_in reply.1, s)

  -- `_request_text`
  unfoldable pub request_text : Request → Verb String
  unfolding send
  request_text r = send r >>= λ reply. pure reply.0

  abbrev pub reading : Route → Request
  reading route = record { route = route; role = system; body = none }

  abbrev pub writing : Route → Role → Entries → Request
  writing route role payload = record { route = route; role = role; body = some payload }

  unfoldable pub get_intake : String → Verb Entries
  unfolding request_dict
  get_intake revision = request_dict (reading (Route.package_intake revision))

  unfoldable pub list_proposals : String → Verb Value
  unfolding request_list
  list_proposals revision = request_list (reading (Route.decomposition_proposals revision))

  -- Every caller names a revision, and no other anchor.
  unfoldable pub traceability : String → Verb Entries
  unfolding request_dict
  traceability revision =
      if revision == ""
      then fail (api (local_error "traceability_anchor_required"))
      else request_dict (reading (Route.traceability revision))

  unfoldable pub history : String → Verb Value
  unfolding request_list
  history unit_id = request_list (reading (Route.history unit_id))

  unfoldable pub in_flight_units : Verb Entries
  unfolding request_dict
  in_flight_units = request_dict (reading Route.in_flight_units)

  unfoldable pub evidence_pack : String → Verb Entries
  unfolding request_dict
  evidence_pack unit_id = request_dict (reading (Route.evidence_pack unit_id))

  unfoldable pub revision_evidence_pack : String → Verb Entries
  unfolding request_dict
  revision_evidence_pack revision = request_dict (reading (Route.revision_evidence_pack revision))

  unfoldable pub evidence_pack_markdown : String → Verb String
  unfolding request_text
  evidence_pack_markdown unit_id = request_text (reading (Route.evidence_pack_markdown unit_id))

  unfoldable pub stage_intake : Entries → Verb Entries
  unfolding request_dict
  stage_intake payload = request_dict (writing Route.staged_intakes system payload)

  unfoldable pub propose_decomposition : String → Entries → Verb Entries
  unfolding request_dict
  propose_decomposition revision proposal =
      request_dict (writing (Route.decomposition_proposals revision) system proposal)

  unfoldable pub command : String → String → Entries → Verb Entries
  unfolding request_dict
  command unit_id verb payload = request_dict (writing (Route.command unit_id verb) system payload)

  unfoldable pub dispatch : String → Entries → Verb Entries
  unfolding request_dict
  dispatch unit_id payload = request_dict (writing (Route.dispatch unit_id) system payload)

  unfoldable pub named_check : String → Entries → Verb Entries
  unfolding request_dict
  named_check unit_id payload = request_dict (writing (Route.named_check unit_id) verifier payload)

  unfoldable pub verify : String → Entries → Verb Entries
  unfolding request_dict
  verify unit_id payload = request_dict (writing (Route.verify unit_id) verifier payload)

  -- `if error.code == "version_conflict" and error.current_version is not None`
  conflict_version : ApiError → Verb Value
  conflict_version e =
      if e.code == "version_conflict" && not (is_null e.current_version)
      then pure e.current_version
      else fail (api e)

  -- A probe with version 0 draws the version out of the conflict that it meets. Where it meets none,
  -- the command has been taken, and the version was 0.
  unfoldable pub resolve_version : String → Entries → String → Verb Value
  unfolding command conflict_version put
  resolve_version unit_id probe verb =
      catch
        (command unit_id verb (put "expected_version" (int (pos 0)) probe) >>= λ _.
          pure (int (pos 0)))
        conflict_version
