-- ===== src/Factory/Journey/Actions.antt =====
-- src/intent_packages/factory/journey.py: the line that `status` prints for a unit, by its state, and
-- the line for a proposal.
use intent_packages.Prelude.{String, ◌<>◌, Option, none, some, List, [], ◌∷◌, ◌==◌, if◌then◌else◌}
use intent_packages.Value.{Value, str, is_text, is_hashable, in_set}
use intent_packages.Value.Dict.{subscript}
use intent_packages.Value.Access.{field_of}
use intent_packages.Outcome.{Outcome, ok, raised, type_error, ◌>>=◌}
use intent_packages.Factory.Session.{Backend}
use intent_packages.Factory.Api.{shown}
use intent_packages.Factory.Views.{UnitView}
use intent_packages.Factory.Journey.Links.{decomposition_proposal, unit_page}

abbrev pub decided_states : List String
decided_states = "approved" ∷ "rejected" ∷ "superseded" ∷ []

-- A template: words, and the places of the revision, the key of the unit and its page.
pub data Part : Type 0 where
  words : String → Part
  rev key link : Part

-- `_STATE_NEXT_ACTIONS`
unfoldable pub next_actions : List (String × List Part)
next_actions =
    (
      "ready",
      words "ready to dispatch: factory dispatch --revision "
          ∷ rev
          ∷ words " --unit-key "
          ∷ key
          ∷ [],
    )
    ∷ (
      "claimed",
      words
            "a worker holds the claim -- nothing to do here; wait for it to submit, or for the lease to expire and the unit to be reclaimed"
          ∷ [],
    )
    ∷ (
      "executing",
      words
            "the runner is executing -- nothing to do here; wait for the Actions run to conclude and the unit to reach SUBMITTED"
          ∷ [],
    )
    ∷ ("blocked", words "blocked -- a human has to inspect why before it can move: " ∷ link ∷ [])
    ∷ (
      "awaiting_approval",
      words
            "needs a HUMAN approval before it can become READY -- this is a browser-only gate (ADR-0006), no factory verb can cross it: "
          ∷ link
          ∷ [],
    )
    ∷ (
      "submitted",
      words "ready to verify: factory verify --revision "
          ∷ rev
          ∷ words " --unit-key "
          ∷ key
          ∷ words
              " --ac AC-00N --check-name <name> --conclusion success --run-id <id> --run-url <url> --assert <name>=<expected>:<observed>  (check name, run id and run url come from the Actions run; --ac must name an automated_check criterion)"
          ∷ [],
    )
    ∷ ("verifying", words "verification is in progress -- nothing to do here; re-run status" ∷ [])
    ∷ (
      "awaiting_review",
      words
            "verification returned judgment_required for at least one criterion -- a HUMAN must adjudicate it in the browser (ADR-0006): "
          ∷ link
          ∷ [],
    )
    ∷ (
      "revision_required",
      words
            "verification found a failure -- the unit needs another attempt: requeue or let the claim expire, then factory dispatch --revision "
          ∷ rev
          ∷ words " --unit-key "
          ∷ key
          ∷ words ": "
          ∷ link
          ∷ [],
    )
    ∷ (
      "completed",
      words
            "nothing to do -- this unit is complete; read its record with factory evidence --revision "
          ∷ rev
          ∷ words " --unit-key "
          ∷ key
          ∷ [],
    )
    ∷ ("failed", words "terminally failed -- nothing to do here; read the record: " ∷ link ∷ [])
    ∷ ("cancelled", words "cancelled -- nothing to do here; read the record: " ∷ link ∷ [])
    ∷ []

unfoldable pub template_for : List (String × List Part) → String → Option (List Part)
template_for [] state = none
template_for ((s, t) ∷ rest) state = if s == state then some t else template_for rest state

module _ (B : Backend) (base revision : String) (u : UnitView) where
  unfoldable pub page_of_unit : String
  unfolding unit_page shown
  page_of_unit = unit_page base (shown B u.id)

  abbrev filled : Part → String
  filled (words w) = w
  filled rev = revision
  filled key = shown B u.unit_key
  filled link = page_of_unit

  -- `template.format(…)`
  unfoldable pub fill : List Part → String
  unfolding page_of_unit shown
  fill [] = ""
  fill (p ∷ ps) = filled p <> fill ps

  -- `_draft_next_action`
  unfoldable pub draft_next_action : String
  unfolding page_of_unit shown
  draft_next_action =
      if is_text u.authority_decision "approved"
      then "authority approved but the unit is still DRAFT -- its readiness does not hold yet (usually a pending dependency; see "
        <> page_of_unit
        <> "). Once it holds, the orchestrator readies the unit itself. If readiness already holds, catch up with: factory ready --revision "
        <> revision
        <> " --unit-key "
        <> shown B u.unit_key
      else "needs a HUMAN authority approval bound to fingerprint "
        <> shown B u.authority_fingerprint
        <> ". Use the 'Approve this authority envelope' form (NOT the generic approve button, which records subject_type=action and does not satisfy readiness): "
        <> page_of_unit

  unfoldable pub unknown_state : String
  unfolding page_of_unit
  unknown_state =
      "not a known WorkUnitState -- this client's table is behind the orchestrator: "
      <> page_of_unit

  unfoldable pub action_for : Option (List Part) → String
  unfolding fill unknown_state
  action_for none = unknown_state
  action_for (some template) = fill template

  -- A state that is no text is in no row of the table; one that cannot be hashed raises.
  unfoldable pub next_action_in : Value → Outcome String
  unfolding draft_next_action action_for template_for next_actions
  next_action_in (str state) =
      ok (
        if state == "draft"
        then draft_next_action
        else action_for (template_for next_actions state))
  next_action_in v = if is_hashable v then ok unknown_state else raised type_error

  -- `_next_action`
  unfoldable pub next_action : Outcome String
  unfolding next_action_in
  next_action = next_action_in u.state

-- The line of a proposal: what is undecided gets its page.
unfoldable pub proposal_line : Backend → String → Value → Outcome String
unfolding field_of in_set subscript decomposition_proposal shown
proposal_line B base item = do
  id ← field_of item "id"
  state ← field_of item "state"
  decided ← in_set state decided_states
  ref ← if decided then ok id else subscript item "id"
  ok (
      "  "
      <> shown B id
      <> ": "
      <> shown B state
      <> (if decided then "" else " -- " <> decomposition_proposal base (shown B ref)))
