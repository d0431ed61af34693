-- ===== src/Factory/Journey/Status.antt =====
-- src/intent_packages/factory/journey.py: the verbs `status` and `evidence`.
use intent_packages.Prelude.{
  ℕ, String, ◌<>◌, Bool, true, false, ◌&&◌, Option, none, some, List, [], ◌∷◌, ◌==◌, any, all, eqb,
  length, if◌then◌else◌,
}
use intent_packages.Value.{Value, ℤ, pos, negsuc, Entries, is_null, is_text, is_hashable, scalar_eq}
use intent_packages.Value.Equal.{value_eq}
use intent_packages.Outcome.{Outcome, ok, raised, type_error}
use intent_packages.Factory.Session.{
  Backend, Verb, Line, out, ◌>>=◌, ◌>>◌, pure, lift, print, catch, exit, give_up,
}
use intent_packages.Factory.Api.{
  shown, get_intake, list_proposals, evidence_pack, revision_evidence_pack, evidence_pack_markdown,
}
use intent_packages.Factory.Views.{UnitView}
use intent_packages.Factory.Reads.{
  resolve_revision, units_for, resolve_unit_id, scan_dispatch_events, rows_of,
}
use intent_packages.Factory.Journey.Actions.{next_action, proposal_line}

-- A poll after a pause, or an interrupt of the user.
pub data Tick : Type 0 where
  poll interrupt : Tick

pub data Waited : Type 0 where
  changed unchanged interrupted : Waited

-- The state of each unit, by its id.
abbrev pub States : Type 0
States = List (Value × Value)

unfoldable pub put_state : Value → Value → States → States
unfolding scalar_eq
put_state k v [] = (k, v) ∷ []
put_state k v ((j, w) ∷ rest) =
    let more = put_state k v rest in if scalar_eq j k then (j, v) ∷ rest else (j, w) ∷ more

unfoldable states_from : States → List UnitView → Outcome States
unfolding put_state
states_from states [] = ok states
states_from states (u ∷ us) =
    let rest = states_from (put_state u.id u.state states) us in
    if is_hashable u.id then rest else raised type_error

-- `_unit_states`
unfoldable pub unit_states : List UnitView → Outcome States
unfolding states_from
unit_states us = states_from [] us

-- `==` of two such mappings.
unfoldable pub same_states : States → States → Bool
unfolding any all scalar_eq value_eq
same_states a b =
    eqb (length a) (length b) && all (λ p. any (λ q. scalar_eq p.0 q.0 && value_eq p.1 q.1) b) a

-- `if latest_ordinal:`
abbrev is_zero : ℤ → Bool
is_zero (pos n) = eqb n 0
is_zero (negsuc n) = false

abbrev dispatch_line : ℤ → Line
dispatch_line n =
    if is_zero n then out "    dispatch: never dispatched" else out "    dispatch: latest ordinal"

module _ (B : Backend) (base : String) where
  -- `_print_intake`
  unfoldable pub print_intake : Entries → Verb (Unit {0})
  print_intake intake = print (out "intake") >> print (out "  status_at_intake")

  unfoldable pub proposal_lines : List Value → Verb (Unit {0})
  unfolding proposal_line
  proposal_lines [] = pure tt
  proposal_lines (item ∷ items) = do
    line ← lift (proposal_line B base item)
    print (out line)
    proposal_lines items

  -- `_print_proposals`
  unfoldable pub print_proposals : List Value → Verb (Unit {0})
  unfolding proposal_lines
  print_proposals [] = print (out "proposals: none yet")
  print_proposals (item ∷ items) = print (out "proposals:") >> proposal_lines (item ∷ items)

  abbrev approval_of : UnitView → String
  approval_of u =
      if is_text u.authority_decision "approved"
      then "authority approved by "
        <> shown B u.authority_approved_by
        <> " ("
        <> shown B u.authority_fingerprint
        <> ")"
      else "no authority approval recorded"

  unfoldable pub print_dispatches : UnitView → Verb (Unit {0})
  unfolding scan_dispatch_events
  print_dispatches u = scan_dispatch_events B u.id >>= λ scan. print (dispatch_line scan.0)

  unfoldable pub print_unit : String → UnitView → Verb (Unit {0})
  unfolding next_action print_dispatches shown
  print_unit revision u = do
    print (out ("  " <> shown B u.unit_key <> " [" <> shown B u.state <> "] -- " <> approval_of u))
    action ← lift (next_action B base revision u)
    print (out ("    next: " <> action))
    print_dispatches u

  unfoldable pub unit_blocks : String → List UnitView → Verb (Unit {0})
  unfolding print_unit
  unit_blocks revision [] = pure tt
  unit_blocks revision (u ∷ us) = do print_unit revision u; unit_blocks revision us

  -- `_print_units`
  unfoldable pub print_units : String → List UnitView → Verb (Unit {0})
  unfolding unit_blocks
  print_units revision [] = print (out "units: none yet")
  print_units revision (u ∷ us) = print (out "units:") >> unit_blocks revision (u ∷ us)

  unfoldable pub print_screen : String → Entries → List Value → List UnitView → Verb (List UnitView)
  unfolding print_intake print_proposals print_units
  print_screen revision intake proposals units = do
    print_intake intake
    print_proposals proposals
    print_units revision units
    pure units

  -- One screen of `status`.
  unfoldable pub show_revision : String → Verb (List UnitView)
  unfolding get_intake list_proposals units_for rows_of print_screen
  show_revision revision = do
    intake ← get_intake B revision
    proposals ← list_proposals B revision
    units ← units_for B revision
    print_screen revision intake (rows_of B proposals) units

  abbrev pub status_failed : Verb ℕ
  status_failed = give_up "status failed" 1

  -- `status` without `--wait`, of a revision that is given.
  unfoldable pub status_once : String → Verb ℕ
  unfolding show_revision
  status_once revision = catch (show_revision revision >>= λ _. exit 0) (λ _. status_failed)

  -- `_wait_for_change`: the ticks are those that the clock leaves before the deadline.
  unfoldable pub wait_for_change : String → States → List Tick → Verb Waited
  unfolding units_for unit_states same_states
  wait_for_change revision initial [] = pure unchanged
  wait_for_change revision initial (interrupt ∷ ticks) = pure interrupted
  wait_for_change revision initial (poll ∷ ticks) = do
    units ← units_for B revision
    now ← lift (unit_states units)
    if same_states now initial then wait_for_change revision initial ticks else pure changed

  unfoldable pub after_wait : String → Waited → Verb ℕ
  unfolding status_once
  after_wait revision interrupted = give_up "status --wait interrupted" 130
  after_wait revision changed = do
    print (out "")
    print (out "-- a unit's state changed --")
    status_once revision
  after_wait revision unchanged = print (out "status --wait: no state change") >> exit 0

  unfoldable pub waiting : String → List UnitView → Option (List Tick) → Verb ℕ
  unfolding unit_states wait_for_change after_wait
  waiting revision units none = exit 0
  waiting revision units (some ticks) = do
    initial ← lift (unit_states units)
    waited ← wait_for_change revision initial ticks
    after_wait revision waited

  unfoldable pub status_of : String → Option (List Tick) → Verb ℕ
  unfolding show_revision waiting
  status_of revision ticks =
      catch (show_revision revision >>= λ units. waiting revision units ticks) (λ _. status_failed)

  -- The ticks are there where `--wait` is.
  unfoldable pub status : String → Option (List Tick) → Verb ℕ
  unfolding resolve_revision status_of
  status revision ticks = elim (resolve_revision B revision) [
    | none ↦ give_up "status failed: no revision id" 2
    | some r ↦ status_of r ticks
  ]

module _ (B : Backend) where
  unfoldable pub unit_pack : Bool → Value → Verb ℕ
  unfolding evidence_pack evidence_pack_markdown shown
  unit_pack true unit_id =
      evidence_pack_markdown B (shown B unit_id) >>= λ t. print (out t) >> exit 0
  unit_pack false unit_id = evidence_pack B (shown B unit_id) >>= λ d. print (out "pack") >> exit 0

  unfoldable pub unit_evidence : String → String → Bool → Verb ℕ
  unfolding resolve_unit_id unit_pack
  unit_evidence revision unit_key markdown = do
    unit_id ← resolve_unit_id B revision unit_key
    if is_null unit_id then exit 1 else unit_pack markdown unit_id

  unfoldable pub revision_evidence : String → Verb ℕ
  unfolding revision_evidence_pack
  revision_evidence revision = do
    _pack ← revision_evidence_pack B revision
    print (out "pack")
    exit 0

  unfoldable pub evidence_of : String → String → Bool → Verb ℕ
  unfolding unit_evidence revision_evidence
  evidence_of revision unit_key markdown =
      if markdown && unit_key == ""
      then give_up "evidence failed: --markdown requires --unit-key" 1
      else catch
          (if unit_key == ""
            then revision_evidence revision
            else unit_evidence revision unit_key markdown)
          (λ _. give_up "evidence failed" 1)

  -- `evidence`; without `--unit-key` the key is empty.
  unfoldable pub evidence : String → String → Bool → Verb ℕ
  unfolding resolve_revision evidence_of
  evidence revision unit_key markdown = elim (resolve_revision B revision) [
    | none ↦ give_up "evidence failed: no revision id" 2
    | some r ↦ evidence_of r unit_key markdown
  ]
