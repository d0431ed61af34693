-- ===== src/Factory/Journey/Quiet.antt =====
-- The verbs `status` and `evidence` of src/intent_packages/factory/journey.py post nothing.
use intent_packages.Prelude.{
  ℕ, String, ◌<>◌, refl, Bool, true, false, ◌&&◌, Option, none, some, List, [], ◌∷◌, ◌==◌,
  if◌then◌else◌,
}
use intent_packages.Value.{Value, Entries, is_null}
use intent_packages.Factory.Session.{
  Backend, Verb, lift, print, pure, out, resume, exit, give_up, ◌>>◌, ◌>>=◌,
}
use intent_packages.Factory.Api.{
  shown, get_intake, list_proposals, evidence_pack, revision_evidence_pack, evidence_pack_markdown,
}
use intent_packages.Factory.Api.Quiet.{
  Quiet, Quiet-bind, Quiet-if, Quiet-catch, Quiet-get_intake, Quiet-list_proposals,
  Quiet-evidence_pack, Quiet-revision_evidence_pack, Quiet-evidence_pack_markdown,
}
use intent_packages.Factory.Views.{UnitView}
use intent_packages.Factory.Reads.{
  resolve_revision, units_for, resolve_unit_id, scan_dispatch_events, rows_of,
}
use intent_packages.Factory.Reads.Laws.{
  Quiet-units_for, Quiet-resolve_unit_id, Quiet-scan_dispatch_events,
}
use intent_packages.Factory.Journey.Actions.{next_action, proposal_line}
use intent_packages.Factory.Journey.Status.{
  Tick, poll, interrupt, Waited, changed, unchanged, interrupted, States, unit_states, same_states,
  print_intake, proposal_lines, print_proposals, print_dispatches, print_unit, unit_blocks,
  print_units, print_screen, show_revision, status_once, wait_for_change, after_wait, waiting,
  status_of, status, unit_pack, unit_evidence, revision_evidence, evidence_of, evidence,
}

module _ (B : Backend) (base : String) where
  Quiet-proposal_lines : (items : List Value) → Quiet (proposal_lines B base items)
  unfolding proposal_lines resume
  Quiet-proposal_lines [] s = refl
  Quiet-proposal_lines (item ∷ items) s =
      Quiet-bind (lift (proposal_line B base item))
        (λ line. print (out line) >> proposal_lines B base items) (λ t. refl)
        (λ line t. Quiet-proposal_lines items _) s

  Quiet-print_proposals : (items : List Value) → Quiet (print_proposals B base items)
  unfolding print_proposals resume
  Quiet-print_proposals [] s = refl
  Quiet-print_proposals (item ∷ items) s = Quiet-proposal_lines (item ∷ items) _

  Quiet-print_dispatches : (u : UnitView) → Quiet (print_dispatches B base u)
  unfolding print_dispatches resume
  Quiet-print_dispatches u =
      Quiet-bind (scan_dispatch_events B u.id) _ (Quiet-scan_dispatch_events B u.id) (λ _ t. refl)

  Quiet-print_unit : (revision : String) (u : UnitView) → Quiet (print_unit B base revision u)
  unfolding print_unit resume
  Quiet-print_unit revision u s =
      Quiet-bind (lift (next_action B base revision u))
        (λ action. print (out ("    next: " <> action)) >> print_dispatches B base u) (λ t. refl)
        (λ action t. Quiet-print_dispatches u _) _

  Quiet-unit_blocks :
      (revision : String) (us : List UnitView) → Quiet (unit_blocks B base revision us)
  unfolding unit_blocks resume
  Quiet-unit_blocks revision [] s = refl
  Quiet-unit_blocks revision (u ∷ us) s =
      Quiet-bind (print_unit B base revision u) (λ _. unit_blocks B base revision us)
        (Quiet-print_unit revision u) (λ _. Quiet-unit_blocks revision us) s

  Quiet-print_units :
      (revision : String) (us : List UnitView) → Quiet (print_units B base revision us)
  unfolding print_units resume
  Quiet-print_units revision [] s = refl
  Quiet-print_units revision (u ∷ us) s = Quiet-unit_blocks revision (u ∷ us) _

  Quiet-print_screen :
      (revision : String) (intake : Entries) (items : List Value) (us : List UnitView)
      → Quiet (print_screen B base revision intake items us)
  unfolding print_screen print_intake resume
  Quiet-print_screen revision intake items us s =
      Quiet-bind (print_proposals B base items) (λ _. print_units B base revision us >> pure us)
        (Quiet-print_proposals items)
        (λ _.
          Quiet-bind (print_units B base revision us) (λ _. pure us) (Quiet-print_units revision us)
            (λ _ t. refl))
        _

  Quiet-show_revision : (revision : String) → Quiet (show_revision B base revision)
  unfolding show_revision
  Quiet-show_revision revision =
      Quiet-bind (get_intake B revision) _ (Quiet-get_intake B revision) λ intake.
        Quiet-bind (list_proposals B revision) _ (Quiet-list_proposals B revision) λ proposals.
          Quiet-bind (units_for B revision) _ (Quiet-units_for B revision)
            λ units. Quiet-print_screen revision intake (rows_of B proposals) units

  Quiet-status_once : (revision : String) → Quiet (status_once B base revision)
  unfolding status_once resume
  Quiet-status_once revision =
      Quiet-catch (show_revision B base revision >>= λ _. exit 0) (λ _. give_up "status failed" 1)
        (Quiet-bind (show_revision B base revision) _ (Quiet-show_revision revision) (λ _ t. refl))
        (λ _ t. refl)

  Quiet-wait_for_change :
      (revision : String) (initial : States) (ticks : List Tick)
      → Quiet (wait_for_change B base revision initial ticks)
  unfolding wait_for_change resume
  Quiet-wait_for_change revision initial [] s = refl
  Quiet-wait_for_change revision initial (interrupt ∷ ticks) s = refl
  Quiet-wait_for_change revision initial (poll ∷ ticks) s =
      Quiet-bind (units_for B revision) _ (Quiet-units_for B revision)
        (λ units.
          Quiet-bind (lift (unit_states units)) _ (λ t. refl)
            (λ now.
              Quiet-if (same_states now initial) (wait_for_change B base revision initial ticks)
                (pure changed) (Quiet-wait_for_change revision initial ticks) (λ t. refl)))
        s

  Quiet-after_wait : (revision : String) (w : Waited) → Quiet (after_wait B base revision w)
  unfolding after_wait resume
  Quiet-after_wait revision interrupted s = refl
  Quiet-after_wait revision unchanged s = refl
  Quiet-after_wait revision changed s = Quiet-status_once revision _

  Quiet-waiting :
      (revision : String) (us : List UnitView) (ticks : Option (List Tick))
      → Quiet (waiting B base revision us ticks)
  unfolding waiting resume
  Quiet-waiting revision us none s = refl
  Quiet-waiting revision us (some ticks) s =
      Quiet-bind (lift (unit_states us)) _ (λ t. refl)
        (λ initial.
          Quiet-bind (wait_for_change B base revision initial ticks) _
            (Quiet-wait_for_change revision initial ticks) (Quiet-after_wait revision))
        s

  Quiet-status_of :
      (revision : String) (ticks : Option (List Tick)) → Quiet (status_of B base revision ticks)
  unfolding status_of resume
  Quiet-status_of revision ticks =
      Quiet-catch (show_revision B base revision >>= λ units. waiting B base revision units ticks)
        (λ _. give_up "status failed" 1)
        (Quiet-bind (show_revision B base revision) _ (Quiet-show_revision revision)
          (λ us. Quiet-waiting revision us ticks))
        (λ _ t. refl)

  pub Quiet-status :
      (revision : String) (ticks : Option (List Tick)) → Quiet (status B base revision ticks)
  unfolding status resume
  Quiet-status revision ticks = by_revision (resolve_revision B revision)
    where
      by_revision :
          (o : Option String)
          → Quiet (elim o as (λ _. Verb ℕ) [
            | none ↦ give_up "status failed: no revision id" 2
            | some r ↦ status_of B base r ticks
          ])
      by_revision none s = refl
      by_revision (some r) s = Quiet-status_of r ticks s

module _ (B : Backend) where
  Quiet-unit_pack : (markdown : Bool) (unit_id : Value) → Quiet (unit_pack B markdown unit_id)
  unfolding unit_pack resume
  Quiet-unit_pack true unit_id s =
      Quiet-bind (evidence_pack_markdown B (shown B unit_id)) _
        (Quiet-evidence_pack_markdown B (shown B unit_id)) (λ _ t. refl) s
  Quiet-unit_pack false unit_id s =
      Quiet-bind (evidence_pack B (shown B unit_id)) _ (Quiet-evidence_pack B (shown B unit_id))
        (λ _ t. refl) s

  Quiet-unit_evidence :
      (revision unit_key : String) (markdown : Bool)
      → Quiet (unit_evidence B revision unit_key markdown)
  unfolding unit_evidence resume
  Quiet-unit_evidence revision unit_key markdown =
      Quiet-bind (resolve_unit_id B revision unit_key) _ (Quiet-resolve_unit_id B revision unit_key)
        (λ id.
          Quiet-if (is_null id) (exit 1) (unit_pack B markdown id) (λ t. refl)
            (Quiet-unit_pack markdown id))

  Quiet-revision_evidence : (revision : String) → Quiet (revision_evidence B revision)
  unfolding revision_evidence resume
  Quiet-revision_evidence revision =
      Quiet-bind (revision_evidence_pack B revision) _ (Quiet-revision_evidence_pack B revision)
        (λ _ t. refl)

  Quiet-evidence_of :
      (revision unit_key : String) (markdown : Bool)
      → Quiet (evidence_of B revision unit_key markdown)
  unfolding evidence_of resume
  Quiet-evidence_of revision unit_key markdown =
      Quiet-if (markdown && unit_key == "") _ _ (λ t. refl)
        (Quiet-catch
          (if unit_key == ""
            then revision_evidence B revision
            else unit_evidence B revision unit_key markdown)
          (λ _. give_up "evidence failed" 1)
          (Quiet-if (unit_key == "") (revision_evidence B revision)
            (unit_evidence B revision unit_key markdown) (Quiet-revision_evidence revision)
            (Quiet-unit_evidence revision unit_key markdown))
          (λ _ t. refl))

  pub Quiet-evidence :
      (revision unit_key : String) (markdown : Bool) → Quiet (evidence B revision unit_key markdown)
  unfolding evidence resume
  Quiet-evidence revision unit_key markdown = by_revision (resolve_revision B revision)
    where
      by_revision :
          (o : Option String)
          → Quiet (elim o as (λ _. Verb ℕ) [
            | none ↦ give_up "evidence failed: no revision id" 2
            | some r ↦ evidence_of B r unit_key markdown
          ])
      by_revision none s = refl
      by_revision (some r) s = Quiet-evidence_of r unit_key markdown s
