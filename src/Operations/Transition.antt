-- ===== src/Operations/Transition.antt =====
-- `do_transition` of src/intent_packages/operations.py.
pub mod Laws
use intent_packages.Prelude.{
  String, Bool, true, false, not, ◌&&◌, Option, none, some, List, [], ◌∷◌, ◌==◌, if◌then◌else◌,
}
use intent_packages.Value.{Value, str, dict, Entries, truthy, is_text}
use intent_packages.Value.Dict.{get, item, subscript, put, of_pairs}
use intent_packages.Outcome.{Outcome, ok, raised, ◌>>=◌ as ◌>>>◌}
use intent_packages.Outcome.Report.{Issues, Issue}
use intent_packages.Host.{Host, PackageDir}
use intent_packages.Loader.{load_package, load_lineage}
use intent_packages.Canonical.{package_hash}
use intent_packages.Lineage.{append_transition, snapshot_revision}
use intent_packages.Validate.Package.{validate_package}
use intent_packages.Operations.{
  Event, World, Op, ◌>>=◌, ◌>>◌, pure, reading, lift, refuse_if, write_lineage, set_status_in_file,
  is_legal_from, emit_best_effort,
}

abbrev pub has_issues : List Issue → Bool
has_issues [] = false
has_issues (x ∷ xs) = true

-- `current == "completed" and to_state == "closed" and package["follow_up"]["required"]`
unfoldable pub follow_up_blocks : Value → String → Entries → Outcome Bool
unfolding item subscript truthy
follow_up_blocks current to_state pkg =
    if is_text current "completed" && to_state == "closed"
    then (item pkg "follow_up" >>> λ f. (subscript f "required" >>> λ r. ok (truthy r)))
    else ok false

module _ (H : Host) where
  -- On `ready_for_review` the recorded hash of the revision is renewed.
  unfoldable pub renew_snapshot : String → Entries → Entries → String → String → Outcome Entries
  unfolding item package_hash snapshot_revision
  renew_snapshot to_state pkg lin now actor =
      if to_state == "ready_for_review"
      then (item pkg "revision" >>> λ revision.
          (package_hash H pkg >>> λ h. snapshot_revision lin revision h now actor))
      else ok lin

abbrev pub transition_event : Value → Value → Value → String → Event
transition_event ref revision current to_state = record {
  action = "package.transitioned";
  ref = ref;
  evidence = of_pairs (("from", current) ∷ ("to", str to_state) ∷ ("revision", revision) ∷ []);
}

module _ (H : Host) (emit : Event → Outcome (Option String)) where
  -- From the legal edge on: what is sent and written.
  unfoldable pub enact_transition :
      Entries → Entries → Value → String → String → String → Op (Unit {0})
  unfolding item append_transition put write_lineage set_status_in_file emit_best_effort of_pairs
  enact_transition pkg lin current to_state actor now = do
    ref ← lift (item pkg "package_id")
    revision ← lift (item pkg "revision")
    id ← emit_best_effort emit (transition_event ref revision current to_state)
    more ← lift (append_transition lin "transition" current to_state now actor id)
    write_lineage H (put "current_state" (str to_state) more)
    set_status_in_file to_state

  unfoldable pub do_transition : String → String → String → Op (Unit {0})
  unfolding validate_package load_package load_lineage item is_legal_from follow_up_blocks
      renew_snapshot enact_transition
  do_transition to_state actor now = do
    errors ← reading (validate_package H)
    refuse_if (has_issues errors) "refusing to transition an invalid package"
    pkg ← reading (load_package H)
    lin ← reading (load_lineage H)
    current ← lift (item lin "current_state")
    legal ← lift (is_legal_from current to_state)
    refuse_if (not legal) "illegal transition"
    blocked ← lift (follow_up_blocks current to_state pkg)
    refuse_if blocked "follow_up.required is true"
    fresh ← lift (renew_snapshot H to_state pkg lin now actor)
    enact_transition pkg fresh current to_state actor now
