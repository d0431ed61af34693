-- ===== src/Operations/Approve.antt =====
-- `do_approve` of src/intent_packages/operations.py.
pub mod Laws
pub mod Returns
use intent_packages.Prelude.{
  String, Bool, true, false, not, ◌&&◌, ◌||◌, Option, none, some, List, [], ◌∷◌, ◌==◌,
  if◌then◌else◌,
}
use intent_packages.Value.{Value, str, dict, Entries, truthy, is_text}
use intent_packages.Value.Dict.{get, item, subscript, put, of_pairs}
use intent_packages.Outcome.{Outcome, ok, raised}
use intent_packages.Host.{Host, PackageDir}
use intent_packages.Loader.{load_package, load_lineage}
use intent_packages.Canonical.{package_hash}
use intent_packages.Lineage.{append_approval}
use intent_packages.Validate.Package.{validate_package}
use intent_packages.Operations.{
  Event, World, Op, ◌>>=◌, ◌>>◌, pure, reading, lift, refuse_if, write_lineage, set_status_in_file,
  emit_or_refuse,
}
use intent_packages.Operations.Transition.{has_issues}
use intent_packages.Operations.Approvers.{
  authorize_approver, approval_entries, has_matching_approval,
}

abbrev pub approved_event : Value → Value → String → String → String → Event
approved_event ref revision h approver commit = record {
  action = "package.approved";
  ref = ref;
  evidence = of_pairs (
      ("revision", revision)
      ∷ ("approved_hash", str h)
      ∷ ("approver", str approver)
      ∷ ("commit", str commit)
      ∷ []);
}

module _ (H : Host) (emit : Event → Outcome (Option String)) where
  -- The hash is already approved: the writes that are missing are completed.
  unfoldable pub complete_approval : Entries → Entries → Value → Op (Unit {0})
  unfolding put write_lineage item set_status_in_file
  complete_approval pkg lin current = do
    if is_text current "approved"
        then pure tt
        else write_lineage H (put "current_state" (str "approved") lin)
    status ← lift (item pkg "status")
    if is_text status "approved" then pure tt else set_status_in_file "approved"

  -- The emit comes before every write.
  unfoldable pub record_approval :
      Entries → Entries → String → String → String → String → Op (Unit {0})
  unfolding item of_pairs emit_or_refuse append_approval put write_lineage set_status_in_file
  record_approval pkg lin h approver commit now = do
    ref ← lift (item pkg "package_id")
    revision ← lift (item pkg "revision")
    id ← emit_or_refuse emit (approved_event ref revision h approver commit)
    more ← lift (append_approval lin revision h approver now commit id)
    write_lineage H (put "current_state" (str "approved") more)
    set_status_in_file "approved"

  unfoldable pub approve_fresh :
      Entries → Entries → Value → String → String → String → String → Op (Unit {0})
  unfolding record_approval
  approve_fresh pkg lin current h approver commit now = do
    refuse_if (not (is_text current "ready_for_review")) "illegal transition"
    record_approval pkg lin h approver commit now

  unfoldable pub do_approve : String → String → String → Op (Unit {0})
  unfolding validate_package load_package load_lineage item subscript truthy authorize_approver
      package_hash approval_entries has_matching_approval complete_approval approve_fresh
  do_approve approver commit now = do
    errors ← reading (validate_package H)
    refuse_if (has_issues errors) "refusing to approve an invalid package"
    pkg ← reading (load_package H)
    lin ← reading (load_lineage H)
    current ← lift (item lin "current_state")
    refuse_if (not (is_text current "ready_for_review" || is_text current "approved"))
        "illegal transition"
    scope ← lift (item pkg "scope")
    questions ← lift (subscript scope "open_questions")
    refuse_if (truthy questions) "scope.open_questions is not empty"
    lift (authorize_approver H pkg approver)
    h ← lift (package_hash H pkg)
    approvals ← lift (approval_entries lin)
    already ← lift (has_matching_approval H approvals h)
    if already
        then complete_approval pkg lin current
        else approve_fresh pkg lin current h approver commit now
