-- ===== src/Examples/Operations.antt =====
-- Runs of the operations of src/intent_packages/operations.py on the package of the examples.
use intent_packages.Prelude.{String, ◌≡◌, refl, true, false, ◌⊎◌, Option, none, some, [], ◌∷◌}
use intent_packages.Value.{Entries, str}
use intent_packages.Value.Dict.{get}
use intent_packages.Outcome.{Outcome, ok, raised, emit_error}
use intent_packages.Outcome.Report.{IsClean}
use intent_packages.Host.{Host}
use intent_packages.Validate.Package.{validate_package}
use intent_packages.Validate.Package.Laws.{Valid, validate_package-parts}
use intent_packages.Semantic.Ledger.{lineage_consistency_errors}
use intent_packages.Operations.{Event, World, resume}
use intent_packages.Loader.{load_package}
use intent_packages.Validate.Warnings.{question_warnings}
use intent_packages.Validate.Warnings.Laws.{do_approve-no_warning}
use intent_packages.Operations.Transition.{do_transition}
use intent_packages.Operations.Transition.Laws.{do_transition-consistent}
use intent_packages.Operations.Approve.{do_approve}
use intent_packages.Operations.Approve.Laws.{Judged, do_approve-audited}
use intent_packages.Operations.Approve.Returns.{Approved, do_approve-ok}
use intent_packages.Operations.Revise.{do_revise, do_supersede}
use intent_packages.Operations.Revise.Laws.{Superseded, do_supersede-ok}
use intent_packages.Operations.Verify.{Chain, verify_approval, default_chain_checker}
use intent_packages.Operations.Verify.Laws.{Verified, verify_approval_sound}
use intent_packages.Examples.{host, directory, directory_beside}
use intent_packages.Examples.Package.{package_in, ledger_in, approval_entry, approved_line}

unfoldable in_review : Host
unfolding host package_in ledger_in
in_review = host (package_in "ready_for_review") (ledger_in "ready_for_review" []) none none

unfoldable in_force : Host
unfolding host package_in ledger_in approval_entry
in_force = host (package_in "approved") (ledger_in "approved" (approval_entry ∷ [])) none none

-- An emitter that answers, and one that fails.
abbrev answers : Event → Outcome (Option String)
answers e = ok (some "evt-1")

abbrev fails : Event → Outcome (Option String)
fails e = raised (emit_error "no chain")

unfoldable start : World
unfolding directory
start = record { dir = directory; events = [] }

unfoldable afterwards : World
unfolding do_approve resume in_review start
afterwards = (do_approve in_review answers "devon" "c0ffee" "now" start).1

unfoldable after_rejection : World
unfolding do_transition resume in_review start
after_rejection = (do_transition in_review fails "rejected" "devon" "now" start).1

valid : IsClean (validate_package in_review directory)
unfolding validate_package in_review directory
valid = refl

approves : do_approve in_review answers "devon" "c0ffee" "now" start ≡ (ok tt, afterwards)
unfolding do_approve resume in_review start afterwards
approves = refl

-- A failed emit leaves the world.
unapproved : (do_approve in_review fails "devon" "c0ffee" "now" start).1 ≡ start
unfolding do_approve resume in_review start
unapproved = refl

rejects : do_transition in_review fails "rejected" "devon" "now" start ≡ (ok tt, after_rejection)
unfolding do_transition resume in_review start after_rejection
rejects = refl

validate_package-parts_example : Valid in_review directory
validate_package-parts_example = validate_package-parts in_review directory valid

do_approve-audited_example :
    ((do_approve in_review answers "devon" "c0ffee" "now" start).1 ≡ start)
    ⊎ Judged in_review "devon" "c0ffee" start
        (do_approve in_review answers "devon" "c0ffee" "now" start).1
do_approve-audited_example = do_approve-audited in_review answers "devon" "c0ffee" "now" start

do_approve-ok_example : Approved in_review answers "devon" "c0ffee" "now" start afterwards
do_approve-ok_example =
    do_approve-ok in_review answers "devon" "c0ffee" "now" start afterwards approves

do_approve-no_warning_example :
    (pkg : Entries) × (load_package in_review start.dir ≡ ok pkg) × (question_warnings pkg ≡ [])
do_approve-no_warning_example =
    do_approve-no_warning in_review answers "devon" "c0ffee" "now" start afterwards approves

do_transition-consistent_example :
    (lin : Entries) × (after_rejection.dir.lineage_yaml ≡ some (in_review.dump lin))
    × IsClean (lineage_consistency_errors lin)
    × (get lin "current_state" ≡ str "rejected")
do_transition-consistent_example =
    do_transition-consistent in_review fails "rejected" "devon" "now" start after_rejection refl
      rejects

unfoldable chain : Chain
unfolding approved_line
chain = record { standards_found = true; is_intact = true; lines = some (some approved_line ∷ []) }

verifies : verify_approval in_force (default_chain_checker chain) false directory ≡ ok true
unfolding verify_approval in_force default_chain_checker chain directory
verifies = refl

verify_approval_sound_example : Verified in_force (default_chain_checker chain) false directory
verify_approval_sound_example =
    verify_approval_sound in_force (default_chain_checker chain) false directory verifies

unfoldable after_revision : World
unfolding do_revise resume in_review start
after_revision = (do_revise in_review answers "devon" "now" start).1

unfoldable after_supersession : World
unfolding do_supersede resume in_force start directory_beside
after_supersession =
    (do_supersede in_force answers directory_beside "docs-canary-2" "devon" "now" start).1

supersedes :
    do_supersede in_force answers directory_beside "docs-canary-2" "devon" "now" start
    ≡ (ok tt, after_supersession)
unfolding do_supersede resume in_force start directory_beside after_supersession
supersedes = refl

do_supersede-ok_example :
    Superseded in_force answers directory_beside "docs-canary-2" "devon" "now" start
      after_supersession
do_supersede-ok_example =
    do_supersede-ok in_force answers directory_beside "docs-canary-2" "devon" "now" start
      after_supersession supersedes
