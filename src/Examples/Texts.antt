-- ===== src/Examples/Texts.antt =====
-- Texts and states: line edits, canonical texts, destinations and the life of a package.
use intent_packages.Prelude.{
  String, ◌≡◌, ◌↔◌, refl, true, false, none, some, List, [], ◌∷◌, ◌++◌, codes, mem,
}
use intent_packages.Value.{Entries, pos, str, dict}
use intent_packages.Outcome.{Returns}
use intent_packages.Outcome.Report.{top}
use intent_packages.Host.{Host, Text}
use intent_packages.Edit.{set_status_text, set_revision_text}
use intent_packages.Edit.Laws.{
  StatusLine, set_status_text-one_line, RevisionLine, set_revision_text-one_line,
}
use intent_packages.Schema.{scan}
use intent_packages.Canonical.{jcs, package_hash, escape_all}
use intent_packages.Canonical.Laws.{is_encodable, scan-canon, package_hash-put_status}
use intent_packages.Value.Dict.{put}
use intent_packages.Json.{scan_string, plain}
use intent_packages.Json.Laws.{scan-canon_str}
use intent_packages.Lifecycle.{states, terminal, targets, legal_transitions, is_legal_transition}
use intent_packages.Lifecycle.Laws.{legal-in_states, terminal_exact}
use intent_packages.Lifecycle.Runs.{
  Run, here, next, transition, entered_approved, Run-entered_approved, ends_legally, can_end,
}
use intent_packages.Examples.{host}
use intent_packages.Examples.Package.{package_in}

abbrev line : Text
line = codes "title: x\nstatus: draft  # soon\nowner: y\n"

abbrev new_line : Text
new_line = codes "title: x\nstatus: closed # soon\nowner: y\n"

sets : set_status_text "closed" line ≡ some new_line
unfolding set_status_text codes
sets = refl

set_status_text-one_line_example : StatusLine "closed" line new_line
set_status_text-one_line_example = set_status_text-one_line "closed" line new_line sets

abbrev revision_line : Text
revision_line = codes "revision: 1 # first\nowner: y\n"

abbrev new_revision_line : Text
new_revision_line = codes "revision: 2\nowner: y\n"

sets_revision : set_revision_text (pos 2) revision_line ≡ some new_revision_line
unfolding set_revision_text codes
sets_revision = refl

set_revision_text-one_line_example : RevisionLine (pos 2) revision_line new_revision_line
set_revision_text-one_line_example =
    set_revision_text-one_line (pos 2) revision_line new_revision_line sets_revision

unfoldable document : Entries
unfolding package_in
document = package_in "draft"

scanned : scan (dict document) top ≡ []
unfolding scan document
scanned = refl

encodable : is_encodable (dict document) ≡ true
unfolding is_encodable document
encodable = refl

scan-canon_example : Returns (jcs (dict document))
scan-canon_example = scan-canon (dict document) top scanned encodable

unfoldable sample_host : Host
unfolding host
sample_host = host document document none none

package_hash-put_status_example :
    package_hash sample_host (put "status" (str "approved") document)
    ≡ package_hash sample_host document
package_hash-put_status_example = package_hash-put_status sample_host (str "approved") document

scan-canon_str_example :
    scan_string plain (escape_all (codes "a\n\"b\"") ++ b'"' ∷ []) [] ≡ some (codes "a\n\"b\"", [])
scan-canon_str_example = scan-canon_str "a\n\"b\"" []

legal-in_states_example :
    (mem "approved" states ≡ true)
    × (mem "executable" states ≡ true)
    × (mem "approved" terminal ≡ false)
unfolding is_legal_transition
legal-in_states_example = legal-in_states "approved" "executable" refl

terminal_exact_example : (mem "failed" terminal ≡ true) ↔ (targets legal_transitions "failed" ≡ [])
unfolding mem
terminal_exact_example = terminal_exact "failed" refl

unfoldable run : Run "draft" "executable" ("executable" ∷ "approved" ∷ "ready_for_review" ∷ [])
unfolding is_legal_transition
run =
    next "executable"
      (next "approved" (next "ready_for_review" here (transition refl)) (transition refl))
      (transition refl)

Run-entered_approved_example :
    entered_approved ("executable" ∷ "approved" ∷ "ready_for_review" ∷ []) ≡ true
unfolding mem
Run-entered_approved_example = Run-entered_approved run refl

can_end_example : (ts : List String) × (ends_legally "rejected" ts ≡ true)
unfolding mem
can_end_example = can_end "rejected" refl
