-- ===== src/Semantic/Ledger.antt =====
-- Check L of src/intent_packages/checks_semantic.py: the ledger within itself.
pub mod Laws
use intent_packages.Prelude.{
  ℕ, zero, suc, String, Bool, true, false, not, ◌&&◌, ◌||◌, Option, none, some, List, [], ◌∷◌, ◌++◌,
  ◌==◌, eqb, if◌then◌else◌,
}
use intent_packages.Lifecycle.{states, is_legal_transition}
use intent_packages.Value.{
  Value, null, bool, int, pos, negsuc, str, list, dict, Entries, Items, nil, cons, to_list, in_set,
  is_hashable, is_text,
}
use intent_packages.Value.Dict.{get}
use intent_packages.Value.Equal.{value_eq}
use intent_packages.Outcome.{Outcome, ok, raised, type_error, ◌>>=◌}
use intent_packages.Outcome.Report.{
  Where, in_top, at, nth, Issues, one, one_if, each, Report, issue, issue_if, clean, ◌+++◌,
  for_each,
}

-- Revision number to recorded hash, the latest first.
abbrev pub Hashes : Type 0
Hashes = List (ℕ × Value)

unfoldable pub find_hash : ℕ → Hashes → Option Value
find_hash n [] = none
find_hash n ((m, h) ∷ hs) = if eqb n m then some h else find_hash n hs

-- The number of a revision entry: a positive integer.
abbrev pub positive : Value → Option ℕ
positive (int (pos (suc n))) = some (suc n)
positive _ = none

-- One round of the loop of `_check_revisions`.
unfoldable pub check_revision : Where → Value → Hashes → Issues × Hashes
unfolding get find_hash
check_revision p (dict r) hs = elim (positive (get r "revision")) [
  | none ↦ (one (at p "revision") "must be a positive integer", hs)
  | some n ↦ elim (find_hash n hs) [
    | some h ↦ (one (at p "revision") "is a duplicate", hs)
    | none ↦ ([], (n, get r "hash") ∷ hs)
  ]
]
check_revision p _ hs = (one p "must be a mapping", hs)

unfoldable pub revision_loop : List Value → ℕ → Hashes → Issues × Hashes
unfolding check_revision
revision_loop [] i hs = ([], hs)
revision_loop (r ∷ rs) i hs =
    let (es, more) = check_revision (nth (in_top "revisions") i) r hs in
    let (fs, all) = revision_loop rs (suc i) more in (es ++ fs, all)

abbrev no_revisions : Issues × Hashes
no_revisions = (one (in_top "revisions") "must be a non-empty list", [])

unfoldable pub check_revisions : Entries → Issues × Hashes
unfolding get revision_loop to_list
check_revisions lin = elim (get lin "revisions") [
  | list xs ↦ elim xs [ nil ↦ no_revisions | cons r rs ↦ revision_loop (r ∷ to_list rs) 0 [] ]
  | _ ↦ no_revisions
]

unfoldable pub check_current_state : Entries → Report
unfolding get in_set
check_current_state lin = in_set (get lin "current_state") states >>= λ legal.
    issue_if (not legal) (in_top "current_state") "is not a legal lifecycle state"

-- `tr.get("kind") in ("revision", "supersession")`
abbrev exempt : Value → Bool
exempt v = is_text v "revision" || is_text v "supersession"

abbrev edge_errors : Value → Value → Where → Issues
edge_errors (str s) (str t) p = one_if (not (is_legal_transition s t)) p "is not a legal transition"
edge_errors _ _ p = one p "from/to must be lifecycle state strings"

unfoldable pub check_transition : ℕ → Value → Issues
unfolding get is_legal_transition
check_transition i (dict tr) =
    if exempt (get tr "kind")
    then []
    else edge_errors (get tr "from") (get tr "to") (nth (in_top "transitions") i)
check_transition i _ = one (nth (in_top "transitions") i) "must be a mapping"

unfoldable pub transition_issues : Value → Issues
unfolding check_transition each to_list
transition_issues (list xs) = each check_transition 0 (to_list xs)
transition_issues _ = []

unfoldable pub check_transitions : Entries → Issues
unfolding get transition_issues
check_transitions lin = transition_issues (get lin "transitions")

-- `revision_hashes[rev_num]` by a value; `True` finds revision 1.
unfoldable pub hash_of : Value → Hashes → Outcome (Option Value)
unfolding find_hash
hash_of (int (pos n)) hs = ok (find_hash n hs)
hash_of (bool true) hs = ok (find_hash 1 hs)
hash_of v hs = if is_hashable v then ok none else raised type_error

approval_issue : Where → Value → Option Value → Issues
unfolding value_eq
approval_issue p approved none = one (at p "revision") "does not reference an existing revision"
approval_issue p approved (some h) =
    one_if (not (value_eq approved h)) (at p "approved_hash") "does not match the revision"

unfoldable pub check_approval : Hashes → ℕ → Value → Report
unfolding get hash_of approval_issue
check_approval hs i (dict a) = hash_of (get a "revision") hs >>= λ h.
    ok (approval_issue (nth (in_top "approvals") i) (get a "approved_hash") h)
check_approval hs i _ = issue (nth (in_top "approvals") i) "must be a mapping"

unfoldable pub check_approvals : Entries → Hashes → Report
unfolding get check_approval for_each to_list
check_approvals lin hs = elim (get lin "approvals") [
  | list xs ↦ for_each (check_approval hs) 0 (to_list xs)
  | _ ↦ clean
]

unfoldable pub check_grants : Entries → Issues
unfolding get
check_grants lin = elim (get lin "grants") [
  | null ↦ []
  | list xs ↦ []
  | _ ↦ one (in_top "grants") "must be a list"
]

-- `lineage_consistency_errors`
unfoldable pub lineage_consistency_errors : Entries → Report
unfolding check_revisions check_current_state check_transitions check_approvals check_grants ◌+++◌
lineage_consistency_errors lin =
    let (es, hashes) = check_revisions lin in
    ok es
    +++ (check_current_state lin
        +++ (ok (check_transitions lin) +++ (check_approvals lin hashes +++ ok (check_grants lin))))
