-- ===== src/Semantic/Ledger/Laws.antt =====
-- Check L of src/intent_packages/checks_semantic.py after `append_transition` of
-- src/intent_packages/lineage.py.
use intent_packages.Prelude.{
  ℕ, suc, String, ◌≡◌, refl, sym, ap, ◌∙◌, true, false, Option, none, some, List, [], ◌∷◌, ◌++◌,
  ◌==◌, ◌↔◌,
}
use intent_packages.Value.{Value, str, list, dict, Entries, of_list, to_list-of_list, in_set}
use intent_packages.Value.Dict.{get, lookup, put, of_pairs, get-put_ne, get-put_self}
use intent_packages.Outcome.{ok-inj, ok, >>=-ok}
use intent_packages.Outcome.Report.{Issues, IsClean, IsClean-+++, each, append-eq-nil}
use intent_packages.Lifecycle.{is_legal_transition}
use intent_packages.Lifecycle.Laws.{legal-in_states}
use intent_packages.Lineage.{
  entries_at, setdefault, append_to, append_transition, transition_entry, put_list,
}
use intent_packages.Semantic.Ledger.{
  check_revisions, check_current_state, Hashes, check_transition, check_transitions,
  transition_issues, check_approvals, check_grants, lineage_consistency_errors,
}

each-append {ℓ} :
    {A : Type ℓ} (f : ℕ → A → Issues) (i : ℕ) (xs : List A) (x : A)
    → each f i xs ≡ []
    → ((j : ℕ) → f j x ≡ [])
    → each f i (xs ++ x ∷ []) ≡ []
unfolding each
each-append f i [] x h p = (append-eq-nil (f i x) []).1 (p i, refl)
each-append f i (y ∷ xs) x h p =
    let (a, r) = (append-eq-nil (f i y) (each f (suc i) xs)).0 h in
    (append-eq-nil (f i y) _).1 (a, each-append f (suc i) xs x r p)

-- The entry of a legal edge is no issue.
entry-clean :
    (s t now actor : String) (id : Option String) (i : ℕ)
    → is_legal_transition s t ≡ true
    → check_transition i (dict (transition_entry "transition" (str s) t now actor id)) ≡ []
unfolding check_transition get lookup of_pairs
entry-clean s t now actor id i h = rw h refl

old-clean :
    (o : Option Value) (vs : List Value)
    → entries_at o ≡ ok vs
    → ((v : Value) → o ≡ some v → transition_issues v ≡ [])
    → each check_transition 0 vs ≡ []
unfolding entries_at transition_issues
old-clean none vs h c = rw (sym (ok-inj h)) refl
old-clean (some (list xs)) vs h c = rw (sym (ok-inj h)) (c (list xs) refl)
old-clean (some v) vs h c = absurd (cc)

get-lookup : (d : Entries) (k : String) (v : Value) → lookup k d ≡ some v → get d k ≡ v
unfolding get
get-lookup d k v h = rw (h, get) refl

-- The issues of the transitions after one more.
transitions-clean :
    (lin : Entries) (vs : List Value) (e : Value) (cs : Value)
    → setdefault "transitions" lin ≡ ok vs
    → check_transitions lin ≡ []
    → ((j : ℕ) → check_transition j e ≡ [])
    → check_transitions (put "current_state" cs (put_list "transitions" (vs ++ e ∷ []) lin)) ≡ []
unfolding check_transitions setdefault transition_issues
transitions-clean lin vs e cs h c p =
    let old =
      old-clean (lookup "transitions" lin) vs h
        (λ v l. ap transition_issues (sym (get-lookup lin "transitions" v l)) ∙ c) in
    let all = each-append check_transition 0 vs e old p in
    let g =
      get-put_ne "transitions" "current_state" cs (put_list "transitions" (vs ++ e ∷ []) lin) refl
      ∙ get-put_self "transitions" (list (of_list (vs ++ e ∷ []))) lin in
    ap transition_issues g ∙ (ap (each check_transition 0) (to_list-of_list (vs ++ e ∷ [])) ∙ all)

-- A key that neither write touches.
get-kept :
    (k : String) (cs v : Value) (lin : Entries)
    → ("current_state" == k) ≡ false
    → ("transitions" == k) ≡ false
    → get (put "current_state" cs (put "transitions" v lin)) k ≡ get lin k
get-kept k cs v lin p q =
    get-put_ne k "current_state" cs (put "transitions" v lin) p ∙ get-put_ne k "transitions" v lin q

state-IsClean :
    (s t : String) (d : Entries)
    → is_legal_transition s t ≡ true
    → IsClean (check_current_state (put "current_state" (str t) d))
unfolding check_current_state in_set
state-IsClean s t d h =
    let (_, m, _) = legal-in_states s t h in rw (get-put_self "current_state" (str t) d, m) refl

revisions-kept :
    (d e : Entries) → get d "revisions" ≡ get e "revisions" → check_revisions d ≡ check_revisions e
unfolding check_revisions
revisions-kept d e h = rw (h, check_revisions) refl

approvals-kept :
    (d e : Entries) (hs : Hashes)
    → get d "approvals" ≡ get e "approvals"
    → check_approvals d hs ≡ check_approvals e hs
unfolding check_approvals
approvals-kept d e hs h = rw (h, check_approvals) refl

grants-kept : (d e : Entries) → get d "grants" ≡ get e "grants" → check_grants d ≡ check_grants e
unfolding check_grants
grants-kept d e h = rw (h, check_grants) refl

-- What check L asks, part by part.
abbrev Consistent : Entries → Type 0
Consistent lin =
    ((check_revisions lin).0 ≡ [])
    × IsClean (check_current_state lin)
    × (check_transitions lin ≡ [])
    × IsClean (check_approvals lin (check_revisions lin).1)
    × (check_grants lin ≡ [])

Consistent-iff : (lin : Entries) → IsClean (lineage_consistency_errors lin) ↔ Consistent lin
unfolding lineage_consistency_errors
Consistent-iff lin = (
  λ h.
      let (a, h1) = (IsClean-+++ (ok (check_revisions lin).0) _).0 h in
      let (b, h2) = (IsClean-+++ (check_current_state lin) _).0 h1 in
      let (c, h3) = (IsClean-+++ (ok (check_transitions lin)) _).0 h2 in
      let (d, e) = (IsClean-+++ (check_approvals lin _) _).0 h3 in
      (ok-inj a, b, ok-inj c, d, ok-inj e),
  λ (a, b, c, d, e). (IsClean-+++ (ok (check_revisions lin).0) _).1 (
    ap ok a,
    (IsClean-+++ (check_current_state lin) _).1 (
      b,
      (IsClean-+++ (ok (check_transitions lin)) _).1
          (ap ok c, (IsClean-+++ (check_approvals lin _) _).1 (d, ap ok e)),
    ),
  ),
)

-- Where check L finds nothing in a ledger, it finds nothing after a legal edge was appended and its
-- end became the state.
pub append_transition-consistent :
    (lin more : Entries) (s t now actor : String) (id : Option String)
    → IsClean (lineage_consistency_errors lin)
    → is_legal_transition s t ≡ true
    → append_transition lin "transition" (str s) t now actor id ≡ ok more
    → IsClean (lineage_consistency_errors (put "current_state" (str t) more))
unfolding append_transition append_to
append_transition-consistent lin more s t now actor id before legal h =
    let (vs, d, e) = >>=-ok (setdefault "transitions" lin) _ h in
    let (a, b, c, f, g) = (Consistent-iff lin).0 before in
    let entry = dict (transition_entry "transition" (str s) t now actor id) in
    let new = put "current_state" (str t) (put_list "transitions" (vs ++ entry ∷ []) lin) in
    let r = revisions-kept new lin (get-kept "revisions" _ _ lin refl refl) in
    let p = approvals-kept new lin _ (get-kept "approvals" _ _ lin refl refl) in
    ap (λ x. lineage_consistency_errors (put "current_state" (str t) x)) (sym (ok-inj e))
    ∙ (Consistent-iff new).1 (
      ap (λ x. x.0) r ∙ a,
      state-IsClean s t (put_list "transitions" (vs ++ entry ∷ []) lin) legal,
      transitions-clean lin vs entry (str t) d c (λ j. entry-clean s t now actor id j legal),
      p ∙ (ap (λ x. check_approvals lin x.1) r ∙ f),
      grants-kept new lin (get-kept "grants" _ _ lin refl refl) ∙ g,
    )
