-- ===== src/Policy/Laws.antt =====
-- What the tests of src/intent_packages/approval_policy.py let through, one by one.
pub mod Permits
use intent_packages.Prelude.{
  ℕ, suc, ◌≤◌, String, ◌≡◌, ◌≢◌, refl, sym, ap, ◌∙◌, Bool, true, false, not, ◌&&◌, ◌||◌, Option,
  none, some, List, [], ◌∷◌, ◌++◌, ◌==◌, eq_iff, mem, leb, any, arith, if◌then◌else◌, Bool-cases,
  In, any-In, All, all, inl, inr, ◌⊎◌, &&-true,
}
use intent_packages.Value.{
  Value, null, bool, int, pos, negsuc, str, list, dict, Entries, Items, nil, cons, to_list, strings,
  in_set, is_hashable, str_in, is_str,
}
use intent_packages.Value.Dict.{get}
use intent_packages.Outcome.{Outcome, ok, raised, Exn, members_unreadable, >>=-ok}
use intent_packages.Host.{Host}
use intent_packages.Members.{granted_targets}
use intent_packages.Policy.{Refusal, Grant, ApprovalPolicy}
use intent_packages.Policy.Judge.{
  Answer, fine, refuse, refuse_unless, field_of, target_answer, by_members, target_refusal,
  standing_refusal, is_true, bump_refusal, distinct, equals_texts, reach_fits, reach_refusal,
  same_terms, texts_in, sort_texts, same_strings, orderable, and_then, answer_by, authority_refusal,
  within, budget_refusal, criteria_fit, acceptance_refusal, impact_refusal,
}
use intent_packages.Policy.Refusals.{
  gather, find_grant, grant_refusals, by_grant, by_profile, refusals_for,
}

pub refuse_unless-fine : (b : Bool) (r : Refusal) → refuse_unless b r ≡ fine → b ≡ true
refuse_unless-fine true r h = refl
refuse_unless-fine false r h = absurd (cc)

pub answer_by-fine : (m : Outcome Bool) (r : Refusal) → answer_by m r ≡ fine → m ≡ ok true
answer_by-fine (ok b) r h = ap ok (refuse_unless-fine b r h)
answer_by-fine (raised e) r h = absurd (cc)

pub and_then-true : (m n : Outcome Bool) → and_then m n ≡ ok true → (m ≡ ok true) × (n ≡ ok true)
and_then-true (ok true) n h = (refl, h)
and_then-true (ok false) n h = absurd (cc)
and_then-true (raised e) n h = absurd (cc)

cons-not_nil :
    (o : Option Refusal) (rs : List Refusal)
    → elim o [ none ↦ rs | some x ↦ x ∷ rs ] ≡ []
    → (o ≡ none) × (rs ≡ [])
cons-not_nil none rs h = (refl, h)
cons-not_nil (some x) rs h = absurd (cc)

gather-fine :
    (a : Answer) (as' : List Answer) → gather (a ∷ as') ≡ ok [] → (a ≡ fine) × (gather as' ≡ ok [])
unfolding gather
gather-fine a as' h =
    let (r, p, h1) = >>=-ok a _ h in
    let (rs, q, h2) = >>=-ok (gather as') _ h1 in
    let (x, y) = cons-not_nil r rs cc in (p ∙ ap ok x, q ∙ ap ok y)

pub gather-All : (as' : List Answer) → gather as' ≡ ok [] → All (λ a. a ≡ fine) as'
unfolding gather
gather-All [] h = tt
gather-All (a ∷ as') h = let (p, r) = gather-fine a as' h in (p, gather-All as' r)

pub is_true-eq : (v : Value) → is_true v ≡ true → v ≡ bool true
is_true-eq (bool true) h = refl
is_true-eq (bool false) h = absurd (cc)
is_true-eq v h = absurd (cc)

pub distinct-texts :
    (v w : Value)
    → distinct v w ≡ true
    → (s : String) × (t : String) × (v ≡ str s) × (w ≡ str t) × (s ≢ t)
distinct-texts (str s) (str t) h = (s, t, refl, refl, λ e. ground (arith, eq_iff s t))
distinct-texts v w h = absurd (cc)

-- A number of a budget, between 1 and its ceiling.
abbrev pub Within : Value → ℕ → Type 0
Within v ceiling = (n : ℕ) × (v ≡ int (pos n)) × (1 ≤ n) × (n ≤ ceiling)

pub within-Within : (v : Value) (ceiling : ℕ) → within v ceiling ≡ true → Within v ceiling
within-Within (int (pos n)) ceiling h = (n, refl, ground arith, ground arith)
within-Within v ceiling h = absurd (cc)

pub equals_texts-eq :
    (xs : Items) (ts : List String) → equals_texts (to_list xs) ts ≡ true → xs ≡ strings ts
unfolding equals_texts to_list strings
equals_texts-eq nil [] h = refl
equals_texts-eq nil (t ∷ ts) h = absurd (cc)
equals_texts-eq (cons (str s) xs) [] h = absurd (cc)
equals_texts-eq (cons (str s) xs) (t ∷ ts) h =
    let (e, r) = &&-true (s == t) (equals_texts (to_list xs) ts) h in
    rw (equals_texts-eq xs ts r, (eq_iff s t).0 e) refl
equals_texts-eq (cons v xs) ts h = absurd (cc)

pub in_set-text :
    (v : Value) (xs : List String)
    → in_set v xs ≡ ok true
    → (s : String) × (v ≡ str s) × (mem s xs ≡ true)
unfolding in_set
in_set-text (str s) xs h = (s, refl, cc)
in_set-text v xs h = absurd (ground arith)

-- A criterion whose kind of evidence and approver are both granted.
abbrev pub Fits : Grant → Value → Type 0
Fits g v =
    (c : Entries) × (s : String) × (t : String) × (v ≡ dict c)
    × (get c "evidence_type" ≡ str s)
    × (mem s g.acceptance_evidence_types ≡ true)
    × (get c "approver" ≡ str t)
    × (mem t g.acceptance_approvers ≡ true)

pub criteria_fit-Fits :
    (vs : List Value) (g : Grant) → criteria_fit vs g ≡ ok true → All (Fits g) vs
unfolding criteria_fit
criteria_fit-Fits [] g h = tt
criteria_fit-Fits (dict c ∷ vs) g h =
    let (e, h1) = and_then-true (in_set (get c "evidence_type") g.acceptance_evidence_types) _ h in
    let (a, r) = and_then-true (in_set (get c "approver") g.acceptance_approvers) _ h1 in
    let (s, p, m) = in_set-text _ _ e in
    let (t, q, n) = in_set-text _ _ a in ((c, s, t, refl, p, m, q, n), criteria_fit-Fits vs g r)
criteria_fit-Fits (v ∷ vs) g h = absurd (cc)

texts-strings : (xs : Items) → all is_str (to_list xs) ≡ true → xs ≡ strings (texts_in (to_list xs))
unfolding all to_list texts_in strings
texts-strings nil h = refl
texts-strings (cons (str s) xs) h = ap (cons (str s)) (texts-strings xs h)
texts-strings (cons v xs) h = absurd (cc)

same_strings-eq : (ss ts : List String) → same_strings ss ts ≡ true → ss ≡ ts
unfolding same_strings
same_strings-eq [] [] h = refl
same_strings-eq [] (t ∷ ts) h = absurd (cc)
same_strings-eq (s ∷ ss) [] h = absurd (cc)
same_strings-eq (s ∷ ss) (t ∷ ts) h =
    let (e, r) = &&-true (s == t) (same_strings ss ts) h in
    rw (same_strings-eq ss ts r, (eq_iff s t).0 e) refl

-- A list of just the permitted terms, in some order.
abbrev pub SameTerms : Value → List String → Type 0
SameTerms v permitted =
    (ss : List String) × (v ≡ list (strings ss)) × (sort_texts ss ≡ sort_texts permitted)

pub same_terms-SameTerms :
    (v : Value) (permitted : List String) → same_terms v permitted ≡ ok true → SameTerms v permitted
unfolding same_terms
same_terms-SameTerms (list xs) permitted h = by_texts (all is_str (to_list xs)) refl h
  where
    by_texts :
        (b : Bool)
        → all is_str (to_list xs) ≡ b
        → (if b
            then ok (same_strings (sort_texts (texts_in (to_list xs))) (sort_texts permitted))
            else if orderable (to_list xs)
            then ok false
            else raised Exn.type_error)
          ≡ ok true
        → SameTerms (list xs) permitted
    by_texts true e h' =
        (texts_in (to_list xs), ap list (texts-strings xs e), same_strings-eq _ _ cc)
    by_texts false e h' = absurd (ground arith)
same_terms-SameTerms v permitted h = absurd (cc)
