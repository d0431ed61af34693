-- ===== src/Edit/Laws.antt =====
-- What the line edits of src/intent_packages/operations.py do to a text.
use intent_packages.Prelude.{
  ℕ, String, ◌≡◌, refl, sym, ap, ◌∙◌, ◌⊎◌, inl, inr, Bool, true, false, not, ◌&&◌, ◌||◌, Option,
  none, some, [], ◌∷◌, ◌++◌, codes, eqb, is_space, strip_prefix-eq, if◌then◌else◌, Bool-cases, all,
  arith,
}
use intent_packages.Value.{ℤ}
use intent_packages.Canonical.{decimal}
use intent_packages.Host.{Text}
use intent_packages.Edit.{
  comment_tail, kept_tail, drop_line, matched, after, edit_line, set_status_text, set_revision_text,
}

some-inj : (s t : Text) → some s ≡ some t → s ≡ t
some-inj s t h = cc

-- The end of a text is the start of a line.
unfoldable pub ends_line : Bool → Text → Bool
ends_line start [] = start
ends_line start (c ∷ cs) = ends_line (eqb c 10) cs

abbrev pub in_line : ℕ → Bool
in_line c = not (eqb c 10)

-- What an edit of one line leaves: the text before and after it.
abbrev pub Edited : Text → (Text → Option Text) → Text → Bool → Text → Text → Type 0
Edited prefix tail new start text t =
    (before : Text) × (rest : Text) × (kept : Text) × (text ≡ before ++ (prefix ++ rest))
    × (tail rest ≡ some kept)
    × (t ≡ before ++ (new ++ kept))
    × (ends_line start before ≡ true)

after-some :
    (c : ℕ) (o : Option Text) (t : Text)
    → after c o ≡ some t
    → (u : Text) × (o ≡ some u) × (t ≡ c ∷ u)
after-some c none t h = absurd (cc)
after-some c (some u) t h = (u, refl, cc)

module _ (prefix : Text) (tail : Text → Option Text) (new : Text) where
  by_prefix :
      (o : Option Text) (kept : Text)
      → elim o [ none ↦ none | some rest ↦ tail rest ] ≡ some kept
      → (rest : Text) × (o ≡ some rest) × (tail rest ≡ some kept)
  by_prefix none kept h = absurd (cc)
  by_prefix (some rest) kept h = (rest, refl, h)

  by_match :
      (b : Bool) (m later : Option Text) (t : Text)
      → (if b then elim m [ none ↦ later | some rest ↦ some (new ++ rest) ] else later) ≡ some t
      → ((b ≡ true) × ((kept : Text) × (m ≡ some kept) × (t ≡ new ++ kept))) ⊎ (later ≡ some t)
  by_match true none later t h = inr h
  by_match true (some kept) later t h = inl (refl, (kept, refl, cc))
  by_match false m later t h = inr h

  -- The edit replaces one line that begins with the prefix.
  edit_line-Edited :
      (start : Bool) (text t : Text)
      → edit_line prefix tail new start text ≡ some t
      → Edited prefix tail new start text t
  unfolding edit_line ends_line
  edit_line-Edited start [] t h = absurd (cc)
  edit_line-Edited start (c ∷ cs) t h = elim (by_match start (matched prefix tail (c ∷ cs)) _ t h) [
    | inl (b, (kept, m, e)) ↦
        let (rest, p, k) = by_prefix _ kept m in
        ([], rest, kept, strip_prefix-eq prefix (c ∷ cs) rest p, k, e, b)
    | inr l ↦
        let (u, o, e) = after-some c _ t l in
        let (before, rest, kept, p, k, q, x) = edit_line-Edited (eqb c 10) cs u o in
        (c ∷ before, rest, kept, ap (λ y. c ∷ y) p, k, e ∙ ap (λ y. c ∷ y) q, x)
  ]

comment_tail-some :
    (last : Option ℕ) (t kept : Text)
    → comment_tail last t ≡ some kept
    → (c : ℕ) × (last ≡ some c) × (is_space c ≡ true) × (kept ≡ c ∷ t)
unfolding comment_tail
comment_tail-some none t kept h = absurd (cc)
comment_tail-some (some c) t kept h = elim (Bool-cases (is_space c)) [
  | inl e ↦ (c, refl, e, ground (arith, e))
  | inr e ↦ absurd (ground (arith, e))
]

-- Neither the end of a line nor the start of a comment.
abbrev pub is_plain : ℕ → Bool
is_plain c = not (eqb c 10 || eqb c b'#')

-- Where a value ends: at the end of the text or of its line, or at a comment after a space.
abbrev pub ends_value : Text → Bool
ends_value [] = true
ends_value (c ∷ []) = eqb c 10
ends_value (c ∷ d ∷ cs) = eqb c 10 || (is_space c && eqb d b'#')

abbrev pub ends_row : Text → Bool
ends_row [] = true
ends_row (c ∷ cs) = eqb c 10

abbrev last_text : Option ℕ → Text
last_text none = []
last_text (some c) = c ∷ []

abbrev Cut : Text → Text → Type 0
Cut s kept =
    (body : Text) × (s ≡ body ++ kept) × (all is_plain body ≡ true) × (ends_value kept ≡ true)

newline-ends : (c : ℕ) (cs : Text) → eqb c 10 ≡ true → ends_value (c ∷ cs) ≡ true
newline-ends c [] h = h
newline-ends c (d ∷ cs) h = ground (arith, h)

comment-ends :
    (c d : ℕ) (cs : Text) → is_space c ≡ true → eqb d b'#' ≡ true → ends_value (c ∷ d ∷ cs) ≡ true
comment-ends c d cs h g = ground (arith, h, g)

shift-Cut :
    (last : Option ℕ) (s kept : Text)
    → all is_plain (last_text last) ≡ true
    → Cut s kept
    → Cut (last_text last ++ s) kept
unfolding all
shift-Cut none s kept h p = p
shift-Cut (some c) s kept h (body, e, q, x) = (c ∷ body, ap (λ x. c ∷ x) e, ground (arith, q), x)

by_char :
    (last : Option ℕ) (c : ℕ) (cs kept : Text) (later : Option Text) (a b : Bool)
    → (if a then some (c ∷ cs) else if b then comment_tail last (c ∷ cs) else later) ≡ some kept
    → ((a ≡ true) × (kept ≡ c ∷ cs))
      ⊎ ((d : ℕ) × (last ≡ some d) × (b ≡ true) × (is_space d ≡ true) × (kept ≡ d ∷ c ∷ cs))
      ⊎ ((a ≡ false) × (b ≡ false) × (later ≡ some kept))
by_char last c cs kept later true b h = inl (refl, cc)
by_char last c cs kept later false true h =
    let (d, e, x, k) = comment_tail-some last (c ∷ cs) kept h in inr (inl (d, e, refl, x, k))
by_char last c cs kept later false false h = inr (inr (refl, refl, h))

ends_nothing : (kept : Text) → kept ≡ [] → ends_value kept ≡ true
ends_nothing kept h = rw h

-- What is kept of a line is its end; what goes is plain.
kept_tail-Cut :
    (last : Option ℕ) (s kept : Text)
    → all is_plain (last_text last) ≡ true
    → kept_tail last s ≡ some kept
    → Cut (last_text last ++ s) kept
unfolding kept_tail all
kept_tail-Cut last [] kept p h = shift-Cut last [] kept p ([], cc, refl, ends_nothing kept cc)
kept_tail-Cut last (c ∷ cs) kept p h =
    elim (by_char last c cs kept (kept_tail (some c) cs) (eqb c 10) (eqb c b'#') h) [
      | inl (a, e) ↦
          shift-Cut last (c ∷ cs) kept p ([], sym e, refl, ap ends_value e ∙ newline-ends c cs a)
      | inr r ↦ elim r [
        | inl q ↦ let (d, e, b, x, k) = q in rw (e, k) ([], refl, refl, comment-ends d c cs x b)
        | inr q ↦
            let (a, b, l) = q in
            shift-Cut last (c ∷ cs) kept p (kept_tail-Cut (some c) cs kept (ground (arith, a, b)) l)
      ]
    ]

-- One line of a text became the line of a state.
abbrev pub StatusLine : String → Text → Text → Type 0
StatusLine status text t =
    (before : Text) × (body : Text) × (kept : Text) × (text
      ≡ before ++ (codes "status:" ++ (body ++ kept)))
    × (t ≡ before ++ ((codes "status: " ++ codes status) ++ kept))
    × (all is_plain body ≡ true)
    × (ends_value kept ≡ true)
    × (ends_line true before ≡ true)

-- Where `set_status_in_file` succeeds, the text has a line that begins with `status:`, and the whole
-- of its value, up to the end of the line or to a space and a `#`, became the new state. What stands
-- before the line, and its comment and what follows, stays.
pub set_status_text-one_line :
    (status : String) (text t : Text)
    → set_status_text status text ≡ some t
    → StatusLine status text t
unfolding set_status_text all
set_status_text-one_line status text t h =
    let (before, rest, kept, p, k, q, e) =
      edit_line-Edited (codes "status:") (kept_tail none) (codes "status: " ++ codes status) true
        text t h in
    let (body, b, plain, x) = kept_tail-Cut none rest kept refl k in
    (before, body, kept, p ∙ ap (λ x. before ++ (codes "status:" ++ x)) b, q, plain, x, e)

drop_line-Cut :
    (s : Text)
    → (body : Text) × (s ≡ body ++ drop_line s)
      × (all in_line body ≡ true)
      × (ends_row (drop_line s) ≡ true)
unfolding drop_line all
drop_line-Cut [] = ([], refl, refl, refl)
drop_line-Cut (c ∷ cs) = elim (Bool-cases (eqb c 10)) [
  | inl e ↦ ([], ground (arith, e), refl, rw e e)
  | inr e ↦
      let (body, p, q, x) = drop_line-Cut cs in
      (c ∷ body, rw e (ap (λ x. c ∷ x) p), ground (arith, e, q), rw e x)
]

-- One line of a text became the line of a revision.
abbrev pub RevisionLine : ℤ → Text → Text → Type 0
RevisionLine n text t =
    (before : Text) × (body : Text) × (kept : Text) × (text
      ≡ before ++ (codes "revision:" ++ (body ++ kept)))
    × (t ≡ before ++ ((codes "revision: " ++ decimal n) ++ kept))
    × (all in_line body ≡ true)
    × (ends_row kept ≡ true)
    × (ends_line true before ≡ true)

-- Where `set_revision_in_file` succeeds, the text has a line that begins with `revision:`, and the
-- whole of it, up to its end, became the line of the new revision. What stands before and after that
-- line stays.
pub set_revision_text-one_line :
    (n : ℤ) (text t : Text) → set_revision_text n text ≡ some t → RevisionLine n text t
unfolding set_revision_text
set_revision_text-one_line n text t h =
    let (before, rest, kept, p, k, q, e) =
      edit_line-Edited (codes "revision:") (λ s. some (drop_line s))
        (codes "revision: " ++ decimal n) true text t h in
    let (body, b, plain, x) = drop_line-Cut rest in
    let d = some-inj (drop_line rest) kept k in
    (
      before,
      body,
      drop_line rest,
      p ∙ ap (λ x. before ++ (codes "revision:" ++ x)) b,
      q ∙ ap (λ x. before ++ ((codes "revision: " ++ decimal n) ++ x)) (sym d),
      plain,
      x,
      e,
    )
