-- ===== src/Edit.antt =====
-- `set_status_in_file` and `set_revision_in_file` of src/intent_packages/operations.py, on the text of
-- package.yaml: one line is replaced and the others stay.
pub mod Laws
use intent_packages.Prelude.{
  ℕ, String, Bool, true, false, Option, none, some, List, [], ◌∷◌, ◌++◌, codes, eqb, is_space,
  strip_prefix, if◌then◌else◌,
}
use intent_packages.Value.{ℤ}
use intent_packages.Canonical.{decimal}
use intent_packages.Host.{Text}

-- A comment is kept with the white space in front of it; a `#` without one is no comment.
unfoldable pub comment_tail : Option ℕ → Text → Option Text
unfolding is_space
comment_tail none t = none
comment_tail (some c) t = if is_space c then some (c ∷ t) else none

-- What is left of a line after `status:[^#\n]*`: its comment, or the end of the line. The argument
-- is the last character matched.
unfoldable pub kept_tail : Option ℕ → Text → Option Text
unfolding comment_tail
kept_tail last [] = some []
kept_tail last (c ∷ cs) =
    let later = kept_tail (some c) cs in
    if eqb c 10 then some (c ∷ cs) else if eqb c b'#' then comment_tail last (c ∷ cs) else later

-- `.*$`
unfoldable pub drop_line : Text → Text
drop_line [] = []
drop_line (c ∷ cs) = let later = drop_line cs in if eqb c 10 then c ∷ cs else later

-- What follows the prefix of a line that matches.
abbrev pub matched : Text → (Text → Option Text) → Text → Option Text
matched prefix tail text = elim (strip_prefix prefix text) [ none ↦ none | some rest ↦ tail rest ]

abbrev pub after : ℕ → Option Text → Option Text
after c none = none
after c (some t) = some (c ∷ t)

-- `re.sub` with count 1 and `^` at each start of a line; the flag says that one starts here.
unfoldable pub edit_line : Text → (Text → Option Text) → Text → Bool → Text → Option Text
unfolding strip_prefix
edit_line prefix tail new start [] = none
edit_line prefix tail new start (c ∷ cs) =
    let later = after c (edit_line prefix tail new (eqb c 10) cs) in
    if start
    then elim (matched prefix tail (c ∷ cs)) [ none ↦ later | some rest ↦ some (new ++ rest) ]
    else later

unfoldable pub set_status_text : String → Text → Option Text
unfolding edit_line kept_tail codes
set_status_text status text =
    edit_line (codes "status:") (kept_tail none) (codes "status: " ++ codes status) true text

unfoldable pub set_revision_text : ℤ → Text → Option Text
unfolding edit_line drop_line codes decimal
set_revision_text n text =
    edit_line (codes "revision:") (λ t. some (drop_line t)) (codes "revision: " ++ decimal n) true
      text
