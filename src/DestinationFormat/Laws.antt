-- ===== src/DestinationFormat/Laws.antt =====
-- The strings that `destination_error` of src/intent_packages/destination_format.py accepts are
-- the renderings of valid values, and all of them are accepted.
use intent_packages.Prelude.{
  String, ◌≡◌, refl, sym, ap, ◌∙◌, inl, inr, Bool, true, false, Option, none, some, List, [], ◌∷◌,
  ◌++◌, append_assoc, arith, codes, eqb, if◌then◌else◌, same_text-eq, same_text_refl, strip_prefix,
  strip_prefix-append, Option-cases,
}
use intent_packages.Host.{Text, Host}
use intent_packages.Json.Laws.{scan-escape_all}
use intent_packages.DestinationFormat.{
  identity_fields, Held, held, truth, first_word, after_word, fields_of, read_value, value_error,
  dump_value, render_field, skip_space, Read, bad, good, prepend, unless_refused, read_fields,
  compare_rendered, by_kind, destination_error,
}

-- The fields of a destination, written out.
unfoldable pub render_all : List String → List Held → Text
unfolding render_field
render_all [] vs = []
render_all (n ∷ ns) [] = []
render_all (n ∷ ns) (v ∷ vs) = b' ' ∷ (render_field n v ++ render_all ns vs)

module _ (H : Host) where
  -- One value for each field, none of them refused.
  abbrev pub AllValid : List String → List Held → Type 0
  AllValid [] [] = Unit
  AllValid (n ∷ ns) (v ∷ vs) = (value_error H n v ≡ none) × AllValid ns vs
  AllValid _ _ = ⊥

  abbrev Reads : List String → Text → Type 0
  Reads ns t = (vs : List Held) × AllValid ns vs × (t ≡ render_all ns vs)

  module _ (n : String) (ns : List String) (t : Text) where
    with_value :
        (v : Held) (o : Option String) (r : Read)
        → ((u : Text) → r ≡ good u → Reads ns u)
        → value_error H n v ≡ o
        → unless_refused o (prepend (render_field n v) r) ≡ good t
        → Reads (n ∷ ns) t
    unfolding render_all
    with_value v none (good u) ih e h =
        let (vs, valid, shape) = ih u refl in (v ∷ vs, (e, valid), ground (arith, shape))
    with_value v none (bad w) ih e h = absurd (cc)
    with_value v (some w) r ih e h = absurd (cc)

    with_read :
        (o : Option (Held × Text))
        → ((rest u : Text) → read_fields H ns rest ≡ good u → Reads ns u)
        → (elim o [
          | none ↦ bad "is not a JSON value"
          | some (v, more) ↦
              unless_refused
                (value_error H n v)
                (prepend (render_field n v) (read_fields H ns (skip_space more)))
        ])
          ≡ good t
        → Reads (n ∷ ns) t
    with_read none ih h = absurd (cc)
    with_read (some (v, more)) ih h =
        with_value v (value_error H n v) (read_fields H ns (skip_space more)) (ih (skip_space more))
          refl h

  read_fields_sound :
      (ns : List String) (rest t : Text) → read_fields H ns rest ≡ good t → Reads ns t
  unfolding read_fields render_all
  read_fields_sound [] rest t h = ([], tt, ground arith)
  read_fields_sound (n ∷ ns) rest t h =
      elim (Option-cases (strip_prefix (codes n ++ b'=' ∷ []) rest)) [
        | inl e ↦ absurd (ground (arith, e))
        | inr (after, e) ↦
            with_read n ns t (read_value after) (λ r u. read_fields_sound ns r u)
              (rw (e, read_fields) at h)
      ]

read_value-dump : (v : Held) (more : Text) → read_value (dump_value v ++ more) ≡ some (v, more)
unfolding read_value dump_value codes
read_value-dump (held s) more = rw (append_assoc, scan-escape_all s more [])
read_value-dump (truth true) more = refl
read_value-dump (truth false) more = refl

-- A tail that the loop over the fields may meet after a word or a value.
abbrev IsTail : Text → Type 0
IsTail [] = Unit
IsTail (c ∷ cs) = c ≡ b' '

IsTail-render_all : (ns : List String) (vs : List Held) → IsTail (render_all ns vs)
unfolding render_all
IsTail-render_all [] vs = tt
IsTail-render_all (n ∷ ns) [] = tt
IsTail-render_all (n ∷ ns) (v ∷ vs) = refl

unfoldable pub has_space : Text → Bool
has_space [] = false
has_space (c ∷ cs) = if eqb c 32 then true else has_space cs

first_word-tail :
    (k t : Text)
    → has_space k ≡ false
    → IsTail t
    → (first_word (k ++ t) ≡ k) × (after_word (k ++ t) ≡ skip_space t)
unfolding has_space first_word after_word skip_space
first_word-tail [] [] h e = (refl, refl)
first_word-tail [] (c ∷ cs) h e = ground arith
first_word-tail (c ∷ cs) t h e = ground (arith, first_word-tail cs t)

prefix_of_field :
    (n : String) (v : Held) (more : Text)
    → strip_prefix (codes n ++ b'=' ∷ []) (render_field n v ++ more) ≡ some (dump_value v ++ more)
unfolding render_field
prefix_of_field n v more =
    ap (strip_prefix (codes n ++ b'=' ∷ [])) (rw (append_assoc, append_assoc))
    ∙ strip_prefix-append (codes n ++ b'=' ∷ []) (dump_value v ++ more)

module _ (H : Host) where
  read_fields-render :
      (ns : List String) (vs : List Held)
      → AllValid H ns vs
      → read_fields H ns (skip_space (render_all ns vs)) ≡ good (render_all ns vs)
  unfolding read_fields render_all skip_space
  read_fields-render [] [] h = refl
  read_fields-render [] (v ∷ vs) h = absurd h
  read_fields-render (n ∷ ns) [] h = absurd h
  read_fields-render (n ∷ ns) (v ∷ vs) (e, h) =
      rw (prefix_of_field n v (render_all ns vs), read_fields)
        (rw (read_value-dump v (render_all ns vs), e, read_fields-render ns vs h))

  compare_rendered_sound :
      (kind d : Text) (r : Read)
      → compare_rendered H kind d r ≡ none
      → (t : Text) × (r ≡ good t) × (d ≡ kind ++ t)
  unfolding compare_rendered
  compare_rendered_sound kind d (bad w) h = absurd (cc)
  compare_rendered_sound kind d (good t) h =
      (t, refl, sym (same_text-eq (kind ++ t) d (ground arith)))

  by_kind_sound :
      (o : Option (List String)) (d : Text)
      → by_kind H o d ≡ none
      → (fs : List String) × (vs : List Held) × (o ≡ some fs)
        × AllValid H fs vs
        × (d ≡ first_word d ++ render_all fs vs)
  unfolding by_kind
  by_kind_sound none d k = absurd (cc)
  by_kind_sound (some fs) d k =
      let (t, read, shape) = compare_rendered_sound (first_word d) d _ k in
      let (vs, valid, eq) = read_fields_sound H fs (after_word d) t read in
      (fs, vs, refl, valid, shape ∙ ap (λ u. first_word d ++ u) eq)

  -- A string that is accepted is its kind followed by that kind's fields, each with a valid value,
  -- in the one spelling.
  pub destination_error-canonical :
      (d : Text)
      → destination_error H d ≡ none
      → (fs : List String) × (vs : List Held) × (fields_of (first_word d) identity_fields ≡ some fs)
        × AllValid H fs vs
        × (d ≡ first_word d ++ render_all fs vs)
  unfolding destination_error
  destination_error-canonical d h = by_kind_sound (fields_of (first_word d) identity_fields) d h

  by_kind-render :
      (kind rest d t : Text) (fs : List String)
      → first_word d ≡ kind
      → after_word d ≡ rest
      → read_fields H fs rest ≡ good t
      → d ≡ kind ++ t
      → by_kind H (some fs) d ≡ none
  unfolding by_kind compare_rendered
  by_kind-render kind rest d t fs w a read shape =
      rw (w, a, read, shape) (ground (arith, same_text_refl (kind ++ t)))

  -- A kind that is known and has no space, followed by its fields with valid values as they are
  -- rendered, is accepted.
  pub destination_error-render :
      (kind : Text) (fs : List String) (vs : List Held)
      → has_space kind ≡ false
      → fields_of kind identity_fields ≡ some fs
      → AllValid H fs vs
      → destination_error H (kind ++ render_all fs vs) ≡ none
  destination_error-render kind fs vs s f valid =
      let t = render_all fs vs in
      let words = first_word-tail kind t s (IsTail-render_all fs vs) in
      let known = ap (λ w. fields_of w identity_fields) words.0 ∙ f in
      unfold destination_error in
      ap (λ o. by_kind H o (kind ++ t)) known
      ∙ by_kind-render kind (skip_space t) (kind ++ t) t fs words.0 words.1
          (read_fields-render fs vs valid) refl
