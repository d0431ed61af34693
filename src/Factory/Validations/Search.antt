-- ===== src/Factory/Validations/Search.antt =====
-- What the search for a denied pattern in src/intent_packages/factory/validations.py finds.
use intent_packages.Prelude.{
  ℕ, ◌≡◌, refl, Bool, true, false, not, List, [], ◌∷◌, ◌++◌, arith, All, Bool-cases, inl, inr,
  is_space, all_space, strip_prefix, strip_prefix-append, strip_prefix-eq, ap, ◌∙◌, ◌&&◌,
  Option-cases, ◌↔◌,
}
use intent_packages.Host.{Text}
use intent_packages.Factory.Validations.{
  Shell, is_word, word_ends, after_space, starts_space, words_here, search_from,
}

-- A word that does not begin with space.
abbrev pub is_solid : Text → Bool
is_solid [] = false
is_solid (c ∷ cs) = not (is_space c)

after_space-solid : (v more : Text) → is_solid v ≡ true → after_space (v ++ more) ≡ v ++ more
unfolding after_space
after_space-solid [] more h = absurd (cc)
after_space-solid (c ∷ cs) more h = ground arith

after_space-skips :
    (sp v more : Text)
    → all_space sp ≡ true
    → is_solid v ≡ true
    → after_space (sp ++ (v ++ more)) ≡ v ++ more
unfolding after_space all_space
after_space-skips [] v more h g = after_space-solid v more g
after_space-skips (c ∷ cs) v more h g = elim (Bool-cases (is_space c)) [
  | inl e ↦ rw e (after_space-skips cs v more (rw e at h) g)
  | inr e ↦ absurd (let d : false ≡ true = rw e at h in cc d)
]

-- The space at the start of a text, and what follows it.
after_space-split : (cs : Text) → (sp : Text) × (all_space sp ≡ true) × (cs ≡ sp ++ after_space cs)
unfolding after_space all_space
after_space-split [] = ([], refl, refl)
after_space-split (c ∷ cs) = elim (Bool-cases (is_space c)) [
  | inl e ↦
      let (sp, spaces, q) = after_space-split cs in (c ∷ sp, rw e spaces, rw e (ap (λ x. c ∷ x) q))
  | inr e ↦ ([], refl, rw e refl)
]

spaced_all :
    (c : ℕ) (sp : Text) → is_space c ≡ true → all_space sp ≡ true → all_space (c ∷ sp) ≡ true
unfolding all_space
spaced_all c sp e spaces = rw e spaces

module _ (S : Shell) where
  -- After a word: each of the others after some space, and then no letter or digit.
  abbrev pub Follows : List Text → Text → Type 0
  Follows [] rest = word_ends S rest ≡ true
  Follows (v ∷ vs) rest =
      (c : ℕ) × (sp more : Text) × (all_space (c ∷ sp) ≡ true)
      × (rest ≡ c ∷ (sp ++ (v ++ more)))
      × Follows vs more

  -- Whether a text ends inside a word, where it began inside one or not.
  unfoldable pub ends_inside : Bool → Text → Bool
  unfolding is_word
  ends_inside b [] = b
  ends_inside b (c ∷ cs) = ends_inside (is_word S c) cs

  -- The words of a pattern stand in the text, whole and in their order, with space between them.
  abbrev pub Occurs : Text × List Text → Text → Type 0
  Occurs (w, vs) t =
      (pre rest : Text) × (t ≡ pre ++ (w ++ rest))
      × (ends_inside false pre ≡ false)
      × Follows vs rest

  words_here-Follows :
      (w : Text) (vs : List Text) (rest : Text)
      → All (λ v. is_solid v ≡ true) vs
      → Follows vs rest
      → words_here S w vs (w ++ rest) ≡ true
  unfolding words_here all_space
  words_here-Follows w [] rest solid f = rw (words_here, strip_prefix-append w rest) f
  words_here-Follows w (v ∷ vs) rest (g, solid) (c, sp, more, spaces, e, f) =
      let here : words_here S v vs (after_space rest) ≡ true =
        rw (e, after_space-skips (c ∷ sp) v more spaces g) (words_here-Follows v vs more solid f) in
      let begins : starts_space rest ≡ true = rw e (ground arith) in
      rw (words_here, strip_prefix-append w rest, begins, here) refl

  search_from-here :
      (w : Text) (vs : List Text) (t : Text)
      → words_here S w vs t ≡ true
      → search_from S false w vs t ≡ true
  unfolding search_from
  search_from-here w vs [] h = h
  search_from-here w vs (c ∷ cs) h = rw h refl

  search_from-finds :
      (b : Bool) (w : Text) (vs : List Text) (pre t : Text)
      → ends_inside b pre ≡ false
      → words_here S w vs t ≡ true
      → search_from S b w vs (pre ++ t) ≡ true
  unfolding search_from ends_inside
  search_from-finds b w vs [] t e h = rw e (search_from-here w vs t h)
  search_from-finds b w vs (c ∷ cs) t e h =
      ground (arith, search_from-finds (is_word S c) w vs cs t e h)

  spaced :
      (v : Text) (vs : List Text) (rest : Text)
      → ((t : Text)
          → words_here S v vs t ≡ true
          → (more : Text) × (t ≡ v ++ more) × Follows vs more)
      → (starts_space rest && words_here S v vs (after_space rest)) ≡ true
      → Follows (v ∷ vs) rest
  unfolding after_space
  spaced v vs [] found h = absurd (cc)
  spaced v vs (c ∷ cs) found h = elim (Bool-cases (is_space c)) [
    | inl e ↦
        let (sp, spaces, q) = after_space-split cs in
        let (more, m, f) = found (after_space cs) (rw e at h) in
        (c, sp, more, spaced_all c sp e spaces, ap (λ x. c ∷ x) (q ∙ ap (λ x. sp ++ x) m), f)
    | inr e ↦ absurd (let d : false ≡ true = rw e at h in cc d)
  ]

  -- Where the words are found, they stand there.
  words_here_sound :
      (w : Text) (vs : List Text) (t : Text)
      → words_here S w vs t ≡ true
      → (rest : Text) × (t ≡ w ++ rest) × Follows vs rest
  unfolding words_here
  words_here_sound w [] t h = elim (Option-cases (strip_prefix w t)) [
    | inl n ↦ absurd (let d : false ≡ true = rw (words_here, n) at h in cc d)
    | inr (rest, e) ↦ (rest, strip_prefix-eq w t rest e, rw (words_here, e) at h)
  ]
  words_here_sound w (v ∷ vs) t h = elim (Option-cases (strip_prefix w t)) [
    | inl n ↦ absurd (let d : false ≡ true = rw (words_here, n) at h in cc d)
    | inr (rest, e) ↦ (
      rest,
      strip_prefix-eq w t rest e,
      spaced v vs rest (words_here_sound v vs) (rw (words_here, e) at h),
    )
  ]

  search_from_sound :
      (b : Bool) (w : Text) (vs : List Text) (t : Text)
      → search_from S b w vs t ≡ true
      → (pre rest : Text) × (t ≡ pre ++ (w ++ rest)) × (ends_inside b pre ≡ false) × Follows vs rest
  unfolding search_from ends_inside
  search_from_sound b w vs [] h =
      let (rest, e, f) = words_here_sound w vs [] (ground (arith, h)) in
      ([], rest, e, ground (arith, h), f)
  search_from_sound b w vs (c ∷ cs) h = elim (Bool-cases (not b && words_here S w vs (c ∷ cs))) [
    | inl here ↦
        let (rest, e, f) = words_here_sound w vs (c ∷ cs) (ground (arith, here)) in
        ([], rest, e, ground (arith, here), f)
    | inr later ↦
        let (pre, rest, e, outside, f) = search_from_sound (is_word S c) w vs cs (rw later at h) in
        (c ∷ pre, rest, ap (λ x. c ∷ x) e, outside, f)
  ]

  -- The search finds a pattern exactly where it occurs.
  pub search_from-Occurs :
      (w : Text) (vs : List Text) (t : Text)
      → All (λ v. is_solid v ≡ true) vs
      → (search_from S false w vs t ≡ true) ↔ Occurs (w, vs) t
  search_from-Occurs w vs t solid = (
    search_from_sound false w vs t,
    λ (pre, rest, e, outside, f). rw e (
        search_from-finds false w vs pre (w ++ rest) outside
          (words_here-Follows w vs rest solid f)),
  )
