-- ===== src/Factory/Validations/Honest.antt =====
-- Which commands `assert_runner_honest` of src/intent_packages/factory/validations.py lets through.
use intent_packages.Prelude.{
  String, ◌≡◌, refl, true, false, ◌↔◌, List, [], ◌∷◌, All, Bool-cases, inl, inr, any, codes,
  is_space,
}
use intent_packages.Host.{Text}
use intent_packages.Outcome.{ok}
use intent_packages.Factory.Validations.{
  Shell, search_from, denied_patterns, is_denied, assert_runner_honest,
}
use intent_packages.Factory.Validations.Search.{is_solid, Occurs, search_from-Occurs}

patterns_solid : All (λ p. All (λ v. is_solid v ≡ true) p.1) denied_patterns
unfolding codes is_space
patterns_solid = ((refl, tt), ((refl, tt), (tt, (tt, (tt, tt)))))

module _ (S : Shell) where
  -- No pattern occurs in the command.
  abbrev pub IsHonest : String → Type 0
  IsHonest command = All (λ p. ¬ Occurs S p (codes command)) denied_patterns

  any-Occurs :
      (ps : List (Text × List Text)) (t : Text)
      → All (λ p. All (λ v. is_solid v ≡ true) p.1) ps
      → (any (λ p. search_from S false p.0 p.1 t) ps ≡ false) ↔ All (λ p. ¬ Occurs S p t) ps
  unfolding any
  any-Occurs [] t solid = (λ h. tt, λ h. refl)
  any-Occurs ((w, vs) ∷ ps) t (g, solid) =
      let (sound, complete) = search_from-Occurs S w vs t g in
      let (fore, back) = any-Occurs ps t solid in
      elim (Bool-cases (search_from S false w vs t)) [
        | inl e ↦
            (λ h. absurd (let d : true ≡ false = rw e at h in cc d), λ h. absurd (h.0 (sound e)))
        | inr e ↦ (λ h. (λ o. let yes = complete o in cc, fore (rw e at h)), λ h. rw e (back h.1))
      ]

  -- `assert_runner_honest` lets a list of commands through exactly if none of them has one of the
  -- denied patterns in it: the words of the pattern, whole and in order, with any space between them.
  pub assert_runner_honest-IsHonest :
      (commands : List String) → (assert_runner_honest S commands ≡ ok tt) ↔ All IsHonest commands
  unfolding assert_runner_honest any is_denied
  assert_runner_honest-IsHonest [] = (λ h. tt, λ h. refl)
  assert_runner_honest-IsHonest (c ∷ cs) =
      let (fore, back) = any-Occurs denied_patterns (codes c) patterns_solid in
      let (fores, backs) = assert_runner_honest-IsHonest cs in
      elim (Bool-cases (is_denied S c)) [
        | inl d ↦ (λ h. absurd (let k = rw d at h in cc k), λ h. let no = back h.0 in absurd (cc))
        | inr d ↦ (λ h. (fore d, fores (rw d at h)), λ h. rw d (backs h.1))
      ]
