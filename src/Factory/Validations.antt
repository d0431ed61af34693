-- ===== src/Factory/Validations.antt =====
-- src/intent_packages/factory/validations.py: what must hold before an envelope may be proposed.
pub mod Search
pub mod Honest
pub mod Moved
use intent_packages.Prelude.{
  ℕ, String, Bool, true, false, not, ◌&&◌, ◌||◌, Option, none, some, List, [], ◌∷◌, ◌++◌, ◌==◌,
  codes, eqb, leb, mem, any, strip_prefix, same_text, is_space, if◌then◌else◌,
}
use intent_packages.Host.{Text}
use intent_packages.Outcome.{
  Outcome, ok, raised, validation_error, process_error, ◌>>=◌, ◌>>◌, raise_if,
}
use intent_packages.Profiles.Dependency.Pins.{PinSite}

-- git and the shell: a checkout is fetched, asked for its revisions and cloned, with `none` where the
-- call fails; a command moves a clone on, or fails, and the clone's diff can be read. `is_wide` says which characters beyond ASCII
-- are letters or digits.
pub record Shell : Type 1 where
  pub Tree : Type 0
  pub fetched : Bool
  pub head : Option String
  pub remote : Option String
  pub is_dirty : Option Bool
  pub clone : Option Tree
  pub run : String → Tree → Option Tree
  pub diff_names : Tree → List String
  pub diff : Tree → Text
  pub is_wide : ℕ → Bool

-- `subprocess.run(…, check=True)`, whose exception no verb expects.
abbrev checked {ℓ} : {A : Type ℓ} → Option A → Outcome A
checked none = raised (process_error "git failed")
checked (some a) = ok a

abbrev ran : {A : Type 0} → Option A → Outcome A
ran none = raised (validation_error "mutation command failed")
ran (some t) = ok t

abbrev is_empty : List String → Bool
is_empty [] = true
is_empty (s ∷ ss) = false

unfoldable after_space : Text → Text
unfolding is_space
after_space [] = []
after_space (c ∷ cs) = let rest = after_space cs in if is_space c then rest else c ∷ cs

abbrev starts_space : Text → Bool
starts_space [] = false
starts_space (c ∷ cs) = is_space c

-- `DENIED_VERIFIER_PATTERNS`
abbrev pub denied_patterns : List (Text × List Text)
denied_patterns =
    (codes "make", codes "check" ∷ [])
    ∷ (codes "make", codes "test" ∷ [])
    ∷ (codes "pytest", [])
    ∷ (codes "tox", [])
    ∷ (codes "nox", [])
    ∷ []

module _ (S : Shell) where
  open S use {Tree, run}

  -- `assert_checkout_current`
  unfoldable pub assert_checkout_current : Outcome (Unit {0})
  assert_checkout_current = do
    raise_if (not S.fetched) (validation_error "cannot verify checkout currency")
    head ← checked S.head
    remote ← checked S.remote
    raise_if (not (head == remote)) (validation_error "target checkout is not origin/main")
    dirty ← checked S.is_dirty
    raise_if dirty (validation_error "target checkout has uncommitted changes")

  -- `for command in allowed_commands: _run_command(command, target)`
  unfoldable pub run_all : List String → Tree → Outcome Tree
  run_all [] t = ok t
  run_all (c ∷ cs) t = ran (run c t) >>= run_all cs

  -- `dry_run_mutation`: a real diff, and the same one after a second run.
  unfoldable pub dry_run_mutation : List String → Outcome (List String)
  unfolding run_all same_text
  dry_run_mutation commands = do
    clean ← checked S.clone
    first ← run_all commands clean
    raise_if (is_empty (S.diff_names first)) (validation_error "mutation produced no diff")
    second ← run_all commands first
    raise_if (not (same_text (S.diff second) (S.diff first)))
        (validation_error "mutation is not idempotent")
    ok (S.diff_names first)

  -- `\w`
  unfoldable pub is_word : ℕ → Bool
  is_word c =
      (leb 97 c && leb c 122)
      || (leb 65 c && leb c 90)
      || (leb 48 c && leb c 57)
      || eqb c b'_'
      || (leb 128 c && S.is_wide c)

  -- `\b` after a letter.
  unfoldable pub word_ends : Text → Bool
  unfolding is_word
  word_ends [] = true
  word_ends (c ∷ cs) = not (is_word c)

  -- The words of a pattern from here on, with `\s+` between them and `\b` at the end.
  unfoldable pub words_here : Text → List Text → Text → Bool
  unfolding strip_prefix word_ends after_space is_space
  words_here w [] s = elim (strip_prefix w s) [ none ↦ false | some rest ↦ word_ends rest ]
  words_here w (v ∷ vs) s = elim (strip_prefix w s) [
    | none ↦ false
    | some rest ↦ starts_space rest && words_here v vs (after_space rest)
  ]

  -- `re.search`, where the character before is a letter or is not.
  unfoldable pub search_from : Bool → Text → List Text → Text → Bool
  unfolding words_here is_word
  search_from inside w ws [] = not inside && words_here w ws []
  search_from inside w ws (c ∷ cs) =
      (not inside && words_here w ws (c ∷ cs)) || search_from (is_word c) w ws cs

  unfoldable pub is_denied : String → Bool
  unfolding any search_from codes
  is_denied command = any (λ p. search_from false p.0 p.1 (codes command)) denied_patterns

  -- `assert_runner_honest`
  unfoldable pub assert_runner_honest : List String → Outcome (Unit {0})
  unfolding any is_denied
  assert_runner_honest commands =
      raise_if (any is_denied commands) (validation_error "runner-dishonest command")

-- `assert_pin_sites_moved`
unfoldable pub assert_pin_sites_moved : List String → List PinSite → Outcome (Unit {0})
unfolding mem
assert_pin_sites_moved changed [] = ok tt
assert_pin_sites_moved changed (site ∷ sites) =
    raise_if (not (mem site.file changed)) (validation_error "pin site not updated")
    >> assert_pin_sites_moved changed sites
