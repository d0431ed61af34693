-- ===== src/Factory/Validations/Moved.antt =====
-- What the dry run of src/intent_packages/factory/validations.py, and the check of the pin sites
-- after it, show of a bump; and when src/intent_packages/factory/decompose.py takes it as possible.
use intent_packages.Prelude.{
  String, ◌≡◌, ◌≢◌, refl, sym, ap, Bool, true, false, not, Option, none, some, List, [], ◌∷◌, All,
  mem, all, same_text, same_text-eq,
}
use intent_packages.Outcome.{ok, raise_if, >>=-ok, ok-inj, Exn}
use intent_packages.Profiles.Dependency.Pins.{Checkout, PinSite}
use intent_packages.Profiles.Dependency.Commands.{commands_deferred_to_coding}
use intent_packages.Factory.Validations.{
  Shell, checked, ran, run_all, is_empty, dry_run_mutation, assert_pin_sites_moved,
}
use intent_packages.Factory.Decompose.Possible.{admission, some_command, prove_possible}

checked-ok {ℓ} : {A : Type ℓ} (o : Option A) {a : A} → checked o ≡ ok a → o ≡ some a
checked-ok none h = absurd (cc)
checked-ok (some a) h = ap some (ok-inj h)

run-ok : {A : Type 0} (o : Option A) {a : A} → ran o ≡ ok a → o ≡ some a
run-ok none h = absurd (cc)
run-ok (some a) h = ap some (ok-inj h)

unraised : (b : Bool) (e : Exn) {u : Unit {0}} → raise_if (not b) e ≡ ok u → b ≡ true
unraised true e h = refl
unraised false e h = absurd (cc)

module _ (S : Shell) where
  open S use {Tree}

  -- Each command took the tree on, in order, and none failed.
  abbrev pub Ran : List String → Tree → Tree → Type 0
  Ran [] t t' = t ≡ t'
  Ran (c ∷ cs) t t' = (t1 : Tree) × (S.run c t ≡ some t1) × Ran cs t1 t'

  run_all-Ran : (cs : List String) (t t' : Tree) → run_all S cs t ≡ ok t' → Ran cs t t'
  unfolding run_all
  run_all-Ran [] t t' h = ok-inj h
  run_all-Ran (c ∷ cs) t t' h =
      let (t1, r, h1) = >>=-ok (ran (S.run c t)) _ h in
      (t1, run-ok (S.run c t) r, run_all-Ran cs t1 t' h1)

  -- From a clean clone, the commands changed `changed`, which is something, and once more changed
  -- nothing.
  abbrev pub DryRun : List String → List String → Type 0
  DryRun commands changed =
      (clean once twice : Tree) × (S.clone ≡ some clean)
      × Ran commands clean once
      × Ran commands once twice
      × (S.diff twice ≡ S.diff once)
      × (S.diff_names once ≡ changed)
      × (changed ≢ [])

  some_names :
      (names : List String) (e : Exn) {u : Unit {0}}
      → raise_if (is_empty names) e ≡ ok u
      → names ≢ []
  some_names [] e h = absurd (cc)
  some_names (n ∷ ns) e h = λ q. cc

  dry_run_mutation-DryRun :
      (commands changed : List String)
      → dry_run_mutation S commands ≡ ok changed
      → DryRun commands changed
  unfolding dry_run_mutation
  dry_run_mutation-DryRun commands changed h =
      let (clean, c, h1) = >>=-ok (checked S.clone) _ h in
      let (once, r, h2) = >>=-ok (run_all S commands clean) _ h1 in
      let (_, n, h3) = >>=-ok (raise_if (is_empty (S.diff_names once)) _) _ h2 in
      let (twice, r', h4) = >>=-ok (run_all S commands once) _ h3 in
      let (_, same, h5) = >>=-ok (raise_if (not (same_text (S.diff twice) (S.diff once))) _) _ h4 in
      (
        clean,
        once,
        twice,
        checked-ok S.clone c,
        run_all-Ran commands clean once r,
        run_all-Ran commands once twice r',
        same_text-eq (S.diff twice) (S.diff once) (unraised _ _ same),
        ok-inj h5,
        rw (← (ok-inj h5)) (some_names (S.diff_names once) _ n),
      )

assert_pin_sites_moved-All :
    (changed : List String) (sites : List PinSite)
    → assert_pin_sites_moved changed sites ≡ ok tt
    → All (λ site. mem site.file changed ≡ true) sites
unfolding assert_pin_sites_moved
assert_pin_sites_moved-All changed [] h = tt
assert_pin_sites_moved-All changed (site ∷ sites) h =
    let (_, m, h1) = >>=-ok (raise_if (not (mem site.file changed)) _) _ h in
    (unraised _ _ m, assert_pin_sites_moved-All changed sites h1)

some_command-ok :
    (cs admitted : List String) → some_command cs ≡ ok admitted → (admitted ≡ cs) × (cs ≢ [])
unfolding some_command
some_command-ok [] admitted h = absurd (cc)
some_command-ok (c ∷ cs) admitted h = (sym (ok-inj h), λ q. cc)

-- The commands that wait for the coding step are in the envelope; the others, of which there are
-- some, are run dry; and each file with a pin is among those that they change.
abbrev pub IsPossible : Shell → Checkout → String → List String → List PinSite → Type 0
IsPossible S repo tooling allowed sites =
    (deferred changed : List String) × (commands_deferred_to_coding repo tooling ≡ ok deferred)
    × (all (λ c. mem c allowed) deferred ≡ true)
    × (admission deferred allowed ≢ [])
    × DryRun S (admission deferred allowed) changed
    × All (λ site. mem site.file changed ≡ true) sites

-- A bump that `_prove_the_bump_is_possible` lets through: the commands that wait for the coding step
-- are in the envelope; the others, of which there are some, ran in order on a clean clone without a
-- failure and changed some files, and run once more they left the same diff; and each file that
-- pins the package is one of those that they changed.
pub prove_possible-IsPossible :
    (S : Shell) (repo : Checkout) (tooling : String) (allowed : List String) (sites : List PinSite)
    → prove_possible S repo tooling allowed sites ≡ ok tt
    → IsPossible S repo tooling allowed sites
unfolding prove_possible
prove_possible-IsPossible S repo tooling allowed sites h =
    let (deferred, d, h1) = >>=-ok (commands_deferred_to_coding repo tooling) _ h in
    let (_, within, h2) = >>=-ok (raise_if (not (all (λ c. mem c allowed) deferred)) _) _ h1 in
    let (admitted, a, h3) = >>=-ok (some_command (admission deferred allowed)) _ h2 in
    let (same, some_left) = some_command-ok (admission deferred allowed) admitted a in
    let (changed, m, h4) = >>=-ok (dry_run_mutation S admitted) _ h3 in
    (
      deferred,
      changed,
      d,
      unraised _ _ within,
      some_left,
      rw same at (dry_run_mutation-DryRun S admitted changed m),
      assert_pin_sites_moved-All changed sites h4,
    )
