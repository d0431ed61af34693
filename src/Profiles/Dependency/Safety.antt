-- ===== src/Profiles/Dependency/Safety.antt =====
-- What the name and version checks of src/intent_packages/profiles/dependency_update.py keep out
-- of the command lines that are built from them.
use intent_packages.Prelude.{
  ℕ, String, ◌≡◌, refl, ◌⊎◌, inl, inr, Bool, true, false, not, ◌&&◌, ◌||◌, leb, Option, none, some,
  [], ◌∷◌, arith, codes, eqb, all, Bool-cases,
}
use intent_packages.Host.{Text}
use intent_packages.Value.{str}
use intent_packages.Outcome.Report.{append-eq-nil, one_unless}
use intent_packages.Profiles.Dependency.{
  is_low, is_alnum, is_name_char, is_low_char, is_version_char, shaped, before_slash, after_slash,
  scope_shaped, scoped_name, is_package_name, is_version, safe_package, safe_version,
  unsafe_field_errors,
}

-- What may end a word, a quotation or a command of a shell, or start anything else in one: control
-- characters and spaces, `" # $ % & ' ( ) *`, `; < = > ?`, `[ \ ] ^`, the back quote, and from `{` on.
unfoldable pub is_special : ℕ → Bool
is_special c =
    leb c 32
    || (leb 34 c && leb c 42)
    || (leb 59 c && leb c 63)
    || (leb 91 c && leb c 94)
    || eqb c 96
    || leb 123 c

unfoldable pub inert : ℕ → Bool
unfolding is_special
inert c = not (is_special c)

-- Nor a slash.
unfoldable pub solid : ℕ → Bool
unfolding inert
solid c = inert c && not (eqb c b'/')

abbrev pub opens_scope : Text → Bool
opens_scope [] = false
opens_scope (c ∷ cs) = eqb c b'@'

module _ (p q : ℕ → Bool) (step : (c : ℕ) → p c ≡ true → q c ≡ true) where
  all-weaken : (cs : Text) → all p cs ≡ true → all q cs ≡ true
  unfolding all
  all-weaken [] h = refl
  all-weaken (c ∷ cs) h = ground (arith, step c, all-weaken cs)

shaped-all :
    (p q r : ℕ → Bool)
    → ((c : ℕ) → p c ≡ true → r c ≡ true)
    → ((c : ℕ) → q c ≡ true → r c ≡ true)
    → (cs : Text) → shaped p q cs ≡ true
    → all r cs ≡ true
unfolding shaped all
shaped-all p q r hp hq [] h = refl
shaped-all p q r hp hq (c ∷ cs) h = ground (arith, hp c, all-weaken q r hq cs)

alnum-solid : (c : ℕ) → is_alnum c ≡ true → solid c ≡ true
unfolding solid inert is_special is_alnum is_low
alnum-solid c h = ground arith

low-inert : (c : ℕ) → is_low c ≡ true → inert c ≡ true
unfolding inert is_special is_low
low-inert c h = ground arith

name-solid : (c : ℕ) → is_name_char c ≡ true → solid c ≡ true
unfolding solid inert is_special is_alnum is_low
name-solid c h = ground arith

low_char-inert : (c : ℕ) → is_low_char c ≡ true → inert c ≡ true
unfolding inert is_special is_low
low_char-inert c h = ground arith

version-solid : (c : ℕ) → is_version_char c ≡ true → solid c ≡ true
unfolding solid inert is_special is_alnum is_low
version-solid c h = ground arith

solid-inert : (c : ℕ) → solid c ≡ true → inert c ≡ true
unfolding solid
solid-inert c h = ground arith

slash-inert : (c : ℕ) → eqb c b'/' ≡ true → inert c ≡ true
unfolding inert is_special
slash-inert c h = ground arith

by_slash :
    (cs : Text) {after : Text}
    → after_slash cs ≡ some after
    → all inert (before_slash cs) ≡ true
    → all inert after ≡ true
    → all inert cs ≡ true
unfolding after_slash before_slash all
by_slash [] e hb ha = absurd (cc)
by_slash (c ∷ cs) {after} e hb ha = elim (Bool-cases (eqb c b'/')) [
  | inl s ↦ ground (arith, s, slash-inert c)
  | inr s ↦ ground (arith, s, by_slash cs {after = after})
]

scope-inert : (cs : Text) → scope_shaped cs ≡ true → all inert cs ≡ true
unfolding scope_shaped all
scope-inert [] h = refl
scope-inert (c ∷ cs) h =
    ground (arith, at_sign c, shaped-all is_low is_low_char inert low-inert low_char-inert cs)
  where
    at_sign : (d : ℕ) → eqb d b'@' ≡ true → inert d ≡ true
    at_sign d e = unfold inert is_special in ground arith

scoped-inert :
    (cs : Text) (o : Option Text)
    → after_slash cs ≡ o
    → scoped_name (before_slash cs) o ≡ true
    → all inert cs ≡ true
unfolding scoped_name
scoped-inert cs none e h = absurd (cc)
scoped-inert cs (some after) e h =
    by_slash cs e (scope-inert (before_slash cs) (ground arith))
      (shaped-all is_low is_low_char inert low-inert low_char-inert after (ground arith))

opens-before :
    (cs : Text) {after : Text}
    → after_slash cs ≡ some after
    → scope_shaped (before_slash cs) ≡ true
    → opens_scope cs ≡ true
unfolding after_slash before_slash scope_shaped
opens-before [] e h = absurd (cc)
opens-before (c ∷ cs) e h = elim (Bool-cases (eqb c b'/')) [
  | inl s ↦ absurd (ground (arith, s))
  | inr s ↦ ground (arith, s)
]

scoped-opens :
    (cs : Text) (o : Option Text)
    → after_slash cs ≡ o
    → scoped_name (before_slash cs) o ≡ true
    → opens_scope cs ≡ true
unfolding scoped_name
scoped-opens cs none e h = absurd (cc)
scoped-opens cs (some after) e h = opens-before cs e (ground arith)

-- A name of inert characters, with a slash in it only after a scope.
abbrev pub InertName : Text → Type 0
InertName cs = (all inert cs ≡ true) × ((opens_scope cs ≡ true) ⊎ (all solid cs ≡ true))

package-InertName : (cs : Text) → is_package_name cs ≡ true → InertName cs
unfolding is_package_name
package-InertName cs h = elim (Bool-cases (shaped is_alnum is_name_char cs)) [
  | inl e ↦
      let q = shaped-all is_alnum is_name_char solid alnum-solid name-solid cs e in
      (all-weaken solid inert solid-inert cs q, inr q)
  | inr e ↦ (
    scoped-inert cs (after_slash cs) refl (ground (arith, e)),
    inl (scoped-opens cs (after_slash cs) refl (ground (arith, e))),
  )
]

-- Where the check of a package name and two versions finds nothing, each of the three consists of
-- printable ASCII characters, with no space, no quote of any kind, no backslash, and none of
-- `# $ % & ( ) * ; < = > ? [ ] ^ { | } ~`. A version has no slash either, and a name has one only if
-- it begins with `@`.
pub unsafe_field_errors-inert :
    (pkg old new : String)
    → unsafe_field_errors (str pkg) (str old) (str new) ≡ []
    → InertName (codes pkg) × (all solid (codes old) ≡ true) × (all solid (codes new) ≡ true)
unfolding unsafe_field_errors safe_package safe_version is_version
unsafe_field_errors-inert pkg old new h =
    let outer = (append-eq-nil _ _).0 h in
    let inner = (append-eq-nil _ _).0 outer.1 in
    let p = (one_unless (safe_package (str pkg)) _ _).0 outer.0 in
    let o = (one_unless (safe_version (str old)) _ _).0 inner.0 in
    let n = (one_unless (safe_version (str new)) _ _).0 inner.1 in
    (
      package-InertName (codes pkg) (ground (arith, p)),
      shaped-all is_alnum is_version_char solid alnum-solid version-solid (codes old)
          (ground (arith, o)),
      shaped-all is_alnum is_version_char solid alnum-solid version-solid (codes new)
          (ground (arith, n)),
    )
