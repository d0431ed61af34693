-- ===== src/Outcome/Report.antt =====
-- The `errors` list of a validator, and the loops that append to it.
use intent_packages.Prelude.{
  ℕ, suc, String, ◌≡◌, refl, ◌↔◌, Bool, true, false, not, List, [], ◌∷◌, ◌++◌, arith, All,
}
use intent_packages.Outcome.{Outcome, ok, raised}
use intent_packages.Key.{Key, name}

-- A place in a document: `a.b[2].c`.
pub data Where : Type 0 where
  top : Where
  field : Where → Key → Where
  nth : Where → ℕ → Where

abbrev pub at : Where → String → Where
at p k = field p (name k)

-- The key at the top of a document.
abbrev pub in_top : String → Where
in_top k = field top (name k)

-- An error message: the place that it names and its words.
pub record Issue : Type 0 where
  pub place : Where
  pub words : String

abbrev pub Issues : Type 0
Issues = List Issue

-- `[message]`
abbrev pub one : Where → String → Issues
one p s = record { place = p; words = s } ∷ []

abbrev pub one_if : Bool → Where → String → Issues
one_if true p s = one p s
one_if false p s = []

abbrev pub Report : Type 0
Report = Outcome Issues

abbrev pub issue : Where → String → Report
issue p s = ok (one p s)

abbrev pub clean : Report
clean = ok []

-- Errors of a first check, then those of a second; what either raises ends both.
infixr 6 ◌+++◌
unfoldable pub ◌+++◌ : Report → Report → Report
ok xs +++ ok ys = ok (xs ++ ys)
ok xs +++ raised e = raised e
raised e +++ s = raised e

-- `if b: errors.append(…)`
abbrev pub issue_if : Bool → Where → String → Report
issue_if true p s = issue p s
issue_if false p s = clean

module _ {ℓ} {A : Type ℓ} where
  -- `for i, x in enumerate(xs)`, counted from `i`.
  unfoldable pub for_each : (ℕ → A → Report) → ℕ → List A → Report
  unfolding ◌+++◌
  for_each f i [] = clean
  for_each f i (x ∷ xs) = f i x +++ for_each f (suc i) xs

abbrev pub IsClean : Report → Type 0
IsClean r = r ≡ clean

pub IsClean-+++ : (r s : Report) → IsClean (r +++ s) ↔ (IsClean r × IsClean s)
unfolding ◌+++◌
IsClean-+++ (ok []) (ok ys) = (λ h. (refl, h), λ h. h.1)
IsClean-+++ (ok (x ∷ xs)) (ok ys) = (λ h. ground arith, λ h. ground arith)
IsClean-+++ (ok xs) (raised e) = (λ h. cc, λ h. cc h.1)
IsClean-+++ (raised e) s = (λ h. cc, λ h. cc h.0)

module _ {ℓ} {A : Type ℓ} where
  -- The same loop where no step raises.
  unfoldable pub each : (ℕ → A → Issues) → ℕ → List A → Issues
  each f i [] = []
  each f i (x ∷ xs) = f i x ++ each f (suc i) xs

pub append-eq-nil {ℓ} : {A : Type ℓ} (xs ys : List A) → (xs ++ ys ≡ []) ↔ ((xs ≡ []) × (ys ≡ []))
append-eq-nil [] ys = (λ h. (refl, h), λ h. h.1)
append-eq-nil (x ∷ xs) ys = (λ h. ground arith, λ h. ground arith)

pub one_if-eq-nil : (b : Bool) (p : Where) (s : String) → (one_if b p s ≡ []) ↔ (b ≡ false)
one_if-eq-nil true p s = (λ h. absurd (cc), λ h. absurd (cc))
one_if-eq-nil false p s = (λ h. refl, λ h. refl)

pub iff_trans : {A B C : Type 0} → A ↔ B → B ↔ C → A ↔ C
iff_trans f g = (λ a. g.0 (f.0 a), λ c. f.1 (g.1 c))

not-false : (b : Bool) → (not b ≡ false) ↔ (b ≡ true)
not-false true = (λ h. refl, λ h. refl)
not-false false = (λ h. absurd (cc), λ h. absurd (cc))

pub one_unless : (b : Bool) (p : Where) (s : String) → (one_if (not b) p s ≡ []) ↔ (b ≡ true)
one_unless b p s = iff_trans (one_if-eq-nil (not b) p s) (not-false b)

module _ {ℓ κ} {A : Type ℓ} (P : A → Type κ) (f : ℕ → A → Issues) where
  pub each_sound :
      ((i : ℕ) (a : A) → f i a ≡ [] → P a) → (i : ℕ) (xs : List A) → each f i xs ≡ [] → All P xs
  unfolding each
  each_sound step i [] h = tt
  each_sound step i (x ∷ xs) h =
      let parts = (append-eq-nil (f i x) _).0 h in
      (step i x parts.0, each_sound step (suc i) xs parts.1)

  pub each_complete :
      ((i : ℕ) (a : A) → P a → f i a ≡ []) → (i : ℕ) (xs : List A) → All P xs → each f i xs ≡ []
  unfolding each
  each_complete step i [] h = refl
  each_complete step i (x ∷ xs) h =
      (append-eq-nil (f i x) _).1 (step i x h.0, each_complete step (suc i) xs h.1)

-- A pair of checks returns just when both do.
pub +++-ok :
    (r s : Report) {es : List Issue}
    → (r +++ s) ≡ ok es
    → (xs : List Issue) × (ys : List Issue) × (r ≡ ok xs) × (s ≡ ok ys)
unfolding ◌+++◌
+++-ok (ok xs) (ok ys) h = (xs, ys, refl, refl)
+++-ok (ok xs) (raised e) h = cc
+++-ok (raised e) s h = cc
