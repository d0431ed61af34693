-- ===== src/Outcome.antt =====
-- Python code that may raise: a result, or the exception that it raises. Validators of
-- src/intent_packages/{schema,validate,checks_semantic}.py append to a list of error messages; a
-- message is modelled by the place that it names and its fixed words.
pub mod Report
use intent_packages.Prelude.{ℕ, String, ◌≡◌, refl, Bool, true, false, if◌then◌else◌}

-- The exceptions, each with the fixed words of its message.
pub data Exn : Type 0 where
  type_error attribute_error index_error : Exn
  key_error load_error canonical_error operation_error : String → Exn
  policy_error members_unreadable emit_error chain_unavailable : String → Exn
  profile_error routing_error decompose_error value_error : String → Exn
  validation_error credential_error process_error : String → Exn

pub data Outcome {ℓ} (A : Type ℓ) : Type ℓ where
  ok : A → Outcome A
  raised : Exn → Outcome A

infixl 5 ◌>>=◌ ◌>>◌
abbrev pub ◌>>=◌ {ℓ κ} : {A : Type ℓ} {B : Type κ} → Outcome A → (A → Outcome B) → Outcome B
ok a >>= f = f a
raised e >>= f = raised e

abbrev pub ◌>>◌ {ℓ} : {B : Type ℓ} → Outcome (Unit {0}) → Outcome B → Outcome B
m >> k = m >>= λ _. k

-- `if b: raise e`
abbrev pub raise_if : Bool → Exn → Outcome (Unit {0})
raise_if true e = raised e
raise_if false e = ok tt

-- What a call and its continuation answered.
abbrev pub Chained {ℓ κ} :
    {A : Type ℓ} {B : Type κ} → Outcome A → (A → Outcome B) → B → Type (ℓ ⊔ κ)
Chained {A = A} call next r = (a : A) × (call ≡ ok a) × (next a ≡ ok r)

pub >>=-ok {ℓ κ} :
    {A : Type ℓ} {B : Type κ} (call : Outcome A) (next : A → Outcome B) {r : B}
    → (call >>= next) ≡ ok r
    → Chained call next r
>>=-ok (ok a) next e = (a, refl, e)
>>=-ok (raised x) next e = absurd (cc)

-- The call returned, with whatever result.
abbrev pub Returns {ℓ} : {A : Type ℓ} → Outcome A → Type ℓ
Returns {A = A} m = (a : A) × (m ≡ ok a)

pub Returns-bind {ℓ κ} :
    {A : Type ℓ} {B : Type κ} (m : Outcome A) (f : A → Outcome B)
    → Returns m
    → ((a : A) → Returns (f a))
    → Returns (m >>= f)
Returns-bind (ok a) f r g = g a
Returns-bind (raised e) f r g = absurd (cc r.1)

pub if-ok {ℓ} :
    {A : Type ℓ} (b : Bool) (m : Outcome A) (e : Exn) {a : A}
    → (if b then m else raised e) ≡ ok a
    → (b ≡ true) × (m ≡ ok a)
if-ok true m e h = (refl, h)
if-ok false m e h = absurd (cc)

pub ok-inj {ℓ} : {A : Type ℓ} {a b : A} → ok a ≡ ok b → a ≡ b
ok-inj h = cc
