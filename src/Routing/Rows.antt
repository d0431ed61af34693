-- ===== src/Routing/Rows.antt =====
-- The rows that src/intent_packages/routing.py builds: their models and the ids of these.
use intent_packages.Prelude.{
  String, ◌≡◌, ◌≢◌, refl, Bool, true, false, some, List, [], ◌∷◌, arith, inl, inr, Option-cases,
}
use intent_packages.Value.{Value, int, str, list, cons, to_list}
use intent_packages.Value.Access.{field_of}
use intent_packages.Outcome.{Exn, ok, >>=-ok, ok-inj, if-ok, raise_if}
use intent_packages.Routing.{
  Models, RoutingRow, find, known, require_str, check_slug, check_slugs, slugs_of, ids_of,
  build_row,
}

pub some-inj {ℓ} : {A : Type ℓ} {a b : A} → some a ≡ some b → a ≡ b
some-inj h = cc

pub raise_if-false : (b : Bool) (e : Exn) → raise_if b e ≡ ok tt → b ≡ false
raise_if-false true e h = absurd (cc)
raise_if-false false e h = refl

-- Slug by slug, the ids are those that the table of models has.
abbrev Aligned : Models → List String → List String → Type 0
Aligned models [] [] = Unit
Aligned models (s ∷ ss) (i ∷ is) = (find s models ≡ some i) × Aligned models ss is
Aligned models _ _ = ⊥

-- A row bears the name that it is filed under, and has models, each with its id.
abbrev pub IsSoundRow : Models → String × RoutingRow → Type 0
IsSoundRow models (k, row) =
    (row.id ≡ k) × (row.models ≢ []) × Aligned models row.models row.model_ids

known-find {ℓ} :
    {A : Type ℓ} (k : String) (rows : List (String × A))
    → known k rows ≡ true
    → (a : A) × (find k rows ≡ some a)
unfolding known
known-find k rows h = elim (Option-cases (find k rows)) [
  | inl e ↦ absurd (ground (arith, e))
  | inr (a, e) ↦ (a, e)
]

check_slug-known :
    (models : Models) (v : Value) (s : String) → check_slug models v ≡ ok s → known s models ≡ true
unfolding check_slug
check_slug-known models (str t) s h =
    let (b, e) = if-ok (known t models) (ok t) _ h in rw (ok-inj e) at b
check_slug-known models (int n) s h = absurd (cc)
check_slug-known models v s h = absurd (ground arith)

Aligned-cons :
    (models : Models) (s : String) (ss : List String)
    → known s models ≡ true
    → Aligned models ss (ids_of models ss)
    → Aligned models (s ∷ ss) (ids_of models (s ∷ ss))
unfolding ids_of
Aligned-cons models s ss k a = let (i, f) = known-find s models k in rw (f, Aligned) (f, a)

check_slugs-Aligned :
    (models : Models) (vs : List Value) (ss : List String)
    → check_slugs models vs ≡ ok ss
    → Aligned models ss (ids_of models ss)
unfolding check_slugs
check_slugs-Aligned models [] ss h = rw (← (ok-inj h)) (unfold ids_of in tt)
check_slugs-Aligned models (v ∷ vs) ss h =
    let (s, c, h1) = >>=-ok (check_slug models v) _ h in
    let (rest, r, h2) = >>=-ok (check_slugs models vs) _ h1 in
    rw (← (ok-inj h2)) (
      Aligned-cons models s rest (check_slug-known models v s c)
        (check_slugs-Aligned models vs rest r))

check_slugs-ne-nil :
    (models : Models) (v : Value) (vs : List Value) (ss : List String)
    → check_slugs models (v ∷ vs) ≡ ok ss
    → ss ≢ []
unfolding check_slugs
check_slugs-ne-nil models v vs ss h =
    let (s, _, h1) = >>=-ok (check_slug models v) _ h in
    let (rest, _, h2) = >>=-ok (check_slugs models vs) _ h1 in rw (← (ok-inj h2)) (λ e. cc e)

slugs_of-Aligned :
    (models : Models) (v : Value) (ss : List String)
    → slugs_of models v ≡ ok ss
    → (ss ≢ []) × Aligned models ss (ids_of models ss)
unfolding slugs_of
slugs_of-Aligned models (list (cons v vs)) ss h = (
  check_slugs-ne-nil models v (to_list vs) ss h,
  check_slugs-Aligned models (v ∷ to_list vs) ss h,
)
slugs_of-Aligned models v ss h = absurd (ground arith)

pub build_row-IsSoundRow :
    (table : Value) (row_id : String) (models : Models) (row : RoutingRow)
    → build_row table row_id models ≡ ok row
    → IsSoundRow models (row_id, row)
unfolding build_row
build_row-IsSoundRow table row_id models row h0 =
    let (v, _, h1) = >>=-ok (field_of table "models") _ h0 in
    let (ss, s, h2) = >>=-ok (slugs_of models v) _ h1 in
    let (_, _, h3) = >>=-ok (require_str table "rationale") _ h2 in
    let (_, _, h4) = >>=-ok (require_str table "decided") _ h3 in
    let (n, a) = slugs_of-Aligned models v ss s in rw (← (ok-inj h4)) (refl, n, a)
