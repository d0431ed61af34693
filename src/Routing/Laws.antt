-- ===== src/Routing/Laws.antt =====
-- What `load_policy` of src/intent_packages/routing.py returns, and what a lookup in it yields.
use intent_packages.Prelude.{
  ℕ, String, ◌≡◌, ◌≢◌, refl, sym, ap, true, false, Option, none, some, List, [], ◌∷◌, ◌++◌, ◌==◌,
  ◌≤◌, leb, eq_iff, arith, All, Bool-cases, inl, inr, if◌then◌else◌,
}
use intent_packages.Key.{name, odd}
use intent_packages.Value.{Value, int, pos, negsuc, Entries}
use intent_packages.Value.Dict.{get, Pairs}
use intent_packages.Outcome.{Outcome, ok, raised, routing_error, >>=-ok, ok-inj, if-ok, raise_if}
use intent_packages.Routing.{
  Models, RoutingRow, Rows, RoutingPolicy, find, known, require_str, build_row, validate_version,
  validate_models_table, add_surface, add_surfaces, some_rows, rows_in, parse_surfaces,
  change_class_row, change_class_rows, table_items, parse_change_classes, validate_no_llm,
  parse_policy, PolicyFile, missing, malformed, document, load_policy, resolve_change_class,
}
use intent_packages.Routing.Rows.{some-inj, raise_if-false, IsSoundRow, build_row-IsSoundRow}

-- No name is filed twice.
abbrev pub Unique : Rows → Type 0
Unique [] = Unit
Unique ((k, row) ∷ rows) = (known k rows ≡ false) × Unique rows

module _ (models : Models) where
  add_surface_sound :
      (rows : Rows) (table : Value) (more : Rows)
      → add_surface models rows table ≡ ok more
      → (k : String) × (row : RoutingRow) × (known k rows ≡ false)
        × IsSoundRow models (k, row)
        × (more ≡ rows ++ (k, row) ∷ [])
  unfolding add_surface
  add_surface_sound rows table more h0 =
      let (k, _, h1) = >>=-ok (require_str table "id") _ h0 in
      let (_, d, h2) =
        >>=-ok (raise_if (known k rows) (routing_error "duplicate surface id")) _ h1 in
      let (_, _, h3) = >>=-ok (require_str table "where") _ h2 in
      let (row, r, h4) = >>=-ok (build_row table k models) _ h3 in
      (k, row, raise_if-false _ _ d, build_row-IsSoundRow table k models row r, sym (ok-inj h4))

  All-snoc :
      (rows : Rows) (row : String × RoutingRow)
      → All (IsSoundRow models) rows
      → IsSoundRow models row
      → All (IsSoundRow models) (rows ++ row ∷ [])
  All-snoc [] row a r = (r, tt)
  All-snoc (x ∷ rows) row a r = (a.0, All-snoc rows row a.1 r)

  known-snoc :
      (k : String) (rows : Rows) (j : String) (row : RoutingRow)
      → known k rows ≡ false
      → (k == j) ≡ false
      → known k (rows ++ (j, row) ∷ []) ≡ false
  unfolding known find
  known-snoc k [] j row h n = ground (arith, n)
  known-snoc k ((i, x) ∷ rows) j row h n = ground (arith, known-snoc k rows j row)

  Unique-snoc :
      (rows : Rows) (k : String) (row : RoutingRow)
      → Unique rows
      → known k rows ≡ false
      → Unique (rows ++ (k, row) ∷ [])
  unfolding known find
  Unique-snoc [] k row u h = (refl, tt)
  Unique-snoc ((j, x) ∷ rows) k row u h = (
    known-snoc j rows k row u.0 (ground (arith, eq_iff k j, eq_iff j k)),
    Unique-snoc rows k row u.1 (ground arith),
  )

  add_surfaces_sound :
      (rows : Rows) (tables : List Value) (more : Rows)
      → All (IsSoundRow models) rows
      → Unique rows
      → add_surfaces models rows tables ≡ ok more
      → All (IsSoundRow models) more × Unique more
  unfolding add_surfaces
  add_surfaces_sound rows [] more a u h = rw (← (ok-inj h)) (a, u)
  add_surfaces_sound rows (table ∷ tables) more a u h =
      let (next, n, h1) = >>=-ok (add_surface models rows table) _ h in
      let (k, row, fresh, sound, e) = add_surface_sound rows table next n in
      add_surfaces_sound next tables more (rw e (All-snoc rows (k, row) a sound))
        (rw e (Unique-snoc rows k row u fresh)) h1

  some_rows-ok : (rows more : Rows) → some_rows rows ≡ ok more → (more ≡ rows) × (more ≢ [])
  unfolding some_rows
  some_rows-ok [] more h = absurd (cc)
  some_rows-ok (row ∷ rows) more h = (sym (ok-inj h), λ e. cc (ok-inj h))

  parse_surfaces_sound :
      (v : Value) (rows : Rows)
      → parse_surfaces v models ≡ ok rows
      → (rows ≢ []) × All (IsSoundRow models) rows × Unique rows
  unfolding parse_surfaces
  parse_surfaces_sound v rows h0 =
      let (tables, _, h1) = >>=-ok (rows_in v) _ h0 in
      let (found, f, h2) = >>=-ok (add_surfaces models [] tables) _ h1 in
      let (e, n) = some_rows-ok found rows h2 in
      let (a, u) = add_surfaces_sound [] tables found tt tt f in (n, rw e a, rw e u)

  change_class_row_sound :
      (surfaces : Rows) (k : String) (v : Value) (row : RoutingRow)
      → change_class_row models surfaces k v ≡ ok row
      → IsSoundRow models (k, row)
  unfolding change_class_row
  change_class_row_sound surfaces k v row h0 =
      let (surface, _, h1) = >>=-ok (require_str v "surface") _ h0 in
      let (_, _, h2) =
        >>=-ok
          (raise_if (if known surface surfaces then false else true)
            (routing_error "unknown surface"))
          _ h1 in
      build_row-IsSoundRow v k models row h2

  change_class_rows_sound :
      (surfaces : Rows) (ps : Pairs) (rows : Rows)
      → change_class_rows models surfaces ps ≡ ok rows
      → All (IsSoundRow models) rows
  unfolding change_class_rows
  change_class_rows_sound surfaces [] rows h = rw (← (ok-inj h)) tt
  change_class_rows_sound surfaces ((odd n, v) ∷ ps) rows h = absurd (cc)
  change_class_rows_sound surfaces ((name k, v) ∷ ps) rows h =
      let (row, r, h1) = >>=-ok (change_class_row models surfaces k v) _ h in
      let (rest, t, h2) = >>=-ok (change_class_rows models surfaces ps) _ h1 in
      rw (← (ok-inj h2))
        (change_class_row_sound surfaces k v row r, change_class_rows_sound surfaces ps rest t)

  parse_change_classes_sound :
      (v : Value) (surfaces rows : Rows)
      → parse_change_classes v models surfaces ≡ ok rows
      → All (IsSoundRow models) rows
  unfolding parse_change_classes
  parse_change_classes_sound v surfaces rows h0 =
      let (ps, _, h1) = >>=-ok (table_items v) _ h0 in change_class_rows_sound surfaces ps rows h1

  find_sound :
      (k : String) (rows : Rows) (row : RoutingRow)
      → All (IsSoundRow models) rows
      → find k rows ≡ some row
      → IsSoundRow models (k, row)
  unfolding find
  find_sound k [] row a h = absurd (cc)
  find_sound k ((j, x) ∷ rows) row a h = elim (Bool-cases (k == j)) [
    | inl e ↦ let same : some x ≡ some row = rw e at h in found e same
    | inr e ↦ find_sound k rows row a.1 (rw e at h)
  ]
    where
      found : (k == j) ≡ true → some x ≡ some row → IsSoundRow models (k, row)
      found e same = rw ((eq_iff k j).0 e) (rw (← (some-inj same)) a.0)

validate_version-pos : (v : Value) (n : ℕ) → validate_version v ≡ ok n → 1 ≤ n
unfolding validate_version
validate_version-pos (int (pos m)) n h =
    let (b, e) = if-ok (leb 1 m) (ok m) _ h in ground (arith, b, ok-inj e)
validate_version-pos (int (negsuc m)) n h = absurd (cc)
validate_version-pos v n h = absurd (cc)

-- The version is positive, there are surfaces, none filed twice, and each row of a surface and of a
-- change class is sound.
abbrev pub IsSound : RoutingPolicy → Type 0
IsSound policy =
    (1 ≤ policy.version)
    × (policy.surfaces ≢ [])
    × Unique policy.surfaces
    × All (IsSoundRow policy.models) policy.surfaces
    × All (IsSoundRow policy.models) policy.change_classes

parse_policy-IsSound :
    (raw : Entries) (policy : RoutingPolicy) → parse_policy raw ≡ ok policy → IsSound policy
unfolding parse_policy
parse_policy-IsSound raw policy h0 =
    let (version, v, h1) = >>=-ok (validate_version (get raw "version")) _ h0 in
    let (models, _, h2) = >>=-ok (validate_models_table (get raw "models")) _ h1 in
    let (surfaces, s, h3) = >>=-ok (parse_surfaces (get raw "surface") models) _ h2 in
    let (classes, c, h4) =
      >>=-ok (parse_change_classes (get raw "change_class") models surfaces) _ h3 in
    let (no_llm, _, h5) = >>=-ok (validate_no_llm (get raw "no_llm")) _ h4 in
    let (n, a, u) = parse_surfaces_sound models (get raw "surface") surfaces s in
    rw (← (ok-inj h5)) (
      validate_version-pos (get raw "version") version v,
      n,
      u,
      a,
      parse_change_classes_sound models (get raw "change_class") surfaces classes c,
    )

pub load_policy-IsSound :
    (file : PolicyFile) (policy : RoutingPolicy) → load_policy file ≡ ok policy → IsSound policy
unfolding load_policy
load_policy-IsSound missing policy h = absurd (cc)
load_policy-IsSound malformed policy h = absurd (cc)
load_policy-IsSound (document raw) policy h = parse_policy-IsSound raw policy h

-- A change class that resolves in a policy that was loaded has a row of its own name, with at least
-- one model, and the id of each model is the one that the table of models has for its slug.
pub resolve_change_class-declared :
    (file : PolicyFile) (policy : RoutingPolicy) (change_class : String) (row : RoutingRow)
    → load_policy file ≡ ok policy
    → resolve_change_class policy change_class ≡ ok row
    → IsSoundRow policy.models (change_class, row)
unfolding resolve_change_class
resolve_change_class-declared file policy c row h r =
    find_sound policy.models c policy.change_classes row (load_policy-IsSound file policy h).4
      (resolved (find c policy.change_classes) r)
  where
    resolved :
        (o : Option RoutingRow)
        → elim o as (λ _. Outcome RoutingRow) [
          | none ↦ raised (routing_error "unknown change-class")
          | some x ↦ ok x
        ]
          ≡ ok row
        → o ≡ some row
    resolved none e = absurd (cc)
    resolved (some x) e = ap some (ok-inj e)
