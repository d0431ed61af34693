-- ===== src/Loader/Laws.antt =====
-- `_NoDatesLoader` of src/intent_packages/loader.py refuses a mapping with a repeated key.
use intent_packages.Prelude.{
  String, ◌≡◌, refl, ap, sym, ◌∙◌, Bool, true, false, List, [], ◌∷◌, ◌==◌, eq_iff, eq_refl,
  if◌then◌else◌, Bool-cases, inl, inr, arith,
}
use intent_packages.Key.{name, odd}
use intent_packages.Value.{Value, str, dict, Entries, end, entry, is_hashable}
use intent_packages.Value.Dict.{has}
use intent_packages.Outcome.{ok, raised, load_error, type_error, >>=-ok, ok-inj}
use intent_packages.Host.{mapping, Pairs, no_pairs, pair}
use intent_packages.Loader.{seen_key, see_key, to_key, construct, check_keys, construct_entries}

-- No text is a key twice.
unfoldable pub Unique : Entries → Type 0
Unique end = Unit
Unique (entry (name k) v d) = (has k d ≡ false) × Unique d
Unique (entry (odd n) v d) = Unique d

see_key-ok :
    (key : Value) (seen more : List Value)
    → see_key key seen ≡ ok more
    → (seen_key key seen ≡ false) × (more ≡ key ∷ seen)
unfolding see_key
see_key-ok key seen more h = by_tests (is_hashable key) (seen_key key seen) refl h
  where
    by_tests :
        (a b : Bool)
        → seen_key key seen ≡ b
        → (if a
            then if b then raised (load_error "duplicate key in mapping") else ok (key ∷ seen)
            else raised type_error)
          ≡ ok more
        → (seen_key key seen ≡ false) × (more ≡ key ∷ seen)
    by_tests true true e x = absurd (cc)
    by_tests true false e x = (e, sym (ok-inj x))
    by_tests false b e x = absurd (cc)

-- The keys that are still to come are none of those seen.
Fresh : List Value → Entries → Type 0
Fresh seen d = (k : String) → has k d ≡ true → seen_key (str k) seen ≡ false

add_key :
    (key w : Value) (seen : List Value) (d : Entries)
    → seen_key key seen ≡ false
    → Unique d
    → Fresh (key ∷ seen) d
    → Unique (entry (to_key key) w d) × Fresh seen (entry (to_key key) w d)
unfolding Unique Fresh has seen_key to_key
add_key (str s) w seen d n u f = (
  (
    elim (Bool-cases (has s d)) [ inl e ↦ absurd (ground (arith, f s e, eq_refl s)) | inr e ↦ e ],
    u,
  ),
  λ k h. elim (Bool-cases (k == s)) [
    | inl e ↦ ap (λ x. seen_key (str x) seen) ((eq_iff k s).0 e) ∙ n
    | inr e ↦ ground (arith, e, h, f k)
  ],
)
add_key key w seen d n u f = (u, λ k h. ground (arith, f k h))

carry :
    (seen : List Value) {a b : Entries} → a ≡ b → Unique a × Fresh seen a → Unique b × Fresh seen b
carry seen e h = rw e at h

move : (a b : List Value) (d : Entries) → a ≡ b → Fresh a d → Fresh b d
move a b d e h = rw e at h

check_keys-Unique :
    (ps : Pairs) (seen : List Value) (d : Entries)
    → check_keys ps seen ≡ ok tt
    → construct_entries ps ≡ ok d
    → Unique d × Fresh seen d
unfolding construct Unique Fresh has
check_keys-Unique no_pairs seen d c e = carry seen (ok-inj e) (tt, λ k h. absurd (cc))
check_keys-Unique (pair k v ps) seen d c e =
    let (key, a, c1) = >>=-ok (construct k) _ c in
    let (more, s, c2) = >>=-ok (see_key key seen) _ c1 in
    let (key', b, e1) = >>=-ok (construct k) _ e in
    let (w, _, e2) = >>=-ok (construct v) _ e1 in
    let (rest, r, e3) = >>=-ok (construct_entries ps) _ e2 in
    let (n, m) = see_key-ok key seen more s in
    let (u, f) = check_keys-Unique ps more rest c2 r in
    let same = ok-inj (sym a ∙ b) in
    carry seen (ap (λ x. entry (to_key x) w rest) same ∙ ok-inj e3)
      (add_key key w seen rest n u (move more (key ∷ seen) rest m f))

dict-inj : (d e : Entries) → dict d ≡ dict e → d ≡ e
dict-inj d e h = cc

-- A mapping that `_NoDatesLoader` constructs has no text as a key twice.
pub construct-Unique : (ps : Pairs) (d : Entries) → construct (mapping ps) ≡ ok (dict d) → Unique d
unfolding construct Unique
construct-Unique ps d h =
    let (_, c, h1) = >>=-ok (check_keys ps []) _ h in
    let (e, r, h2) = >>=-ok (construct_entries ps) _ h1 in
    (carry [] (dict-inj e d (ok-inj h2)) (check_keys-Unique ps [] e c r)).0
