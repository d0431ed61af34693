-- ===== src/Schema/Conforms.antt =====
-- What a document that the walker of src/intent_packages/schema.py finds no fault in looks like:
-- the shape that a specification describes, said without the walker.
use intent_packages.Prelude.{
  String, ◌≡◌, refl, ◌↔◌, ◌⊎◌, inl, inr, Bool, true, false, Option, none, some, List, [], ◌∷◌,
  arith, mem, All,
}
use intent_packages.Key.{Key}
use intent_packages.Value.{
  Value, null, bool, int, str, list, dict, ℤ, Items, Entries, end, entry, to_list, is_str,
}
use intent_packages.Value.Dict.{lookup, has, keys}
use intent_packages.Outcome.Report.{
  Where, nth, field, at, Issues, append-eq-nil, one_unless, iff_trans, each_sound, each_complete,
}
use intent_packages.Schema.{
  PyType, str_type, int_type, bool_type, Spec, scalar, list_of, map_of, open_map, Fields, no_more,
  key, check_scalar, is_field_key, unknown_keys, walk_open_map, check_open, missing_required,
  Walker, walk_list, walk_map, walk_key, walk, walk_fields, is_good_key,
}

abbrev Allowed : Option (List String) → String → Type 0
Allowed none s = Unit
Allowed (some vs) s = mem s vs ≡ true

abbrev pub OfType : PyType → Option (List String) → Value → Type 0
OfType str_type enum v = (s : String) × (v ≡ str s) × Allowed enum s
OfType int_type enum v = (n : ℤ) × (v ≡ int n) × (enum ≡ none)
OfType bool_type enum v = (b : Bool) × (v ≡ bool b) × (enum ≡ none)

abbrev pub Scalar : PyType → Bool → Option (List String) → Value → Type 0
Scalar t nullable enum v = ((v ≡ null) × (nullable ≡ true)) ⊎ OfType t enum v

abbrev pub AllText : Entries → Type 0
AllText end = Unit
AllText (entry k v d) = (is_good_key k ≡ true) × (is_str v ≡ true) × AllText d

abbrev pub KeyConforms : Bool → (Value → Type 0) → Option Value → Type 0
KeyConforms opt P (some v) = P v
KeyConforms opt P none = opt ≡ true

unfoldable mutual
  pub Conforms : Spec → Value → Type 0
  Conforms (scalar t nullable enum) v = Scalar t nullable enum v
  Conforms (list_of item) v = (xs : Items) × (v ≡ list xs) × All (λ w. Conforms item w) (to_list xs)
  Conforms (map_of fs) v =
      (d : Entries) × (v ≡ dict d)
      × All (λ k. is_field_key k fs ≡ true) (keys d)
      × ConformsFields fs d
  Conforms (open_map req) v =
      (d : Entries) × (v ≡ dict d) × All (λ k. has k d ≡ true) req × AllText d

  pub ConformsFields : Fields → Entries → Type 0
  ConformsFields no_more d = Unit
  ConformsFields (key k opt s fs) d =
      KeyConforms opt (λ w. Conforms s w) (lookup k d) × ConformsFields fs d

check_scalar_sound :
    (t : PyType) (nullable : Bool) (enum : Option (List String)) (v : Value) (p : Where)
    → check_scalar t nullable enum v p ≡ []
    → Scalar t nullable enum v
unfolding check_scalar
check_scalar_sound t nullable enum null p h = inl (refl, ground arith)
check_scalar_sound str_type nullable none (str s) p h = inr (s, refl, tt)
check_scalar_sound str_type nullable (some vs) (str s) p h = inr (s, refl, ground arith)
check_scalar_sound int_type nullable none (int n) p h = inr (n, refl, refl)
check_scalar_sound bool_type nullable none (bool b) p h = inr (b, refl, refl)
check_scalar_sound str_type nullable enum v p h = absurd (ground arith)
check_scalar_sound int_type nullable enum v p h = absurd (ground arith)
check_scalar_sound bool_type nullable enum v p h = absurd (ground arith)

check_scalar_complete :
    (t : PyType) (nullable : Bool) (enum : Option (List String)) (v : Value) (p : Where)
    → Scalar t nullable enum v
    → check_scalar t nullable enum v p ≡ []
unfolding check_scalar
check_scalar_complete t nullable enum v p (inl (e, n)) = rw (e, n)
check_scalar_complete str_type nullable none v p (inr (s, e, a)) = rw e
check_scalar_complete str_type nullable (some vs) v p (inr (s, e, a)) = rw (e, a)
check_scalar_complete int_type nullable enum v p (inr (n, e, a)) = rw (e, a)
check_scalar_complete bool_type nullable enum v p (inr (n, e, a)) = rw (e, a)

module _ {A : Type 0} {B : Type 0} where
  both : {C D : Type 0} → A ↔ C → B ↔ D → (A × B) ↔ (C × D)
  both f g = (λ h. (f.0 h.0, g.0 h.1), λ h. (f.1 h.0, g.1 h.1))

missing_required_iff :
    (req : List String) (d : Entries) (p : Where)
    → (missing_required req d p ≡ []) ↔ All (λ k. has k d ≡ true) req
unfolding missing_required
missing_required_iff [] d p = (λ h. tt, λ h. refl)
missing_required_iff (k ∷ ks) d p =
    iff_trans (append-eq-nil _ _) (both (one_unless (has k d) _ _) (missing_required_iff ks d p))

check_open_iff : (d : Entries) (p : Where) → (check_open d p ≡ []) ↔ AllText d
unfolding check_open
check_open_iff end p = (λ h. tt, λ h. refl)
check_open_iff (entry k v d) p =
    let keys_ok = one_unless (is_good_key k) p "keys must be non-empty strings" in
    let texts_ok = one_unless (is_str v) (field p k) "expected str" in
    let rest = check_open_iff d p in
    (
      λ h.
          let outer = (append-eq-nil _ _).0 h in
          let inner = (append-eq-nil _ _).0 outer.1 in
          (keys_ok.0 outer.0, texts_ok.0 inner.0, rest.0 inner.1),
      λ h.
          (append-eq-nil _ _).1 (keys_ok.1 h.0, (append-eq-nil _ _).1 (texts_ok.1 h.1, rest.1 h.2)),
    )

walk_open_map_sound :
    (req : List String) (v : Value) (p : Where)
    → walk_open_map req v p ≡ []
    → (d : Entries) × (v ≡ dict d) × All (λ k. has k d ≡ true) req × AllText d
unfolding walk_open_map
walk_open_map_sound req (dict d) p h =
    let parts = (append-eq-nil _ _).0 h in
    (d, refl, (missing_required_iff req d p).0 parts.0, (check_open_iff d p).0 parts.1)
walk_open_map_sound req _ p h = absurd (cc)

walk_open_map_complete :
    (req : List String) (d : Entries) (p : Where)
    → All (λ k. has k d ≡ true) req
    → AllText d
    → walk_open_map req (dict d) p ≡ []
unfolding walk_open_map
walk_open_map_complete req d p r t =
    (append-eq-nil _ _).1 ((missing_required_iff req d p).1 r, (check_open_iff d p).1 t)

pub unknown_keys_iff :
    (known : Key → Bool) (ks : List Key) (p : Where)
    → (unknown_keys known ks p ≡ []) ↔ All (λ k. known k ≡ true) ks
unfolding unknown_keys
unknown_keys_iff known [] p = (λ h. tt, λ h. refl)
unknown_keys_iff known (k ∷ ks) p =
    iff_trans (append-eq-nil _ _) (both (one_unless (known k) _ _) (unknown_keys_iff known ks p))

walk_key_sound :
    (opt : Bool) (w : Walker) (P : Value → Type 0) (o : Option Value) (p : Where)
    → ((v : Value) (q : Where) → w v q ≡ [] → P v)
    → walk_key opt w o p ≡ []
    → KeyConforms opt P o
unfolding walk_key
walk_key_sound opt w P (some v) p step h = step v p h
walk_key_sound true w P none p step h = refl
walk_key_sound false w P none p step h = absurd (cc)

walk_key_complete :
    (opt : Bool) (w : Walker) (P : Value → Type 0) (o : Option Value) (p : Where)
    → ((v : Value) (q : Where) → P v → w v q ≡ [])
    → KeyConforms opt P o
    → walk_key opt w o p ≡ []
unfolding walk_key
walk_key_complete opt w P (some v) p step h = step v p h
walk_key_complete true w P none p step h = refl
walk_key_complete false w P none p step h = absurd (cc)

walk_list_sound :
    (w : Walker) (P : Value → Type 0) (v : Value) (p : Where)
    → ((u : Value) (q : Where) → w u q ≡ [] → P u)
    → walk_list w v p ≡ []
    → (xs : Items) × (v ≡ list xs) × All P (to_list xs)
unfolding walk_list
walk_list_sound w P (list xs) p step h =
    (xs, refl, each_sound P (λ i u. w u (nth p i)) (λ i u e. step u (nth p i) e) 0 (to_list xs) h)
walk_list_sound w P _ p step h = absurd (cc)

walk_map_sound :
    (known : Key → Bool) (w : Entries → Where → Issues) (P : Entries → Type 0) (v : Value)
    (p : Where)
    → ((d : Entries) (q : Where) → w d q ≡ [] → P d)
    → walk_map known w v p ≡ []
    → (d : Entries) × (v ≡ dict d) × All (λ k. known k ≡ true) (keys d) × P d
unfolding walk_map
walk_map_sound known w P (dict d) p step h =
    let parts = (append-eq-nil _ _).0 h in
    (d, refl, (unknown_keys_iff known (keys d) p).0 parts.0, step d p parts.1)
walk_map_sound known w P _ p step h = absurd (cc)

mutual
  unfolding walk Conforms

  walk-sound_at : (s : Spec) (v : Value) (p : Where) → walk s v p ≡ [] → Conforms s v
  walk-sound_at (scalar t nullable enum) v p h = check_scalar_sound t nullable enum v p h
  walk-sound_at (list_of item) v p h =
      walk_list_sound _ (λ w. Conforms item w) v p (λ w q e. walk-sound_at item w q e) h
  walk-sound_at (map_of fs) v p h =
      walk_map_sound _ _ (λ d. ConformsFields fs d) v p (λ d q e. walk_fields_sound fs d q e) h
  walk-sound_at (open_map req) v p h = walk_open_map_sound req v p h

  pub walk_fields_sound :
      (fs : Fields) (d : Entries) (p : Where) → walk_fields fs d p ≡ [] → ConformsFields fs d
  walk_fields_sound no_more d p h = tt
  walk_fields_sound (key k opt s fs) d p h =
      let parts = (append-eq-nil _ _).0 h in
      (
        walk_key_sound opt _ (λ w. Conforms s w) (lookup k d) (at p k)
            (λ w q e. walk-sound_at s w q e) parts.0,
        walk_fields_sound fs d p parts.1,
      )

mutual
  unfolding walk Conforms walk_list walk_map

  walk-complete_at : (s : Spec) (v : Value) (p : Where) → Conforms s v → walk s v p ≡ []
  walk-complete_at (scalar t nullable enum) v p h = check_scalar_complete t nullable enum v p h
  walk-complete_at (list_of item) v p (xs, e, h) = rw e (
      each_complete (λ w. Conforms item w) (λ i w. walk item w (nth p i))
        (λ i w c. walk-complete_at item w (nth p i) c) 0 (to_list xs) h)
  walk-complete_at (map_of fs) v p (d, e, ks, h) = rw e (
      (append-eq-nil _ _).1 (
        (unknown_keys_iff (λ k. is_field_key k fs) (keys d) p).1 ks,
        walk_fields_complete fs d p h,
      ))
  walk-complete_at (open_map req) v p (d, e, r, t) = rw e (walk_open_map_complete req d p r t)

  walk_fields_complete :
      (fs : Fields) (d : Entries) (p : Where) → ConformsFields fs d → walk_fields fs d p ≡ []
  walk_fields_complete no_more d p h = refl
  walk_fields_complete (key k opt s fs) d p h = (append-eq-nil _ _).1 (
    walk_key_complete opt _ (λ w. Conforms s w) (lookup k d) (at p k)
        (λ w q c. walk-complete_at s w q c) h.0,
    walk_fields_complete fs d p h.1,
  )

-- The walker reports nothing, at any place, exactly when the document has the specified shape:
-- each required key is there, no unknown key is, and each value is of its type and among the legal
-- values.
pub walk-Conforms : (s : Spec) (v : Value) (p : Where) → (walk s v p ≡ []) ↔ Conforms s v
walk-Conforms s v p = (walk-sound_at s v p, walk-complete_at s v p)
