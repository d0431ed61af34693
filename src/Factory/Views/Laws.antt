-- ===== src/Factory/Views/Laws.antt =====
-- What the scans of src/intent_packages/factory/reads.py find in the history of a unit.
use intent_packages.Prelude.{
  ◌≡◌, refl, sym, ap, ◌∙◌, ◌⊎◌, inl, inr, true, false, List, [], ◌∷◌, arith, All, In, first, later,
  Bool-cases, eq_iff,
}
use intent_packages.Value.{
  Value, ℤ, pos, negsuc, null, bool, int, str, list, dict, float, date, bytes, other, is_hashable,
  truthy, scalar_eq,
}
use intent_packages.Value.Access.{field_of}
use intent_packages.Outcome.{ok, >>=-ok, ok-inj}
use intent_packages.Factory.Views.Order.{◌≤ℤ◌, ≤ℤ_trans, ≤ℤ_refl, maxℤ, ≤ℤ_max_left, ≤ℤ_max_right}
use intent_packages.Factory.Session.{Backend}
use intent_packages.Factory.Views.{
  DispatchEvent, dispatch_events, ltℤ, listed, add_id, attempt_of, scan_events, scan_history,
}

scalar_eq_refl : (v : Value) → is_hashable v ≡ true → scalar_eq v v ≡ true
unfolding scalar_eq
scalar_eq_refl null h = refl
scalar_eq_refl (bool true) h = refl
scalar_eq_refl (bool false) h = refl
scalar_eq_refl (int (pos n)) h = ground arith
scalar_eq_refl (int (negsuc n)) h = ground arith
scalar_eq_refl (str s) h = ground (arith, eq_iff s s)
scalar_eq_refl (list xs) h = absurd (cc)
scalar_eq_refl (dict d) h = absurd (cc)
scalar_eq_refl (float n) h = ground arith
scalar_eq_refl (date n) h = ground arith
scalar_eq_refl (bytes n) h = ground arith
scalar_eq_refl (other b n) h = ground arith

-- Adding a record id keeps those that are there, and an id that counts is there afterwards.
add_id-listed :
    (v : Value) (ids more : List Value)
    → add_id v ids ≡ ok more
    → ((w : Value) → listed w ids ≡ true → listed w more ≡ true)
      × (truthy v ≡ true → listed v more ≡ true)
unfolding add_id listed
add_id-listed v ids more h = elim (Bool-cases (truthy v)) [
  | inl t ↦ elim (Bool-cases (is_hashable v)) [
    | inl g ↦ elim (Bool-cases (listed v ids)) [
      | inl l ↦
          let e : ids ≡ more = ground (arith, t, g, l) in
          (λ w q. ap (listed w) (sym e) ∙ q, λ _. ap (listed v) (sym e) ∙ l)
      | inr l ↦
          let e : v ∷ ids ≡ more = ground (arith, t, g, l) in
          (
            λ w q. ap (listed w) (sym e) ∙ ground (arith, q),
            λ _. ap (listed v) (sym e) ∙ ground (arith, scalar_eq_refl v),
          )
    ]
    | inr g ↦ absurd (ground (arith, t, g))
  ]
  | inr t ↦
      let e : ids ≡ more = ground (arith, t) in
      (λ w q. ap (listed w) (sym e) ∙ q, λ u. absurd (ground (arith, t, u)))
]

-- What is in a set of ids after an addition was there before, or is the id that was added.
In-cases : (w v : Value) (ids : List Value) → In w (v ∷ ids) → (w ≡ v) ⊎ In w ids
In-cases w _ ids first = inl refl
In-cases w v ids (later i) = inr i

add_id-origin :
    (v w : Value) (ids more : List Value)
    → add_id v ids ≡ ok more
    → In w more
    → In w ids ⊎ ((w ≡ v) × (truthy v ≡ true))
unfolding add_id
add_id-origin v w ids more h i = elim (Bool-cases (truthy v)) [
  | inl t ↦ elim (Bool-cases (is_hashable v)) [
    | inl g ↦ elim (Bool-cases (listed v ids)) [
      | inl l ↦ let e : ids ≡ more = ground (arith, t, g, l) in inl (rw (← e) at i)
      | inr l ↦
          let e : v ∷ ids ≡ more = ground (arith, t, g, l) in
          elim (In-cases w v ids (rw (← e) at i)) [ inl q ↦ inr (q, t) | inr q ↦ inl q ]
    ]
    | inr g ↦ absurd (ground (arith, t, g))
  ]
  | inr t ↦ let e : ids ≡ more = ground (arith, t) in inl (rw (← e) at i)
]

-- The record id of one of the events.
abbrev pub IsRecorded : List DispatchEvent → Value → Type 0
IsRecorded es v =
    (e : DispatchEvent) × In e es
    × (field_of e.payload "dispatch_record_id" ≡ ok v)
    × (truthy v ≡ true)

-- An event whose ordinal is within `latest` and whose record id, if it has one, is among `ids`.
abbrev pub IsCovered : Backend → ℤ → List Value → DispatchEvent → Type 0
IsCovered B latest ids e =
    (a : ℤ) × (id : Value) × (attempt_of B e.payload ≡ ok a)
    × (a ≤ℤ latest)
    × (field_of e.payload "dispatch_record_id" ≡ ok id)
    × (truthy id ≡ true → listed id ids ≡ true)

-- The ordinal is that of one of the events.
abbrev pub IsAttained : Backend → ℤ → List DispatchEvent → Type 0
IsAttained B latest es = (e : DispatchEvent) × In e es × (attempt_of B e.payload ≡ ok latest)

module _ (B : Backend) where
  later-IsAttained :
      (latest a m : ℤ) (e : DispatchEvent) (es : List DispatchEvent)
      → attempt_of B e.payload ≡ ok a
      → (m ≡ maxℤ latest a) ⊎ IsAttained B m es
      → (m ≡ latest) ⊎ IsAttained B m (e ∷ es)
  later-IsAttained latest a m e es t (inr (f, i, g)) = inr (f, later i, g)
  later-IsAttained latest a m e es t (inl q) = elim (Bool-cases (ltℤ latest a)) [
    | inl l ↦ inr (e, first, t ∙ ap ok (sym (q ∙ rw l refl)))
    | inr l ↦ inl (q ∙ rw l refl)
  ]

  scan_events-IsCovered :
      (latest : ℤ) (ids : List Value) (es : List DispatchEvent) (m : ℤ) (out : List Value)
      → scan_events B latest ids es ≡ ok (m, out)
      → (latest ≤ℤ m)
        × ((w : Value) → listed w ids ≡ true → listed w out ≡ true)
        × All (IsCovered B m out) es
        × ((m ≡ latest) ⊎ IsAttained B m es)
  unfolding scan_events
  scan_events-IsCovered latest ids [] m out h =
      let e = ok-inj h in
      let p : latest ≡ m = ap (λ x. x.0) e in
      (rw (← p) (≤ℤ_refl latest), λ w q. ap (listed w) (sym (ap (λ x. x.1) e)) ∙ q, tt, inl (sym p))
  scan_events-IsCovered latest ids (e ∷ es) m out h0 =
      let (id, d, h1) = >>=-ok (field_of e.payload "dispatch_record_id") _ h0 in
      let (more, n, h2) = >>=-ok (add_id id ids) _ h1 in
      let (a, t, h3) = >>=-ok (attempt_of B e.payload) _ h2 in
      let (up, keep, rest, att) = scan_events-IsCovered (maxℤ latest a) more es m out h3 in
      let (old, new) = add_id-listed id ids more n in
      (
        ≤ℤ_trans latest (maxℤ latest a) m (≤ℤ_max_left latest a) up,
        λ w q. keep w (old w q),
        (
          (
            a,
            id,
            t,
            ≤ℤ_trans a (maxℤ latest a) m (≤ℤ_max_right latest a) up,
            d,
            λ q. keep id (new q),
          ),
          rest,
        ),
        later-IsAttained latest a m e es t att,
      )

  scan_events-origin :
      (latest : ℤ) (ids : List Value) (es : List DispatchEvent) (m : ℤ) (out : List Value)
      (v : Value)
      → scan_events B latest ids es ≡ ok (m, out)
      → In v out
      → In v ids ⊎ IsRecorded es v
  unfolding scan_events
  scan_events-origin latest ids [] m out v h i = inl (rw (← (ap (λ x. x.1) (ok-inj h))) at i)
  scan_events-origin latest ids (e ∷ es) m out v h0 i =
      let (id, d, h1) = >>=-ok (field_of e.payload "dispatch_record_id") _ h0 in
      let (more, n, h2) = >>=-ok (add_id id ids) _ h1 in
      let (a, t, h3) = >>=-ok (attempt_of B e.payload) _ h2 in
      elim (scan_events-origin (maxℤ latest a) more es m out v h3 i) [
        | inl j ↦ elim (add_id-origin id v ids more n j) [
          | inl k ↦ inl k
          | inr (q, u) ↦ inr (e, first, d ∙ ap ok (sym q), ap truthy q ∙ u)
        ]
        | inr (f, j, g, u) ↦ inr (f, later j, g, u)
      ]

  All-In : (P : Value → Type 0) (vs : List Value) → ((v : Value) → In v vs → P v) → All P vs
  All-In P [] f = tt
  All-In P (v ∷ vs) f = (f v first, All-In P vs (λ w i. f w (later i)))

  none_yet : (es : List DispatchEvent) (v : Value) → In v [] ⊎ IsRecorded es v → IsRecorded es v
  none_yet es v (inl i) = elim i [ ]
  none_yet es v (inr r) = r

  -- A scan of a history that answers has found an ordinal that no dispatch event of the history
  -- exceeds, which is 0 or that of one of them, and their record ids: each event has its id among
  -- them, unless it has none, and each id is that of one of the events.
  pub scan_history-IsCovered :
      (rows : List Value) (latest : ℤ) (ids : List Value)
      → scan_history B rows ≡ ok (latest, ids)
      → (es : List DispatchEvent) × (dispatch_events rows ≡ ok es)
        × (pos 0 ≤ℤ latest)
        × All (IsCovered B latest ids) es
        × All (IsRecorded es) ids
        × ((latest ≡ pos 0) ⊎ IsAttained B latest es)
  unfolding scan_history
  scan_history-IsCovered rows latest ids h0 =
      let (es, e, h1) = >>=-ok (dispatch_events rows) _ h0 in
      let (up, _, all, att) = scan_events-IsCovered (pos 0) [] es latest ids h1 in
      let back =
        All-In (IsRecorded es) ids
          (λ v i. none_yet es v (scan_events-origin (pos 0) [] es latest ids v h1 i)) in
      (es, e, up, all, back, att)
