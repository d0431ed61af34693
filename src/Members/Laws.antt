-- ===== src/Members/Laws.antt =====
-- Whom src/intent_packages/members.py finds granted.
use intent_packages.Prelude.{
  String, ◌≡◌, refl, sym, ap, ◌∙◌, ◌⊎◌, inl, inr, true, false, not, ◌&&◌, Option, none, some, List,
  [], ◌∷◌, ◌==◌, eq_iff, mem, In, first, later, Bool-cases, arith,
}
use intent_packages.Value.{Value, str, list, Items, to_list}
use intent_packages.Outcome.{Outcome, ok, raised, key_error, type_error, >>=-ok, ok-inj}
use intent_packages.Host.{Host}
use intent_packages.Members.{
  Fields, member_fields, as_unreadable, add_member, add_texts, target_loop, targets_of, members_of,
  targets_from, granted_targets,
}

unreadable-ok : (m : Outcome Fields) (f : Fields) → as_unreadable m ≡ ok f → m ≡ ok f
unreadable-ok (ok g) f h = h
unreadable-ok (raised (key_error k)) f h = absurd (cc)
unreadable-ok (raised type_error) f h = absurd (cc)
unreadable-ok (raised e) f h = absurd (cc)

module _ (H : Host) (service : String) where
  -- The member is not retired and holds the grant; its repository, folded, is the text.
  abbrev pub Holds : String → Value → Type 0
  Holds target m =
      (f : Fields) × (r : String) × (s : String) × (member_fields service m ≡ ok f)
      × (f.repository ≡ str r)
      × (f.state ≡ str s)
      × ((s == "retired") ≡ false)
      × (f.grant_state ≡ str "granted")
      × (H.casefold r ≡ target)

  added :
      (r s g target : String) (granted : List String)
      → mem target (add_member H r s g granted) ≡ true
      → (mem target granted ≡ true)
        ⊎ (((s == "retired") ≡ false) × (g ≡ "granted") × (H.casefold r ≡ target))
  unfolding add_member mem
  added r s g target granted h = elim (Bool-cases (not (s == "retired") && g == "granted")) [
    | inr e ↦ inl (ground (arith, e))
    | inl e ↦ elim (Bool-cases (target == H.casefold r)) [
      | inl t ↦
          inr (ground (arith, e), ground (arith, e, eq_iff g "granted"), sym ((eq_iff _ _).0 t))
      | inr t ↦ inl (ground (arith, e, t))
    ]
  ]

  texts-added :
      (a b c : Value) (target : String) (granted more : List String)
      → add_texts H a b c granted ≡ ok more
      → mem target more ≡ true
      → (mem target granted ≡ true)
        ⊎ ((r : String) × (s : String) × (a ≡ str r)
            × (b ≡ str s)
            × ((s == "retired") ≡ false)
            × (c ≡ str "granted")
            × (H.casefold r ≡ target))
  unfolding add_texts
  texts-added (str r) (str s) (str g) target granted more h m =
      elim (added r s g target granted (ap (mem target) (ok-inj h) ∙ m)) [
        | inl k ↦ inl k
        | inr (x, y, z) ↦ inr (r, s, refl, refl, x, ap str y, z)
      ]
  texts-added a b c target granted more h m = absurd (cc)

  target_loop-Holds :
      (ms : List Value) (target : String) (granted ts : List String)
      → target_loop H service ms granted ≡ ok ts
      → mem target ts ≡ true
      → (mem target granted ≡ true) ⊎ ((m : Value) × In m ms × Holds target m)
  unfolding target_loop
  target_loop-Holds [] target granted ts h k = inl (ap (mem target) (ok-inj h) ∙ k)
  target_loop-Holds (m ∷ ms) target granted ts h k =
      let (f, p, h1) = >>=-ok (as_unreadable (member_fields service m)) _ h in
      let (more, q, h2) = >>=-ok (add_texts H f.repository f.state f.grant_state granted) _ h1 in
      elim (target_loop-Holds ms target more ts h2 k) [
        | inr (n, i, x) ↦ inr (n, later i, x)
        | inl y ↦ elim (texts-added f.repository f.state f.grant_state target granted more q y) [
          | inl z ↦ inl z
          | inr (r, s, a, b, c, d, e) ↦
              inr (m, first, (f, r, s, unreadable-ok _ f p, a, b, c, d, e))
        ]
      ]

  -- A member of the record that was read.
  abbrev pub Recorded : String → Type 0
  Recorded target =
      (body : Value) × (xs : Items) × (m : Value) × (H.members_body ≡ some body)
      × (members_of H body ≡ list xs)
      × In m (to_list xs)
      × Holds target m

  targets_of-Holds :
      (v : Value) (target : String) (ts : List String)
      → targets_of H v service ≡ ok ts
      → mem target ts ≡ true
      → (xs : Items) × (v ≡ list xs) × ((m : Value) × In m (to_list xs) × Holds target m)
  unfolding targets_of mem
  targets_of-Holds (list xs) target ts h k =
      elim (target_loop-Holds (to_list xs) target [] ts h k) [
        | inl e ↦ absurd (cc)
        | inr x ↦ (xs, refl, x)
      ]
  targets_of-Holds v target ts h k = absurd (cc)

  targets_from-Recorded :
      (o : Option Value) (target : String) (ts : List String)
      → targets_from H o service ≡ ok ts
      → mem target ts ≡ true
      → (body : Value) × (xs : Items) × (m : Value) × (o ≡ some body)
        × (members_of H body ≡ list xs)
        × In m (to_list xs)
        × Holds target m
  unfolding targets_from
  targets_from-Recorded none target ts h k = absurd (cc)
  targets_from-Recorded (some body) target ts h k =
      let (xs, e, (m, i, x)) = targets_of-Holds (members_of H body) target ts h k in
      (body, xs, m, refl, e, i, x)

  -- A target that `granted_targets` returns is the folded repository of a member of the record that
  -- was read, which is not retired and whose grant for the service reads `granted`.
  pub granted_targets-Recorded :
      (target : String) (ts : List String)
      → granted_targets H service ≡ ok ts
      → mem target ts ≡ true
      → Recorded target
  unfolding granted_targets
  granted_targets-Recorded target ts h k = targets_from-Recorded H.members_body target ts h k
