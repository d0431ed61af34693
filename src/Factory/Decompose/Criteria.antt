-- ===== src/Factory/Decompose/Criteria.antt =====
-- What `build_proposal` of src/intent_packages/factory/decompose.py does with the criteria of an
-- intake: one is mapped to the unit, each of the others is retained.
use mathlib.Core.List.{Perm}
use mathlib.Core.List.Perm
use intent_packages.Prelude.{
  String, ◌≡◌, ◌≢◌, refl, ap, ◌∙◌, inl, inr, Bool, true, false, not, Option, List, [], ◌∷◌,
  Bool-cases, eq_iff, arith,
}
use intent_packages.Value.{Value, str, Entries, is_text, is_hashable, scalar_eq}
use intent_packages.Value.Dict.{get, subscript}
use intent_packages.Outcome.{ok, >>=-ok, ok-inj, raise_if, type_error}
use intent_packages.Profiles.Dependency.Pins.{Checkout, PinSite}
use intent_packages.Outcome.Report.{Issues}
use intent_packages.Profiles.Dependency.{unsafe_field_errors}
use intent_packages.Profiles.Dependency.Commands.{
  Bump, coding_note, tooling_named, mutation_commands, verifier_commands,
}
use intent_packages.Profiles.Dependency.Envelope.{
  Commands, envelope_commands, known_tooling, refuse_unsafe, some_mutation,
}
use intent_packages.Factory.Decompose.Proposal.{
  Uuids, put_uuid, add_criteria, criteria_of, criteria_uuid_map, uuid_of, others, idempotency_key,
  Proposal, Ask, build_proposal,
}

-- The uuids of a map.
abbrev pub uuids_in : Uuids → List Value
uuids_in [] = []
uuids_in ((k, v) ∷ rest) = v ∷ uuids_in rest

-- No entry has this text as its key.
abbrev Lacks : String → Uuids → Type 0
Lacks ac [] = Unit
Lacks ac ((k, v) ∷ rest) = (is_text k ac ≡ false) × Lacks ac rest

-- At most one has.
abbrev Once : String → Uuids → Type 0
Once ac [] = Unit
Once ac ((k, v) ∷ rest) = (is_text k ac ≡ true → Lacks ac rest) × Once ac rest

same_text_key :
    (j k : Value) (ac : String) → is_text j ac ≡ true → is_text k ac ≡ true → scalar_eq j k ≡ true
unfolding scalar_eq
same_text_key (str s) (str t) ac h g = ground (arith, eq_iff s ac, eq_iff t ac, eq_iff s t)
same_text_key (str s) k ac h g = absurd (ground arith)
same_text_key j k ac h g = absurd (ground arith)

Lacks-put :
    (ac : String) (k v : Value) (uuids : Uuids)
    → is_text k ac ≡ false
    → Lacks ac uuids
    → Lacks ac (put_uuid k v uuids)
unfolding put_uuid
Lacks-put ac k v [] n h = (n, tt)
Lacks-put ac k v ((j, w) ∷ rest) n h = elim (Bool-cases (scalar_eq j k)) [
  | inl e ↦ rw e h
  | inr e ↦ rw e (h.0, Lacks-put ac k v rest n h.1)
]

Once-put :
    (ac : String) (k v : Value) (uuids : Uuids) → Once ac uuids → Once ac (put_uuid k v uuids)
unfolding put_uuid
Once-put ac k v [] h = (λ _. tt, tt)
Once-put ac k v ((j, w) ∷ rest) h = elim (Bool-cases (scalar_eq j k)) [
  | inl e ↦ rw e h
  | inr e ↦ rw e (
    λ t. elim (Bool-cases (is_text k ac)) [
      | inl u ↦ absurd (differ (same_text_key j k ac t u) e)
      | inr n ↦ Lacks-put ac k v rest n (h.0 t)
    ],
    Once-put ac k v rest h.1,
  )
]
  where
    differ : {b : Bool} → b ≡ true → b ≡ false → ⊥
    differ p q = cc

add_criteria-Once :
    (ac : String) (cs : List Value) (uuids more : Uuids)
    → Once ac uuids
    → add_criteria cs uuids ≡ ok more
    → Once ac more
unfolding add_criteria
add_criteria-Once ac [] uuids more h e = rw (← (ok-inj e)) h
add_criteria-Once ac (c ∷ cs) uuids more h e =
    let (k, _, e1) = >>=-ok (subscript c "ac_id") _ e in
    let (v, _, e2) = >>=-ok (subscript c "id") _ e1 in
    let (_, _, e3) = >>=-ok (raise_if (not (is_hashable k)) type_error) _ e2 in
    add_criteria-Once ac cs (put_uuid k v uuids) more (Once-put ac k v uuids h) e3

others-Lacks : (ac : String) (uuids : Uuids) → Lacks ac uuids → others ac uuids ≡ uuids_in uuids
unfolding others
others-Lacks ac [] h = refl
others-Lacks ac ((k, v) ∷ rest) h = rw h.0 (ap (λ vs. v ∷ vs) (others-Lacks ac rest h.1))

-- The uuid of the criterion, and those of the others, are all the uuids.
uuid_of-perm :
    (ac : String) (uuids : Uuids) (v : Value)
    → Once ac uuids
    → uuid_of ac uuids ≡ ok v
    → Perm (v ∷ others ac uuids) (uuids_in uuids)
unfolding uuid_of others
uuid_of-perm ac [] v h e = absurd (cc e)
uuid_of-perm ac ((k, w) ∷ rest) v h e = elim (Bool-cases (is_text k ac)) [
  | inl t ↦
      let same : w ≡ v = ok-inj (rw (t, uuid_of) at e) in
      rw (t, others-Lacks ac rest (h.0 t), same) (Perm.refl (v ∷ uuids_in rest))
  | inr n ↦
      let later : uuid_of ac rest ≡ ok v = rw (n, uuid_of) at e in
      rw n (
        Perm.trans (Perm.swap w v (others ac rest))
          (Perm.cons w (uuid_of-perm ac rest v h.1 later)))
]

criteria_uuid_map-Once :
    (ac : String) (intake : Entries) (uuids : Uuids)
    → criteria_uuid_map intake ≡ ok uuids
    → Once ac uuids
unfolding criteria_uuid_map
criteria_uuid_map-Once ac intake uuids h =
    let (cs, _, h1) = >>=-ok (criteria_of (get intake "acceptance_criteria")) _ h in
    add_criteria-Once ac cs [] uuids tt h1

nothing-unsafe : (es : Issues) → refuse_unsafe es ≡ ok tt → es ≡ []
unfolding refuse_unsafe
nothing-unsafe [] h = refl
nothing-unsafe (e ∷ es) h = absurd (cc h)

some-mutation : (found cs : List String) → some_mutation found ≡ ok cs → cs ≢ []
unfolding some_mutation
some-mutation [] cs h e = cc h
some-mutation (c ∷ found) cs h e = cc (ok-inj h ∙ e)

-- The check of the fields of an envelope found nothing, and some of its commands change the checkout.
envelope_commands-safe :
    (repo : Checkout) (tooling : String) (b : Bump) (sites : List PinSite) (c : Commands)
    → envelope_commands repo tooling b sites ≡ ok c
    → (unsafe_field_errors (str b.pkg) (str b.old) (str b.new) ≡ []) × (c.mutations ≢ [])
unfolding envelope_commands
envelope_commands-safe repo tooling b sites c h =
    let (t, _, h1) = >>=-ok (known_tooling (tooling_named tooling)) _ h in
    let (_, u, h2) =
      >>=-ok (refuse_unsafe (unsafe_field_errors (str b.pkg) (str b.old) (str b.new))) _ h1 in
    let (found, _, h3) = >>=-ok (mutation_commands t repo b sites) _ h2 in
    let (mutations, m, h4) = >>=-ok (some_mutation found) _ h3 in
    let (verifiers, _, h5) = >>=-ok (verifier_commands t repo b sites) _ h4 in
    (nothing-unsafe _ u, rw (← (ok-inj h5)) (some-mutation found mutations m))

-- A proposal that was built maps one criterion, the one that was asked for, and retains each of the
-- others: together they are the criteria of the intake, each once. Its commands are those of the
-- envelope for the bump and its pin sites, the check of the name and of the versions of the bump
-- finds nothing, and at least one of the commands changes the checkout.
pub build_proposal-whole :
    (a : Ask) (unit_key : String) (intake conformance : Entries) (sites : List PinSite)
    (repo : Checkout) (enrichment : Option Entries) (p : Proposal)
    → build_proposal a unit_key intake conformance sites repo enrichment ≡ ok p
    → (uuids : Uuids) × (criteria_uuid_map intake ≡ ok uuids)
      × (uuid_of a.ac uuids ≡ ok p.mapped)
      × Perm (p.mapped ∷ p.retained) (uuids_in uuids)
      × (envelope_commands repo a.tooling a.bump sites ≡ ok p.commands)
      × (unsafe_field_errors (str a.bump.pkg) (str a.bump.old) (str a.bump.new) ≡ [])
      × (p.commands.mutations ≢ [])
unfolding build_proposal
build_proposal-whole a unit_key intake conformance sites repo enrichment p h =
    let (uuids, u, h1) = >>=-ok (criteria_uuid_map intake) _ h in
    let (mapped, m, h2) = >>=-ok (uuid_of a.ac uuids) _ h1 in
    let (commands, c, h3) = >>=-ok (envelope_commands repo a.tooling a.bump sites) _ h2 in
    let (key, _, h4) = >>=-ok (idempotency_key intake a.bump) _ h3 in
    let (noted, _, h5) = >>=-ok (coding_note repo a.tooling) _ h4 in
    let (safe, some_change) = envelope_commands-safe repo a.tooling a.bump sites commands c in
    rw (← (ok-inj h5)) (
      uuids,
      u,
      m,
      uuid_of-perm a.ac uuids mapped (criteria_uuid_map-Once a.ac intake uuids u) m,
      c,
      safe,
      some_change,
    )
