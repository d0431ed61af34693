-- ===== src/Factory/Verify/Writes.antt =====
-- The reads of the verb `verify` of src/intent_packages/factory/verify.py, and the row that a pull
-- request was armed by.
use intent_packages.Prelude.{
  ◌≡◌, refl, ap, ◌∙◌, inl, inr, Bool, true, false, not, ◌&&◌, ◌||◌, Option, none, some, Bool-cases,
  &&-true, if◌then◌else◌, arith,
}
use intent_packages.Value.{Value, dict, Entries, is_null, truthy, in_set}
use intent_packages.Value.Dict.{get}
use intent_packages.Value.Equal.{value_eq}
use intent_packages.Value.Access.{field_of}
use intent_packages.Outcome.{Outcome, ok, >>=-ok, ok-inj}
use intent_packages.Factory.Session.{Backend, lift, resume}
use intent_packages.Factory.Api.Quiet.{Quiet, Quiet-bind}
use intent_packages.Factory.Reads.{in_flight_snapshot, latest_dispatched_payload}
use intent_packages.Factory.Reads.Laws.{Quiet-in_flight_snapshot, Quiet-latest_dispatched_payload}
use intent_packages.Factory.Verify.Binding.{
  verifiable_states, Dispatched, Armed, dispatched_in, armed_in,
}
use intent_packages.Factory.Verify.{Claim, refuse, bound, bind_to_row, derive_payload}

module _ (B : Backend) where
  Quiet-bound : (d : Dispatched) (c : Claim) (o : Option Armed) → Quiet (bound B d c o)
  unfolding bound refuse resume
  Quiet-bound d c none = λ s. refl
  Quiet-bound d c (some a) = λ s. refl

  Quiet-bind_to_row :
      (unit_id : Value) (c : Claim) (o : Option Dispatched) → Quiet (bind_to_row B unit_id c o)
  unfolding bind_to_row refuse resume
  Quiet-bind_to_row unit_id c none = λ s. refl
  Quiet-bind_to_row unit_id c (some d) =
      Quiet-bind (in_flight_snapshot B unit_id) _ (Quiet-in_flight_snapshot B unit_id) λ snapshot.
        Quiet-bind (lift (armed_in snapshot)) (bound B d c) (λ s. refl) (Quiet-bound d c)

  pub Quiet-derive_payload : (unit_id : Value) (c : Claim) → Quiet (derive_payload B unit_id c)
  unfolding derive_payload
  Quiet-derive_payload unit_id c =
      Quiet-bind (latest_dispatched_payload B unit_id) _ (Quiet-latest_dispatched_payload B unit_id)
        λ payload.
          Quiet-bind (lift (dispatched_in payload)) (bind_to_row B unit_id c) (λ s. refl)
            (Quiet-bind_to_row unit_id c)

-- The row has a pull request, is in a state that accepts evidence, and its head is the armed one.
abbrev pub IsArmed : Value → Armed → Type 0
IsArmed snapshot a =
    (d : Entries) × (snapshot ≡ dict d)
    × (is_null (get d "pr_number") ≡ false)
    × (truthy (get d "verification_read_head_sha") ≡ true)
    × (in_set (get d "state") verifiable_states ≡ ok true)
    × (value_eq (get d "head_sha") (get d "verification_read_head_sha") ≡ true)
    × (a ≡ record {
      work_package_revision_id = get d "work_package_revision_id";
      pr_number = get d "pr_number";
      head_sha = get d "verification_read_head_sha";
      version = get d "version";
    })

if-some {ℓ} :
    {A : Type ℓ} (b : Bool) (x a : A)
    → ◌≡◌ {A = Outcome (Option A)} (ok (if b then some x else none)) (ok (some a))
    → (b ≡ true) × (a ≡ x)
if-some true x a h = (refl, cc (ok-inj h))
if-some false x a h = absurd (cc h)

neither : (p q : Bool) → (p || not q) ≡ false → (p ≡ false) × (q ≡ true)
neither p q h = ground arith

armed_row : (d : Entries) (a : Armed) → armed_in (dict d) ≡ ok (some a) → IsArmed (dict d) a
unfolding armed_in field_of
armed_row d a h =
    elim (Bool-cases
      (is_null (get d "pr_number") || not (truthy (get d "verification_read_head_sha")))) [
        | inl e ↦ absurd (cc (rw e at h))
        | inr e ↦
            let (v, s, h1) = >>=-ok (in_set (get d "state") verifiable_states) _ (rw e at h) in
            let (b, x) =
              if-some (v && value_eq (get d "head_sha") (get d "verification_read_head_sha")) _ a
                h1 in
            let (r, q) = &&-true v _ b in
            let (n, t) = neither _ _ e in (d, refl, n, t, s ∙ ap ok r, q, x)
      ]

pub armed_in-IsArmed :
    (snapshot : Value) (a : Armed) → armed_in snapshot ≡ ok (some a) → IsArmed snapshot a
unfolding armed_in field_of
armed_in-IsArmed (dict d) a h = armed_row d a h
armed_in-IsArmed Value.null a h = absurd (cc h)
armed_in-IsArmed v a h = absurd (cc h)
