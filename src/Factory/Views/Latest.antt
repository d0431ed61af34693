-- ===== src/Factory/Views/Latest.antt =====
-- Which event `latest_dispatched_payload` of src/intent_packages/factory/reads.py picks.
use intent_packages.Prelude.{
  ◌≡◌, refl, sym, ap, ◌∙◌, ◌⊎◌, inl, inr, Bool, true, false, List, [], ◌∷◌, All, In, first, later,
  Bool-cases, ◌==◌, if◌then◌else◌,
}
use intent_packages.Value.{Value, ℤ, negsuc, null}
use intent_packages.Outcome.{ok, >>=-ok, ok-inj}
use intent_packages.Factory.Session.{Backend}
use intent_packages.Factory.Views.{
  DispatchEvent, dispatch_events, ltℤ, attempt_of, latest_event, latest_dispatched,
}
use intent_packages.Factory.Views.Order.{◌≤ℤ◌, ≤ℤ_trans, ≤ℤ_refl, maxℤ, ≤ℤ_max_left, ≤ℤ_max_right}

true-ne-false : {b : Bool} → b ≡ true → b ≡ false → ⊥
true-ne-false h k = cc

-- A dispatch that took place has an ordinal of at most `m`.
abbrev pub IsWithin : Backend → ℤ → DispatchEvent → Type 0
IsWithin B m e =
    (e.status == "dispatched") ≡ true → (a : ℤ) × (attempt_of B e.payload ≡ ok a) × (a ≤ℤ m)

-- The payload is that of a dispatch that took place at the ordinal.
abbrev pub IsPayloadAt : Backend → ℤ → Value → List DispatchEvent → Type 0
IsPayloadAt B m p es =
    (e : DispatchEvent) × In e es
    × ((e.status == "dispatched") ≡ true)
    × (attempt_of B e.payload ≡ ok m)
    × (p ≡ e.payload)

module _ (B : Backend) where
  abbrev Picked : ℤ → Value → List DispatchEvent → Value → Type 0
  Picked best payload es p =
      (m : ℤ) × (best ≤ℤ m)
      × All (IsWithin B m) es
      × (((m ≡ best) × (p ≡ payload)) ⊎ IsPayloadAt B m p es)

  Picked-skip :
      (best : ℤ) (payload p : Value) (e : DispatchEvent) (es : List DispatchEvent)
      → (e.status == "dispatched") ≡ false
      → Picked best payload es p
      → Picked best payload (e ∷ es) p
  Picked-skip best payload p e es n (m, up, all, inl q) =
      (m, up, (λ d. absurd (true-ne-false d n), all), inl q)
  Picked-skip best payload p e es n (m, up, all, inr (f, i, x, y, z)) =
      (m, up, (λ d. absurd (true-ne-false d n), all), inr (f, later i, x, y, z))

  Picked-take :
      (best a : ℤ) (payload p : Value) (e : DispatchEvent) (es : List DispatchEvent)
      → (e.status == "dispatched") ≡ true
      → attempt_of B e.payload ≡ ok a
      → Picked (maxℤ best a) (if ltℤ best a then e.payload else payload) es p
      → Picked best payload (e ∷ es) p
  Picked-take best a payload p e es d t (m, up, all, inr (f, i, x, y, z)) = (
    m,
    ≤ℤ_trans best (maxℤ best a) m (≤ℤ_max_left best a) up,
    (λ _. (a, t, ≤ℤ_trans a (maxℤ best a) m (≤ℤ_max_right best a) up), all),
    inr (f, later i, x, y, z),
  )
  Picked-take best a payload p e es d t (m, up, all, inl (q, r)) = (
    m,
    ≤ℤ_trans best (maxℤ best a) m (≤ℤ_max_left best a) up,
    (λ _. (a, t, ≤ℤ_trans a (maxℤ best a) m (≤ℤ_max_right best a) up), all),
    elim (Bool-cases (ltℤ best a)) [
      | inl l ↦ inr (e, first, d, t ∙ ap ok (sym (q ∙ rw l refl)), r ∙ rw l refl)
      | inr l ↦ inl (q ∙ rw l refl, r ∙ rw l refl)
    ],
  )

  latest_event-Picked :
      (best : ℤ) (payload : Value) (es : List DispatchEvent) (p : Value)
      → latest_event B best payload es ≡ ok p
      → Picked best payload es p
  unfolding latest_event
  latest_event-Picked best payload [] p h = (best, ≤ℤ_refl best, tt, inl (refl, sym (ok-inj h)))
  latest_event-Picked best payload (e ∷ es) p h0 = elim (Bool-cases (e.status == "dispatched")) [
    | inl d ↦
        let (a, t, h1) = >>=-ok (attempt_of B e.payload) _ (rw (d, latest_event) at h0) in
        Picked-take best a payload p e es d t
          (latest_event-Picked (maxℤ best a) (if ltℤ best a then e.payload else payload) es p h1)
    | inr n ↦
        Picked-skip best payload p e es n
          (latest_event-Picked best payload es p (rw (n, latest_event) at h0))
  ]

  -- A search for the latest dispatch that answers has found the payload of a dispatch of the
  -- history that took place, at an ordinal that no other such dispatch exceeds; or it found none,
  -- and no such dispatch has an ordinal above -1.
  pub latest_dispatched-latest :
      (rows : List Value) (p : Value)
      → latest_dispatched B rows ≡ ok p
      → (es : List DispatchEvent) × (m : ℤ) × (dispatch_events rows ≡ ok es)
        × All (IsWithin B m) es
        × (((m ≡ negsuc 0) × (p ≡ null)) ⊎ IsPayloadAt B m p es)
  unfolding latest_dispatched
  latest_dispatched-latest rows p h0 =
      let (es, e, h1) = >>=-ok (dispatch_events rows) _ h0 in
      let (m, _, all, found) = latest_event-Picked (negsuc 0) null es p h1 in (es, m, e, all, found)
