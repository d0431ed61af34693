-- ===== src/Factory/Views/Order.antt =====
-- The order of dispatch ordinals, which a history may give as any integers.
use intent_packages.Prelude.{◌≡◌, refl, inl, inr, true, false, arith, Bool-cases, if◌then◌else◌}
use intent_packages.Value.{ℤ, pos, negsuc}
use intent_packages.Factory.Views.{ltℤ}

-- `a` is no higher than `b`.
infix 50 ◌≤ℤ◌
abbrev pub ◌≤ℤ◌ : ℤ → ℤ → Type 0
a ≤ℤ b = ltℤ b a ≡ false

pub ≤ℤ_trans : (a b c : ℤ) → a ≤ℤ b → b ≤ℤ c → a ≤ℤ c
unfolding ltℤ
≤ℤ_trans (pos a) (pos b) (pos c) h k = ground arith
≤ℤ_trans (pos a) (pos b) (negsuc c) h k = absurd (cc)
≤ℤ_trans (pos a) (negsuc b) c h k = absurd (cc)
≤ℤ_trans (negsuc a) (pos b) (pos c) h k = refl
≤ℤ_trans (negsuc a) (pos b) (negsuc c) h k = absurd (cc)
≤ℤ_trans (negsuc a) (negsuc b) (pos c) h k = refl
≤ℤ_trans (negsuc a) (negsuc b) (negsuc c) h k = ground arith

pub ≤ℤ_refl : (a : ℤ) → a ≤ℤ a
unfolding ltℤ
≤ℤ_refl (pos a) = ground arith
≤ℤ_refl (negsuc a) = ground arith

ltℤ_asym : (a b : ℤ) → ltℤ a b ≡ true → a ≤ℤ b
unfolding ltℤ
ltℤ_asym (pos a) (pos b) h = ground arith
ltℤ_asym (pos a) (negsuc b) h = absurd (cc)
ltℤ_asym (negsuc a) (pos b) h = refl
ltℤ_asym (negsuc a) (negsuc b) h = ground arith

abbrev pub maxℤ : ℤ → ℤ → ℤ
maxℤ a b = if ltℤ a b then b else a

pub ≤ℤ_max_left : (a b : ℤ) → a ≤ℤ maxℤ a b
≤ℤ_max_left a b = elim (Bool-cases (ltℤ a b)) [
  | inl e ↦ rw e (ltℤ_asym a b e)
  | inr e ↦ rw e (≤ℤ_refl a)
]

pub ≤ℤ_max_right : (a b : ℤ) → b ≤ℤ maxℤ a b
≤ℤ_max_right a b = elim (Bool-cases (ltℤ a b)) [ inl e ↦ rw e (≤ℤ_refl b) | inr e ↦ rw e e ]
