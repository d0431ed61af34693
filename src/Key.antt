-- ===== src/Key.antt =====
-- The key of a mapping: a text, or another hashable value by a number of its own.
use intent_packages.Prelude.{ℕ, String}

pub data Key : Type 0 where
  name : String → Key
  odd : ℕ → Key
