-- ===== src/Value/Equal.antt =====
-- Python's `==` on two loaded values, lists in order and mappings by key.
use intent_packages.Prelude.{ℕ, suc, Bool, true, false, ◌&&◌, Option, none, some, eqb, ◌==◌}
use intent_packages.Key.{Key, name, odd}
use intent_packages.Value.{Value, list, dict, Items, nil, cons, Entries, end, entry, scalar_eq}

same_key : Key → Key → Bool
same_key (name j) (name k) = j == k
same_key (odd m) (odd n) = eqb m n
same_key _ _ = false

unfoldable pub find_key : Key → Entries → Option Value
unfolding same_key
find_key k end = none
find_key k (entry j v d) = elim (same_key k j) [ true ↦ some v | false ↦ find_key k d ]

unfoldable pub size : Entries → ℕ
size end = 0
size (entry k v d) = suc (size d)

abbrev holds : (Value → Bool) → Option Value → Bool
holds p none = false
holds p (some v) = p v

unfoldable mutual
  unfolding scalar_eq size find_key

  pub value_eq : Value → Value → Bool
  value_eq (list xs) (list ys) = items_eq xs ys
  value_eq (dict d) (dict e) = eqb (size d) (size e) && entries_in d e
  value_eq (list xs) w = false
  value_eq (dict d) w = false
  value_eq v w = scalar_eq v w

  items_eq : Items → Items → Bool
  items_eq nil nil = true
  items_eq (cons v vs) (cons w ws) = value_eq v w && items_eq vs ws
  items_eq vs ws = false

  entries_in : Entries → Entries → Bool
  entries_in end e = true
  entries_in (entry k v d) e = holds (λ w. value_eq v w) (find_key k e) && entries_in d e
