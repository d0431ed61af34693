-- ===== src/Value/Dict.antt =====
-- Python's dict with keys in insertion order. A loaded mapping has no key twice.
use intent_packages.Prelude.{
  String, ◌≡◌, Bool, true, false, ◌||◌, Option, none, some, List, [], ◌∷◌, arith, ◌==◌, eq_iff,
  if◌then◌else◌, Bool-cases, inl, inr,
}
use intent_packages.Outcome.{Outcome, ok, raised, key_error, type_error}
use intent_packages.Value.{Value, null, dict, Entries, end, entry}
use intent_packages.Key.{Key, name, odd}

abbrev pub is_key : String → Key → Bool
is_key k (name j) = k == j
is_key k (odd n) = false

-- `d.get(k)`, with `none` where the key is missing.
unfoldable pub lookup : String → Entries → Option Value
lookup k end = none
lookup k (entry j v d) = if is_key k j then some v else lookup k d

-- `d.get(k)`, with Python's `None` where the key is missing.
unfoldable pub get : Entries → String → Value
unfolding lookup
get d k = elim (lookup k d) [ none ↦ null | some v ↦ v ]

-- `k in d`
unfoldable pub has : String → Entries → Bool
has k end = false
has k (entry j v d) = is_key k j || has k d

-- `d[k]`
unfoldable pub item : Entries → String → Outcome Value
unfolding lookup
item d k = elim (lookup k d) [ none ↦ raised (key_error k) | some v ↦ ok v ]

-- `v[k]` for a value that may be no mapping.
unfoldable pub subscript : Value → String → Outcome Value
unfolding item
subscript (dict d) k = item d k
subscript _ k = raised type_error

-- `d[k] = v`
unfoldable pub put : String → Value → Entries → Entries
put k v end = entry (name k) v end
put k v (entry j w d) = if is_key k j then entry j v d else entry j w (put k v d)

-- `d.pop(k, None)`
unfoldable pub remove : String → Entries → Entries
remove k end = end
remove k (entry j v d) = let rest = remove k d in if is_key k j then rest else entry j v rest

unfoldable pub keys : Entries → List Key
keys end = []
keys (entry k v d) = k ∷ keys d

abbrev pub Pairs : Type 0
Pairs = List (Key × Value)

-- `d.items()`
unfoldable pub items : Entries → Pairs
items end = []
items (entry k v d) = (k, v) ∷ items d

-- `dict(pairs)` for texts as keys.
unfoldable pub of_pairs : List (String × Value) → Entries
of_pairs [] = end
of_pairs ((k, v) ∷ kvs) = entry (name k) v (of_pairs kvs)

pub lookup-put :
    (j k : String) (v : Value) (d : Entries)
    → lookup j (put k v d) ≡ (if k == j then some v else lookup j d)
unfolding lookup put
lookup-put j k v end = ground (arith, eq_iff j k, eq_iff k j)
lookup-put j k v (entry (odd n) w d) = lookup-put j k v d
lookup-put j k v (entry (name i) w d) =
    ground (arith, eq_iff j k, eq_iff k j, eq_iff k i, eq_iff j i, lookup-put j k v d)

pub lookup-remove :
    (j k : String) (d : Entries) → lookup j (remove k d) ≡ (if k == j then none else lookup j d)
unfolding lookup remove
lookup-remove j k end = ground arith
lookup-remove j k (entry (odd n) w d) = lookup-remove j k d
lookup-remove j k (entry (name i) w d) =
    ground (arith, eq_iff j k, eq_iff k j, eq_iff k i, eq_iff j i, lookup-remove j k d)

-- A write does not show once the key is dropped.
pub remove-put : (k : String) (v : Value) (d : Entries) → remove k (put k v d) ≡ remove k d
unfolding put remove
remove-put k v end = ground (arith, eq_iff k k)
remove-put k v (entry (odd n) w d) = ground (arith, remove-put k v d)
remove-put k v (entry (name i) w d) = ground (arith, eq_iff k i, remove-put k v d)

pub put-put : (k : String) (v w : Value) (d : Entries) → put k v (put k w d) ≡ put k v d
unfolding put
put-put k v w end = ground (arith, eq_iff k k)
put-put k v w (entry (odd n) x d) = ground (arith, put-put k v w d)
put-put k v w (entry (name i) x d) = ground (arith, eq_iff k i, put-put k v w d)

pub get-put_self : (k : String) (v : Value) (d : Entries) → get (put k v d) k ≡ v
unfolding get
get-put_self k v d = ground (arith, lookup-put k k v d, eq_iff k k)

pub get-put_ne :
    (j k : String) (v : Value) (d : Entries) → (k == j) ≡ false → get (put k v d) j ≡ get d j
unfolding get
get-put_ne j k v d h = ground (arith, lookup-put j k v d)

pub has-lookup : (k : String) (d : Entries) (v : Value) → lookup k d ≡ some v → has k d ≡ true
unfolding has lookup
has-lookup k end v h = cc
has-lookup k (entry j w d) v h = ground (arith, has-lookup k d v)

pub lookup-has : (k : String) (d : Entries) → has k d ≡ true → (v : Value) × (lookup k d ≡ some v)
unfolding has lookup
lookup-has k end h = cc
lookup-has k (entry (odd n) w d) h = lookup-has k d h
lookup-has k (entry (name j) w d) h = elim (Bool-cases (k == j)) [
  | inl e ↦ (w, ground (arith, e))
  | inr e ↦ let later = lookup-has k d (ground (arith, e)) in (later.0, ground (arith, e, later.1))
]
