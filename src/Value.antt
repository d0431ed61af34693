-- ===== src/Value.antt =====
-- The values that a YAML, TOML or JSON document loads to, as Python holds them, and what the
-- program asks of one: `isinstance`, `dict.get`, truth, hashing and `==`.

pub mod Dict
pub mod Equal
pub mod Access
use intent_packages.Key.{Key}
use intent_packages.Prelude.{
  ℕ, zero, suc, ◌+◌, ◌-◌, String, ◌≡◌, refl, Bool, true, false, not, ◌&&◌, ◌||◌, Option, none, some,
  List, [], ◌∷◌, arith, eqb, ltb, mem, ◌==◌, if◌then◌else◌,
}
use intent_packages.Outcome.{Outcome, ok, raised, type_error}

-- `negsuc n` is -(n + 1).
pub data ℤ : Type 0 where
  pos : ℕ → ℤ
  negsuc : ℕ → ℤ

-- A float, a date or a byte string is known by a number; 0 stands for the one that is false (0.0,
-- b""). `other` is a set or a tuple, hashable or not, which only an explicit YAML tag makes.
mutual
  pub data Value : Type 0 where
    null : Value
    bool : Bool → Value
    int : ℤ → Value
    str : String → Value
    list : Items → Value
    dict : Entries → Value
    float date bytes : ℕ → Value
    other : Bool → ℕ → Value

  pub data Items : Type 0 where
    nil : Items
    cons : Value → Items → Items

  pub data Entries : Type 0 where
    end : Entries
    entry : Key → Value → Entries → Entries

-- `list(xs)`
unfoldable pub to_list : Items → List Value
to_list nil = []
to_list (cons v vs) = v ∷ to_list vs

unfoldable pub of_list : List Value → Items
of_list [] = nil
of_list (v ∷ vs) = cons v (of_list vs)

pub to_list-of_list : (vs : List Value) → to_list (of_list vs) ≡ vs
unfolding to_list of_list
to_list-of_list [] = refl
to_list-of_list (v ∷ vs) = ap' (to_list-of_list vs)
  where
    ap' : {xs ys : List Value} → xs ≡ ys → v ∷ xs ≡ v ∷ ys
    ap' p = λ i. v ∷ p i

-- A list of texts, as a document holds it.
unfoldable pub strings : List String → Items
strings [] = nil
strings (s ∷ ss) = cons (str s) (strings ss)

-- `isinstance(v, str)`, `isinstance(v, dict)`, `isinstance(v, list)`
abbrev pub is_str : Value → Bool
is_str (str s) = true
is_str _ = false

abbrev pub is_dict : Value → Bool
is_dict (dict d) = true
is_dict _ = false

abbrev pub is_list : Value → Bool
is_list (list xs) = true
is_list _ = false

-- `isinstance(v, int) and not isinstance(v, bool)`
abbrev pub is_int : Value → Bool
is_int (int n) = true
is_int _ = false

abbrev pub is_bool : Value → Bool
is_bool (bool b) = true
is_bool _ = false

abbrev pub is_null : Value → Bool
is_null null = true
is_null _ = false

-- `bool(v)`
unfoldable pub truthy : Value → Bool
truthy null = false
truthy (bool b) = b
truthy (int (pos zero)) = false
truthy (int n) = true
truthy (str s) = not (s == "")
truthy (list nil) = false
truthy (list (cons v vs)) = true
truthy (dict end) = false
truthy (dict (entry k v d)) = true
truthy (float n) = not (eqb n 0)
truthy (date n) = true
truthy (bytes n) = not (eqb n 0)
truthy (other h n) = not (eqb n 0)

-- `hash(v)` answers.
abbrev pub is_hashable : Value → Bool
is_hashable (list xs) = false
is_hashable (dict d) = false
is_hashable (other h n) = h
is_hashable _ = true

-- `v in s` for a frozenset of texts: hashing comes first.
abbrev pub str_in : Value → List String → Bool
str_in (str s) xs = mem s xs
str_in _ xs = false

unfoldable pub in_set : Value → List String → Outcome Bool
in_set v xs = if is_hashable v then ok (str_in v xs) else raised type_error

-- `v == s` for a text.
abbrev pub is_text : Value → String → Bool
is_text (str t) s = t == s
is_text _ s = false

eq_ℤ : ℤ → ℤ → Bool
eq_ℤ (pos a) (pos b) = eqb a b
eq_ℤ (negsuc a) (negsuc b) = eqb a b
eq_ℤ _ _ = false

bool_int : Bool → ℤ
bool_int true = pos 1
bool_int false = pos 0

-- `v == w` of two scalars; `True == 1`. A float is taken to differ from every integer.
unfoldable pub scalar_eq : Value → Value → Bool
unfolding eq_ℤ bool_int
scalar_eq null null = true
scalar_eq (bool true) (bool b) = b
scalar_eq (bool false) (bool b) = not b
scalar_eq (bool b) (int n) = eq_ℤ (bool_int b) n
scalar_eq (int n) (bool b) = eq_ℤ n (bool_int b)
scalar_eq (int m) (int n) = eq_ℤ m n
scalar_eq (str s) (str t) = s == t
scalar_eq (float m) (float n) = eqb m n
scalar_eq (date m) (date n) = eqb m n
scalar_eq (bytes m) (bytes n) = eqb m n
scalar_eq (other g m) (other h n) = eqb m n
scalar_eq _ _ = false
