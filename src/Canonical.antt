-- ===== src/Canonical.antt =====
-- src/intent_packages/canonical.py: the canonical text of a package (RFC 8785) and its hash.
-- Which of several unusable values an error names is not modelled.
pub mod Laws
use intent_packages.Prelude.{
  ℕ, zero, suc, length, not, ◌+◌, ◌-◌, ◌*◌, ◌/◌, ◌%◌, String, Bool, true, false, ◌&&◌, ◌||◌, Option,
  none, some, List, [], ◌∷◌, ◌++◌, codes, ltb, leb, eqb, if◌then◌else◌,
}
use intent_packages.Key.{Key, name, odd}
use intent_packages.Value.{
  Value, null, bool, int, str, list, dict, float, date, bytes, other, ℤ, pos, negsuc, Items, nil,
  cons, Entries, end, entry,
}
use intent_packages.Value.Dict.{remove}
use intent_packages.Outcome.{
  Outcome, ok, raised, canonical_error, value_error, raise_if, ◌>>=◌, ◌>>◌,
}
use intent_packages.Host.{Text, Host}

unfoldable pub intent_core : Entries → Entries
unfolding remove
intent_core pkg = remove "status" pkg

hex_digit : ℕ → ℕ
hex_digit d = if ltb d 10 then 48 + d else 87 + d

-- One character of a text, escaped.
unfoldable pub escape : ℕ → Text
unfolding hex_digit
escape c =
    if eqb c b'"'
    then 92 ∷ b'"' ∷ []
    else if eqb c 92
    then 92 ∷ 92 ∷ []
    else if eqb c 8
    then 92 ∷ b'b' ∷ []
    else if eqb c 12
    then 92 ∷ b'f' ∷ []
    else if eqb c 10
    then 92 ∷ b'n' ∷ []
    else if eqb c 13
    then 92 ∷ b'r' ∷ []
    else if eqb c 9
    then 92 ∷ b't' ∷ []
    else if ltb c 32
    then 92 ∷ b'u' ∷ b'0' ∷ b'0' ∷ hex_digit (c / 16) ∷ hex_digit (c % 16) ∷ []
    else c ∷ []

unfoldable pub escape_all : Text → Text
unfolding escape
escape_all [] = []
escape_all (c ∷ cs) = escape c ++ escape_all cs

unfoldable pub canon_str : String → Text
unfolding escape_all codes
canon_str s = b'"' ∷ (escape_all (codes s) ++ b'"' ∷ [])

-- `str(n)` of a natural number. The fuel `suc n` is enough, since each round divides by ten.
unfoldable pub digits : ℕ → ℕ → Text
digits zero n = []
digits (suc fuel) n =
    let more = digits fuel (n / 10) ++ (48 + n % 10) ∷ [] in
    if ltb n 10 then (48 + n) ∷ [] else more

unfoldable pub decimal : ℤ → Text
unfolding digits
decimal (pos n) = digits (suc n) n
decimal (negsuc n) = b'-' ∷ digits (suc (suc n)) (suc n)

digit_count : ℤ → ℕ
unfolding digits
digit_count (pos n) = length (digits (suc n) n)
digit_count (negsuc n) = length (digits (suc (suc n)) (suc n))

-- `str(n)` does not raise: Python writes no integer of more than 4300 digits.
unfoldable pub is_writable : ℤ → Bool
unfolding digit_count
is_writable n = leb (digit_count n) 4300

unfoldable pub canon_int : ℤ → Outcome Text
unfolding is_writable decimal
canon_int n =
    if is_writable n then ok (decimal n) else raised (value_error "integer of too many digits")

-- A text that holds a surrogate: `encode` raises.
unfoldable pub has_surrogate : Text → Bool
has_surrogate [] = false
has_surrogate (c ∷ cs) = (leb 55296 c && leb c 57343) || has_surrogate cs

-- The UTF-16 code units of a text: two for a character outside the basic plane.
unfoldable pub utf16 : Text → Text
utf16 [] = []
utf16 (c ∷ cs) =
    (if ltb c 65536
      then c ∷ []
      else (55296 + (c - 65536) / 1024) ∷ (56320 + (c - 65536) % 1024) ∷ [])
    ++ utf16 cs

unfoldable pub lex_le : Text → Text → Bool
lex_le [] bs = true
lex_le (a ∷ as') [] = false
lex_le (a ∷ as') (b ∷ bs) = ltb a b || (eqb a b && lex_le as' bs)

-- The order of the members of an object.
unfoldable pub key_le : String → String → Bool
unfolding lex_le utf16 codes
key_le j k = lex_le (utf16 (codes j)) (utf16 (codes k))

module _ {A : Type 0} where
  unfoldable pub insert_member : String × A → List (String × A) → List (String × A)
  unfolding key_le
  insert_member (k, t) [] = (k, t) ∷ []
  insert_member (k, t) ((j, u) ∷ ms) =
      if key_le k j then (k, t) ∷ (j, u) ∷ ms else (j, u) ∷ insert_member (k, t) ms

  unfoldable pub sort_members : List (String × A) → List (String × A)
  unfolding insert_member
  sort_members [] = []
  sort_members (m ∷ ms) = insert_member m (sort_members ms)

unfoldable pub join : List Text → Text
join [] = []
join (t ∷ []) = t
join (t ∷ u ∷ ts) = t ++ b',' ∷ join (u ∷ ts)

-- The members in the order that they stand in: the first value that has no text raises.
unfoldable pub member_texts : List (String × Outcome Text) → Outcome (List Text)
unfolding canon_str
member_texts [] = ok []
member_texts ((k, m) ∷ ms) =
    m >>= λ t. (member_texts ms >>= λ ts. ok ((canon_str k ++ b':' ∷ t) ∷ ts))

-- Every key is a text.
unfoldable pub text_keys : Entries → Bool
text_keys end = true
text_keys (entry (name k) v d) = text_keys d
text_keys (entry (odd n) v d) = false

-- Every key that is a text can be encoded.
unfoldable pub keys_encode : Entries → Bool
unfolding has_surrogate codes
keys_encode end = true
keys_encode (entry (name k) v d) = not (has_surrogate (codes k)) && keys_encode d
keys_encode (entry (odd n) v d) = keys_encode d

abbrev pub surround : ℕ → ℕ → Text → Text
surround a b t = a ∷ (t ++ b ∷ [])

-- `_canon`
unfoldable mutual
  unfolding canon_int canon_str join member_texts sort_members text_keys keys_encode

  pub canon : Value → Outcome Text
  canon null = ok (b'n' ∷ b'u' ∷ b'l' ∷ b'l' ∷ [])
  canon (bool true) = ok (b't' ∷ b'r' ∷ b'u' ∷ b'e' ∷ [])
  canon (bool false) = ok (b'f' ∷ b'a' ∷ b'l' ∷ b's' ∷ b'e' ∷ [])
  canon (int n) = canon_int n
  canon (str s) = ok (canon_str s)
  canon (list xs) = canon_items xs >>= λ ts. ok (surround b'[' b']' (join ts))
  canon (dict d) =
      raise_if (not (text_keys d)) (canonical_error "dict key is not a string")
      >> (raise_if (not (keys_encode d)) (value_error "surrogates not allowed")
          >> (member_texts (sort_members (canon_entries d)) >>= λ ts.
              ok (surround b'{' b'}' (join ts))))
  canon (float n) = raised (canonical_error "value not allowed in intent packages")
  canon (date n) = raised (canonical_error "value not allowed in intent packages")
  canon (bytes n) = raised (canonical_error "value not allowed in intent packages")
  canon (other h n) = raised (canonical_error "value not allowed in intent packages")

  pub canon_items : Items → Outcome (List Text)
  canon_items nil = ok []
  canon_items (cons v vs) = canon v >>= λ t. (canon_items vs >>= λ ts. ok (t ∷ ts))

  -- The members that have a text as their key, each with what `_canon` answers for its value.
  pub canon_entries : Entries → List (String × Outcome Text)
  canon_entries end = []
  canon_entries (entry (name k) v d) = (k, canon v) ∷ canon_entries d
  canon_entries (entry (odd n) v d) = canon_entries d

unfoldable pub jcs : Value → Outcome Text
unfolding canon
jcs v = canon v

module _ (H : Host) where
  -- The hash of a canonical text, which is encoded first.
  hash_text : Text → Outcome String
  unfolding has_surrogate
  hash_text t =
      if has_surrogate t then raised (value_error "surrogates not allowed") else ok (H.sha256 t)

  unfoldable pub package_hash : Entries → Outcome String
  unfolding jcs intent_core hash_text
  package_hash pkg = jcs (dict (intent_core pkg)) >>= hash_text
