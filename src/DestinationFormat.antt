-- ===== src/DestinationFormat.antt =====
-- src/intent_packages/destination_format.py: the one spelling of a rotation destination. Which of
-- the readings of a JSON value that is neither a text nor a truth value is refused, and a pair of
-- \u surrogate escapes, are not told apart: either is refused.
pub mod Laws
use intent_packages.Prelude.{
  ℕ, String, Bool, true, false, not, ◌&&◌, ◌||◌, Option, none, some, List, [], ◌∷◌, ◌++◌, ◌==◌,
  codes, eqb, if◌then◌else◌, is_space, all_space, same_text, strip_prefix, mem,
}
use intent_packages.Host.{Text, Host}
use intent_packages.Canonical.{escape_all}
use intent_packages.Json.{plain, scan_string}

abbrev pub identity_fields : List (String × List String)
identity_fields =
    ("provider", "name" ∷ [])
    ∷ ("bws-secret", "uuid" ∷ [])
    ∷ ("coolify-env", "instance" ∷ "resource_type" ∷ "uuid" ∷ "key" ∷ "redeploy" ∷ [])
    ∷ ("coolify-env-hash", "instance" ∷ "resource_type" ∷ "uuid" ∷ "key" ∷ "entry" ∷ [])
    ∷ ("coolify-env-held", "instance" ∷ "resource_type" ∷ "uuid" ∷ "key" ∷ [])
    ∷ ("gh-actions-secret", "repo" ∷ "name" ∷ [])
    ∷ ("keychain", "service" ∷ "account" ∷ [])
    ∷ ("runtime-fetch", "repo" ∷ "ref" ∷ [])
    ∷ ("shell-export", "file" ∷ "var" ∷ [])
    ∷ []

abbrev pub boolean_fields : List String
boolean_fields = "redeploy" ∷ []

-- A value read from the text.
pub data Held : Type 0 where
  held : Text → Held
  truth : Bool → Held

-- `destination.partition(" ")`: the first word, and what follows the space.
unfoldable pub first_word : Text → Text
first_word [] = []
first_word (c ∷ cs) = if eqb c 32 then [] else c ∷ first_word cs

unfoldable pub after_word : Text → Text
after_word [] = []
after_word (c ∷ cs) = let more = after_word cs in if eqb c 32 then cs else more

unfoldable pub fields_of : Text → List (String × List String) → Option (List String)
unfolding same_text codes
fields_of kind [] = none
fields_of kind ((k, fs) ∷ rest) = if same_text kind (codes k) then some fs else fields_of kind rest

read_literal : Text → Option (Held × Text)
unfolding strip_prefix codes
read_literal cs = elim (strip_prefix (codes "true") cs) [
  | some rest ↦ some (truth true, rest)
  | none ↦ elim (strip_prefix (codes "false") cs) [
    | some rest ↦ some (truth false, rest)
    | none ↦ none
  ]
]

as_held : Option (Text × Text) → Option (Held × Text)
as_held none = none
as_held (some (s, rest)) = some (held s, rest)

-- `decoder.raw_decode`, for the values that any field may hold.
unfoldable pub read_value : Text → Option (Held × Text)
unfolding read_literal as_held scan_string
read_value [] = none
read_value (c ∷ cs) =
    if eqb c b'"' then as_held (scan_string plain cs []) else read_literal (c ∷ cs)

last_space : Text → Bool
unfolding is_space
last_space [] = false
last_space (c ∷ []) = is_space c
last_space (c ∷ d ∷ cs) = last_space (d ∷ cs)

first_space : Text → Bool
unfolding is_space
first_space [] = false
first_space (c ∷ cs) = is_space c

-- `value.strip() and value == value.strip()`
unfoldable pub is_trimmed : Text → Bool
unfolding all_space first_space last_space
is_trimmed s = not (all_space s) && (not (first_space s) && not (last_space s))

module _ (H : Host) where
  -- `_value_error`
  unfoldable pub value_error : String → Held → Option String
  unfolding is_trimmed mem
  value_error n (truth b) =
      if mem n boolean_fields then none else some "must be a non-blank, trimmed string"
  value_error n (held s) =
      if mem n boolean_fields
      then some "must be true or false"
      else if is_trimmed s
      then if H.is_nfc s then none else some "must be NFC-normalised"
      else some "must be a non-blank, trimmed string"

-- `json.dumps(v, ensure_ascii=False)`
unfoldable pub dump_value : Held → Text
unfolding escape_all codes
dump_value (held s) = b'"' ∷ (escape_all s ++ b'"' ∷ [])
dump_value (truth true) = codes "true"
dump_value (truth false) = codes "false"

unfoldable pub render_field : String → Held → Text
unfolding dump_value codes
render_field n v = codes n ++ b'=' ∷ dump_value v

-- `position += rest.startswith(" ", position)`
unfoldable pub skip_space : Text → Text
skip_space [] = []
skip_space (c ∷ cs) = if eqb c 32 then cs else c ∷ cs

-- What the loop over the fields comes to: a refusal, or the fields rendered anew.
pub data Read : Type 0 where
  bad : String → Read
  good : Text → Read

abbrev prepend : Text → Read → Read
prepend t (bad e) = bad e
prepend t (good u) = good (b' ' ∷ (t ++ u))

abbrev unless_refused : Option String → Read → Read
unless_refused none r = r
unless_refused (some e) r = bad e

module _ (H : Host) where
  unfoldable pub read_fields : List String → Text → Read
  unfolding strip_prefix read_value value_error render_field skip_space codes
  read_fields [] rest = good []
  read_fields (n ∷ ns) rest = elim (strip_prefix (codes n ++ b'=' ∷ []) rest) [
    | none ↦ bad "needs another field next"
    | some after ↦ elim (read_value after) [
      | none ↦ bad "is not a JSON value"
      | some (v, more) ↦
          unless_refused (value_error H n v)
            (prepend (render_field n v) (read_fields ns (skip_space more)))
    ]
  ]

  unfoldable pub compare_rendered : Text → Text → Read → Option String
  unfolding same_text
  compare_rendered kind destination (bad e) = some e
  compare_rendered kind destination (good t) =
      if same_text (kind ++ t) destination then none else some "not in canonical form"

  unfoldable pub by_kind : Option (List String) → Text → Option String
  unfolding first_word after_word compare_rendered read_fields
  by_kind none destination = some "unknown consumer kind"
  by_kind (some fs) destination =
      compare_rendered (first_word destination) destination
        (read_fields fs (after_word destination))

  unfoldable pub destination_error : Text → Option String
  unfolding by_kind fields_of first_word
  destination_error destination =
      by_kind (fields_of (first_word destination) identity_fields) destination
