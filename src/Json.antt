-- ===== src/Json.antt =====
-- What src/intent_packages/destination_format.py asks of Python's `json`: reading a text in quotes,
-- and writing one. Writing escapes as `canon_str` does.
pub mod Laws
use intent_packages.Prelude.{
  ℕ, zero, suc, ◌+◌, ◌-◌, ◌*◌, Bool, true, false, ◌&&◌, ◌||◌, Option, none, some, List, [], ◌∷◌,
  ◌++◌, eqb, leb, ltb, if◌then◌else◌,
}
use intent_packages.Host.{Text}

pub data Mode : Type 0 where
  plain : Mode
  escaped : Mode
  -- Digits still to come, and the value so far.
  hex : ℕ → ℕ → Mode

pub data Step : Type 0 where
  closed : Step
  refused : Step
  more : Mode → Text → Step

unfoldable pub hex_value : ℕ → Option ℕ
hex_value c =
    if leb 48 c && leb c 57
    then some (c - 48)
    else if leb 97 c && leb c 102
    then some (c - 87)
    else if leb 65 c && leb c 70
    then some (c - 55)
    else none

unfoldable pub hex_step : ℕ → ℕ → Option ℕ → Step
hex_step left v none = refused
hex_step zero v (some d) = more plain ((v * 16 + d) ∷ [])
hex_step (suc left) v (some d) = more (hex left (v * 16 + d)) []

-- The character after a backslash.
unfoldable pub escaped_step : ℕ → Step
escaped_step c =
    if eqb c b'"' || (eqb c 92 || eqb c b'/')
    then more plain (c ∷ [])
    else if eqb c b'b'
    then more plain (8 ∷ [])
    else if eqb c b'f'
    then more plain (12 ∷ [])
    else if eqb c b'n'
    then more plain (10 ∷ [])
    else if eqb c b'r'
    then more plain (13 ∷ [])
    else if eqb c b't'
    then more plain (9 ∷ [])
    else if eqb c b'u'
    then more (hex 3 0) []
    else refused

unfoldable pub plain_step : ℕ → Step
plain_step c =
    if eqb c b'"'
    then closed
    else if eqb c 92
    then more escaped []
    else if ltb c 32
    then refused
    else more plain (c ∷ [])

unfoldable pub step : Mode → ℕ → Step
unfolding plain_step escaped_step hex_step hex_value
step plain c = plain_step c
step escaped c = escaped_step c
step (hex left v) c = hex_step left v (hex_value c)

-- The text up to the closing quote and what follows it; `none` where there is none.
unfoldable pub scan_string : Mode → Text → Text → Option (Text × Text)
unfolding step
scan_string m [] acc = none
scan_string m (c ∷ cs) acc = elim (step m c) [
  | closed ↦ some (acc, cs)
  | refused ↦ none
  | more m' out ↦ scan_string m' cs (acc ++ out)
]
