-- ===== src/Validate/Formats.antt =====
-- The patterns of src/intent_packages/validate.py, and check `_check_scalar_formats`.
use intent_packages.Prelude.{
  ℕ, String, Bool, true, false, not, ◌&&◌, ◌||◌, Option, none, some, List, [], ◌∷◌, ◌++◌, codes,
  eqb, leb, if◌then◌else◌, strip_prefix,
}
use intent_packages.Value.{Value, str, dict, Entries}
use intent_packages.Value.Dict.{get}
use intent_packages.Outcome.Report.{in_top, at, Issues, one_if}
use intent_packages.Host.{Text, Host}
use intent_packages.Registry.{registry_dir, is_registered_agent}

is_ascii_digit : ℕ → Bool
is_ascii_digit c = leb 48 c && leb c 57

-- Digits to the end, or to one newline at the end, where `$` matches too.
digits_to_end : Text → Bool
unfolding is_ascii_digit
digits_to_end [] = true
digits_to_end (c ∷ []) = is_ascii_digit c || eqb c 10
digits_to_end (c ∷ d ∷ cs) = is_ascii_digit c && digits_to_end (d ∷ cs)

three_digits : Text → Bool
unfolding digits_to_end is_ascii_digit
three_digits (a ∷ b ∷ c ∷ cs) =
    (is_ascii_digit a && (is_ascii_digit b && is_ascii_digit c)) && digits_to_end cs
three_digits _ = false

after_prefix : Option Text → Bool
unfolding three_digits
after_prefix none = false
after_prefix (some rest) = three_digits rest

-- `ACCEPTANCE_ID_RE.match`: ^AC-[0-9]{3,}$
unfoldable pub is_acceptance_id : String → Bool
unfolding after_prefix strip_prefix codes
is_acceptance_id s = after_prefix (strip_prefix (codes "AC-") (codes s))

-- One place of a fixed pattern: a digit or a given character.
pub data Place : Type 0 where
  digit : Place
  exactly : ℕ → Place

abbrev two : List Place → List Place
two ps = digit ∷ digit ∷ ps

abbrev date_time : List Place
date_time =
    digit
    ∷ digit
    ∷ two (
        exactly b'-'
        ∷ two
            (exactly b'-' ∷ two (exactly b'T' ∷ two (exactly b':' ∷ two (exactly b':' ∷ two [])))))

abbrev offset : List Place
offset = two (exactly b':' ∷ two [])

module _ (H : Host) where
  fits : Place → ℕ → Bool
  fits digit c = H.is_decimal_digit c
  fits (exactly k) c = eqb k c

  take_places : List Place → Text → Option Text
  unfolding fits
  take_places [] cs = some cs
  take_places (p ∷ ps) [] = none
  take_places (p ∷ ps) (c ∷ cs) = let rest = take_places ps cs in if fits p c then rest else none

  drop_digits : Text → Text
  drop_digits [] = []
  drop_digits (c ∷ cs) = let rest = drop_digits cs in if H.is_decimal_digit c then rest else c ∷ cs

  is_nothing : Option Text → Bool
  is_nothing (some []) = true
  is_nothing _ = false

  -- `Z|[+-]\d{2}:\d{2}` to the end.
  zone : Text → Bool
  unfolding take_places is_nothing
  zone [] = false
  zone (c ∷ cs) =
      (eqb c b'Z' && is_nothing (some cs))
      || ((eqb c b'+' || eqb c b'-') && is_nothing (take_places offset cs))

  -- `(?:\.\d+)?` and the zone.
  fraction_and_zone : Text → Bool
  unfolding zone drop_digits
  fraction_and_zone [] = false
  fraction_and_zone (c ∷ []) = zone (c ∷ [])
  fraction_and_zone (c ∷ d ∷ cs) =
      if eqb c b'.' then H.is_decimal_digit d && zone (drop_digits cs) else zone (c ∷ d ∷ cs)

  after_time : Option Text → Bool
  unfolding fraction_and_zone
  after_time none = false
  after_time (some rest) = fraction_and_zone rest

  -- `ISO_8601_RE.fullmatch`
  unfoldable pub is_iso_8601 : String → Bool
  unfolding after_time take_places codes
  is_iso_8601 s = after_time (take_places date_time (codes s))

one_line : Text → Bool
one_line [] = true
one_line (c ∷ cs) = not (eqb c 10) && one_line cs

labelled : Option Text → Bool
unfolding one_line
labelled none = false
labelled (some []) = false
labelled (some (c ∷ cs)) = one_line (c ∷ cs)

-- `EXTERNAL_TARGET_RE.fullmatch`: ^external:.+
unfoldable pub is_external_target : String → Bool
unfolding labelled strip_prefix codes
is_external_target s = labelled (strip_prefix (codes "external:") (codes s))

abbrev escalation_target : Value → Value
escalation_target (dict risk) = get risk "escalation_target"
escalation_target _ = Value.null

module _ (H : Host) where
  created_at_errors : Value → Issues
  unfolding is_iso_8601
  created_at_errors (str s) =
      one_if (not (is_iso_8601 H s)) (in_top "created_at")
        "must be an ISO-8601 timestamp with timezone"
  created_at_errors _ = []

  registry_present : Bool
  unfolding registry_dir
  registry_present = elim (registry_dir H) [ none ↦ false | some r ↦ true ]

  target_errors : Value → Issues
  unfolding is_external_target registry_present is_registered_agent
  target_errors (str s) =
      if is_external_target s
      then []
      else one_if (registry_present && not (is_registered_agent H s))
          (at (in_top "risk") "escalation_target")
          "must be a registered agent id or external:<label>"
  target_errors _ = []

  unfoldable pub check_scalar_formats : Entries → Issues
  unfolding created_at_errors target_errors get
  check_scalar_formats d =
      created_at_errors (get d "created_at") ++ target_errors (escalation_target (get d "risk"))
