-- ===== src/Json/Laws.antt =====
-- Reading back what `canon_str` of src/intent_packages/canonical.py writes.
use intent_packages.Prelude.{
  ℕ, zero, suc, ◌<◌, String, ◌≡◌, refl, sym, ◌∙◌, inl, inr, Bool, true, false, ◌&&◌, Option, none,
  some, [], ◌∷◌, ◌++◌, append_assoc, append-nil, arith, eqb, ltb, codes, Bool-cases,
}
use intent_packages.Host.{Text}
use intent_packages.Canonical.{escape, escape_all}
use intent_packages.Json.{Mode, plain, Step, closed, refused, more, step, scan_string}

-- The steps over a part of the text that does not close it: the mode after them, and the output.
run : Mode → Text → Text → Option (Mode × Text)
run m [] acc = some (m, acc)
run m (c ∷ cs) acc = elim (step m c) [
  | closed ↦ none
  | refused ↦ none
  | more m' out ↦ run m' cs (acc ++ out)
]

-- One step of each of the two loops, by what the step is.
run_next : Step → Text → Text → Option (Mode × Text)
run_next closed cs acc = none
run_next refused cs acc = none
run_next (more m out) cs acc = run m cs (acc ++ out)

scan_next : Step → Text → Text → Option (Text × Text)
scan_next closed cs acc = some (acc, cs)
scan_next refused cs acc = none
scan_next (more m out) cs acc = scan_string m cs (acc ++ out)

run-cons : (m : Mode) (c : ℕ) (cs acc : Text) → run m (c ∷ cs) acc ≡ run_next (step m c) cs acc
unfolding run run_next
run-cons m c cs acc = ground arith

scan-cons :
    (m : Mode) (c : ℕ) (cs acc : Text) → scan_string m (c ∷ cs) acc ≡ scan_next (step m c) cs acc
unfolding scan_string scan_next
scan-cons m c cs acc = ground arith

module _ (cs pre : Text) {n : Mode} {out : Text} where
  run_next-shift :
      ((m : Mode) (a : Text)
        → run m cs a ≡ some (n, out)
        → run m cs (pre ++ a) ≡ some (n, pre ++ out))
      → (s : Step) (acc : Text) → run_next s cs acc ≡ some (n, out)
      → run_next s cs (pre ++ acc) ≡ some (n, pre ++ out)
  unfolding run_next
  run_next-shift ih closed acc h = absurd (cc)
  run_next-shift ih refused acc h = absurd (cc)
  run_next-shift ih (more m o) acc h = rw append_assoc (ih m (acc ++ o) h)

-- What was read before only stands in front.
run-shift :
    (m : Mode) (cs pre acc : Text) {n : Mode} {out : Text}
    → run m cs acc ≡ some (n, out)
    → run m cs (pre ++ acc) ≡ some (n, pre ++ out)
run-shift m [] pre acc h = unfold run in ground arith
run-shift m (c ∷ cs) pre acc h =
    run-cons m c cs (pre ++ acc)
    ∙ run_next-shift cs pre (λ m' a e. run-shift m' cs pre a e) (step m c) acc
        (sym (run-cons m c cs acc) ∙ h)

module _ (cs rest : Text) {n : Mode} {out : Text} where
  scan_next-run :
      ((m : Mode) (a : Text)
        → run m cs a ≡ some (n, out)
        → scan_string m (cs ++ rest) a ≡ scan_string n rest out)
      → (s : Step) (acc : Text) → run_next s cs acc ≡ some (n, out)
      → scan_next s (cs ++ rest) acc ≡ scan_string n rest out
  unfolding run_next scan_next
  scan_next-run ih closed acc h = absurd (cc)
  scan_next-run ih refused acc h = absurd (cc)
  scan_next-run ih (more m o) acc h = ih m (acc ++ o) h

-- Reading goes on behind a part that does not close the text.
scan-run :
    (m : Mode) (cs rest acc : Text) {n : Mode} {out : Text}
    → run m cs acc ≡ some (n, out)
    → scan_string m (cs ++ rest) acc ≡ scan_string n rest out
scan-run m [] rest acc h = unfold run in ground arith
scan-run m (c ∷ cs) rest acc h =
    scan-cons m c (cs ++ rest) acc
    ∙ scan_next-run cs rest (λ m' a e. scan-run m' cs rest a e) (step m c) acc
        (sym (run-cons m c cs acc) ∙ h)

is_plain : ℕ → Option (Mode × Text) → Bool
is_plain c (some (plain, d ∷ [])) = eqb c d
is_plain c _ = false

is_plain-eq : (c : ℕ) (o : Option (Mode × Text)) → is_plain c o ≡ true → o ≡ some (plain, c ∷ [])
unfolding is_plain
is_plain-eq c o h = ground arith

passes : (ℕ → Bool) → ℕ → Bool
passes test zero = true
passes test (suc bound) = passes test bound && test bound

passes_each : (test : ℕ → Bool) (bound c : ℕ) → c < bound → passes test bound ≡ true → test c ≡ true
unfolding passes
passes_each test zero c lt h = absurd (omega arith)
passes_each test (suc bound) c lt h = ground (arith, passes_each test bound c)

escape_table : passes (λ c. is_plain c (run plain (escape c) [])) 128 ≡ true
unfolding passes is_plain run escape step
escape_table = refl

run-escape : (c : ℕ) → run plain (escape c) [] ≡ some (plain, c ∷ [])
unfolding run
run-escape c = elim (Bool-cases (ltb c 128)) [
  | inl low ↦
      is_plain-eq c _
        (passes_each (λ d. is_plain d (run plain (escape d) [])) 128 c (ground arith) escape_table)
  | inr high ↦ unfold escape step in ground arith
]

scan-escape :
    (c : ℕ) (rest acc : Text)
    → scan_string plain (escape c ++ rest) acc ≡ scan_string plain rest (acc ++ c ∷ [])
scan-escape c rest acc =
    scan-run plain (escape c) rest acc
      (rw append-nil at (run-shift plain (escape c) acc [] (run-escape c)))

pub scan-escape_all :
    (cs rest acc : Text)
    → scan_string plain (escape_all cs ++ b'"' ∷ rest) acc ≡ some (acc ++ cs, rest)
unfolding escape_all
scan-escape_all [] rest acc = unfold scan_string in rw append-nil
scan-escape_all (c ∷ cs) rest acc =
    rw append_assoc (scan-escape c _ acc)
    ∙ scan-escape_all cs rest (acc ++ c ∷ [])
    ∙ rw append_assoc

-- A JSON reader gets back the text that `canon_str` wrote between its quotes, and what follows.
pub scan-canon_str :
    (s : String) (rest : Text)
    → scan_string plain (escape_all (codes s) ++ b'"' ∷ rest) [] ≡ some (codes s, rest)
scan-canon_str s rest = scan-escape_all (codes s) rest []
