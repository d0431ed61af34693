-- ===== src/Profiles/Dependency/Pins.antt =====
-- src/intent_packages/profiles/dependency_update.py: where a checkout pins a package. A checkout is
-- what can be read of it; parsing its files as TOML or JSON is not of this repository.
use intent_packages.Prelude.{
  ℕ, String, ◌<>◌, Bool, true, false, ◌&&◌, ◌||◌, Option, none, some, List, [], ◌∷◌, ◌++◌, codes,
  eqb, leb, same_text, strip_prefix, is_space, if◌then◌else◌,
}
use intent_packages.Key.{name, odd}
use intent_packages.Value.{Value, str, list, dict, Entries, end, to_list, truthy}
use intent_packages.Value.Dict.{get, has, items, Pairs}
use intent_packages.Value.Access.{field_of, field_or}
use intent_packages.Host.{Text}
use intent_packages.Outcome.{Outcome, ok, raised, attribute_error, value_error, ◌>>=◌}

-- `none` for the lines of a file that is not there, and for a text that does not parse. `show` is
-- `str` of a value that is no text.
pub record Checkout : Type 0 where
  pub lines : String → Option (List Text)
  pub toml : String → Option Entries
  pub json : String → Option Value
  pub show : Value → String

pub record PinSite : Type 0 where
  pub file : String
  pub label : String
  pub current_version : Text

unfoldable pub is_file : Checkout → String → Bool
is_file repo file = elim (repo.lines file) [ none ↦ false | some _ ↦ true ]

drop_space : Text → Text
unfolding is_space
drop_space [] = []
drop_space (c ∷ cs) = let rest = drop_space cs in if is_space c then rest else c ∷ cs

-- What stands before the trailing space.
keep_solid : Text → Text
unfolding is_space
keep_solid [] = []
keep_solid (c ∷ cs) = elim (keep_solid cs) [
  | [] ↦ if is_space c then [] else c ∷ []
  | d ∷ ds ↦ c ∷ d ∷ ds
]

-- `text.strip()`
unfoldable pub strip : Text → Text
unfolding drop_space keep_solid
strip cs = keep_solid (drop_space cs)

pinned_rest : Option Text → Option Text
pinned_rest (some (c ∷ cs)) = some (c ∷ cs)
pinned_rest _ = none

-- `^{package}==(.+)$` against a line.
unfoldable pub pip_pin : String → Text → Option Text
unfolding strip_prefix strip pinned_rest codes
pip_pin pkg line = pinned_rest (strip_prefix (codes pkg ++ codes "==") (strip line))

pip_first : String → String → List Text → List PinSite
unfolding pip_pin
pip_first pkg file [] = []
pip_first pkg file (line ∷ lines) =
    let rest = pip_first pkg file lines in
    elim (pip_pin pkg line) [
      | none ↦ rest
      | some v ↦ record { file = file; label = file; current_version = v } ∷ []
    ]

pip_in : Checkout → String → String → List PinSite
unfolding pip_first
pip_in repo pkg file = elim (repo.lines file) [ none ↦ [] | some lines ↦ pip_first pkg file lines ]

-- `_pip_discover`
unfoldable pub pip_discover : Checkout → String → List PinSite
unfolding pip_in
pip_discover repo pkg = pip_in repo pkg "requirements.txt" ++ pip_in repo pkg "requirements-dev.txt"

-- `[<>=!~ \[]`
is_separator : ℕ → Bool
is_separator c =
    eqb c b'<' || eqb c b'>' || eqb c b'=' || eqb c b'!' || eqb c b'~' || eqb c b' ' || eqb c b'['

name_of : Text → Text
unfolding is_separator
name_of [] = []
name_of (c ∷ cs) = let rest = name_of cs in if is_separator c then [] else c ∷ rest

after_name : Text → Text
unfolding is_separator
after_name [] = []
after_name (c ∷ cs) = let rest = after_name cs in if is_separator c then c ∷ cs else rest

-- `[^,;\s]*`
version_chars : Text → Text
unfolding is_space
version_chars [] = []
version_chars (c ∷ cs) =
    let rest = version_chars cs in if eqb c b',' || eqb c b';' || is_space c then [] else c ∷ rest

version_at : Text → Option Text
unfolding version_chars
version_at [] = none
version_at (c ∷ cs) = if leb 48 c && leb c 57 then some (c ∷ version_chars cs) else none

-- `(?:==|>=)\s*([0-9][^,;\s]*)`, at the first place that fits.
find_version : Text → Option Text
unfolding version_at drop_space
find_version [] = none
find_version (c ∷ []) = none
find_version (c ∷ d ∷ cs) =
    let rest = find_version (d ∷ cs) in
    elim (if (eqb c b'=' || eqb c b'>') && eqb d b'=' then version_at (drop_space cs) else none) [
      | none ↦ rest
      | some v ↦ some v
    ]

-- `_uv_pin_version`
unfoldable pub uv_pin_version : Text → String → Option Text
unfolding strip same_text name_of after_name find_version codes
uv_pin_version spec pkg =
    if same_text (name_of (strip spec)) (codes pkg)
    then find_version (after_name (strip spec))
    else none

-- A section of pyproject.toml: its label and its specs.
pub record UvSection : Type 0 where
  pub label : String
  pub specs : List Value

section_if_list : String → Value → List UvSection
unfolding to_list
section_if_list label (list xs) = record { label = label; specs = to_list xs } ∷ []
section_if_list label _ = []

sections_in : String → Pairs → List UvSection
unfolding section_if_list
sections_in prefix [] = []
sections_in prefix ((name k, v) ∷ rest) = section_if_list (prefix <> k) v ++ sections_in prefix rest
sections_in prefix ((odd n, v) ∷ rest) = sections_in prefix rest

-- `(value or {}).items()`
table_of : Value → Outcome Pairs
unfolding items truthy
table_of (dict d) = ok (items d)
table_of v = if truthy v then raised attribute_error else ok []

unfoldable pub uv_sections : Entries → Outcome (List UvSection)
unfolding field_or field_of section_if_list sections_in table_of get
uv_sections body = do
  project ← field_or (dict body) "project" (dict end)
  dependencies ← field_of project "dependencies"
  groups ← table_of (get body "dependency-groups")
  optional ← field_of project "optional-dependencies"
  extras ← table_of optional
  ok (
      section_if_list "project.dependencies" dependencies
      ++ (sections_in "dependency-groups." groups ++ sections_in "optional-dependencies." extras))

pin_of : Value → String → Option Text
unfolding uv_pin_version codes
pin_of (str spec) pkg = uv_pin_version (codes spec) pkg
pin_of _ pkg = none

uv_first : String → String → List Value → List PinSite
unfolding pin_of
uv_first pkg label [] = []
uv_first pkg label (spec ∷ specs) =
    let rest = uv_first pkg label specs in
    elim (pin_of spec pkg) [
      | none ↦ rest
      | some v ↦ record { file = "pyproject.toml"; label = label; current_version = v } ∷ []
    ]

uv_sites : String → List UvSection → List PinSite
unfolding uv_first
uv_sites pkg [] = []
uv_sites pkg (s ∷ ss) = uv_first pkg s.label s.specs ++ uv_sites pkg ss

uv_parsed : String → Option Entries → Outcome (List PinSite)
unfolding uv_sections uv_sites
uv_parsed pkg none = raised (value_error "pyproject.toml is not valid TOML")
uv_parsed pkg (some body) = uv_sections body >>= λ ss. ok (uv_sites pkg ss)

-- `_uv_discover`
unfoldable pub uv_discover : Checkout → String → Outcome (List PinSite)
unfolding is_file uv_parsed
uv_discover repo pkg =
    if is_file repo "pyproject.toml" then uv_parsed pkg (repo.toml "pyproject.toml") else ok []

-- `text.lstrip("^~")`
strip_range : Text → Text
strip_range [] = []
strip_range (c ∷ cs) =
    let rest = strip_range cs in if eqb c b'^' || eqb c b'~' then rest else c ∷ cs

shown : Checkout → Value → String
shown repo (str s) = s
shown repo v = repo.show v

npm_in : Checkout → String → String → Value → List PinSite
unfolding has get strip_range shown codes
npm_in repo pkg section (dict deps) =
    if has pkg deps
    then record {
      file = "package.json";
      label = section;
      current_version = strip_range (codes (shown repo (get deps pkg)));
    }
      ∷ []
    else []
npm_in repo pkg section _ = []

npm_parsed : Checkout → String → Option Value → Outcome (List PinSite)
unfolding field_of npm_in
npm_parsed repo pkg none = raised (value_error "package.json is not valid JSON")
npm_parsed repo pkg (some body) = field_of body "dependencies" >>= λ a.
    (field_of body "devDependencies" >>= λ b.
    ok (npm_in repo pkg "dependencies" a ++ npm_in repo pkg "devDependencies" b))

-- `_npm_discover`
unfoldable pub npm_discover : Checkout → String → Outcome (List PinSite)
unfolding is_file npm_parsed
npm_discover repo pkg =
    if is_file repo "package.json" then npm_parsed repo pkg (repo.json "package.json") else ok []
