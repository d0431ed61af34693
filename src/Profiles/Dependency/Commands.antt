-- ===== src/Profiles/Dependency/Commands.antt =====
-- src/intent_packages/profiles/dependency_update.py: the commands that move a pin, and those that
-- verify the move, per tooling.
use Prim.Native.String.{slice, len}
use intent_packages.Prelude.{
  String, ◌<>◌, Bool, true, false, not, Option, none, some, List, [], ◌∷◌, ◌++◌, ◌==◌, starts_with,
  all, if◌then◌else◌,
}
use intent_packages.Value.{Value, dict, Entries, end, truthy}
use intent_packages.Value.Dict.{get, has}
use intent_packages.Value.Access.{field_of}
use intent_packages.Outcome.{Outcome, ok, raised, profile_error, value_error, ◌>>=◌}
use intent_packages.Profiles.Dependency.Pins.{
  Checkout, PinSite, is_file, pip_discover, uv_discover, npm_discover,
}

-- A bump: the package, the version that it has and the one that it gets.
pub record Bump : Type 0 where
  pub pkg : String
  pub old : String
  pub new : String

unfoldable pub pip_mutation : Bump → List PinSite → List String
pip_mutation b [] = []
pip_mutation b (site ∷ sites) =
    ("sed -i 's/^" <> b.pkg <> "==" <> b.old <> "$/" <> b.pkg <> "==" <> b.new <> "/' "
      <> site.file)
    ∷ pip_mutation b sites

-- `next((s.file for s in sites if s.file == "requirements.txt"), None)`, then the first, then the
-- default.
abbrev pub primary_file : List PinSite → String
primary_file [] = "requirements.txt"
primary_file (site ∷ sites) =
    if all (λ s. not (s.file == "requirements.txt")) (site ∷ sites)
    then site.file
    else "requirements.txt"

unfoldable pub pip_verifier : Bump → List PinSite → List String
unfolding all
pip_verifier b sites = ("grep -qx '" <> b.pkg <> "==" <> b.new <> "' " <> primary_file sites) ∷ []

-- What follows a prefix that a label starts with.
abbrev label_rest : String → String → String
label_rest prefix label = slice label (len prefix) (len label)

unfoldable pub uv_section_flag : String → Outcome String
uv_section_flag label =
    if label == "project.dependencies"
    then ok ""
    else (if starts_with label "dependency-groups."
        then ok (
            if label_rest "dependency-groups." label == "dev"
            then "--dev"
            else "--group " <> label_rest "dependency-groups." label)
        else (if starts_with label "optional-dependencies."
            then ok ("--optional " <> label_rest "optional-dependencies." label)
            else raised (profile_error "unknown pin-site section")))

-- `" ".join(parts)`; a part that is empty was not appended.
abbrev spaced : String → String
spaced flag = if flag == "" then "" else flag <> " "

unfoldable pub uv_add : Bump → String → Bool → Outcome String
unfolding uv_section_flag
uv_add b label frozen = uv_section_flag label >>= λ flag. ok (
    "uv add "
    <> (if frozen then "--frozen " else "")
    <> spaced flag
    <> "'"
    <> b.pkg
    <> ">="
    <> b.new
    <> "'")

uv_adds : Bump → List PinSite → Outcome (List String)
unfolding uv_add
uv_adds b [] = ok ("uv lock" ∷ [])
uv_adds b (site ∷ sites) = uv_add b site.label true >>= λ c. (uv_adds b sites >>= λ cs. ok (c ∷ cs))

unfoldable pub uv_mutation : Bump → List PinSite → Outcome (List String)
unfolding uv_add uv_adds
uv_mutation b [] = ok []
uv_mutation b (site ∷ []) = uv_add b site.label false >>= λ c. ok (c ∷ [])
uv_mutation b (site ∷ other ∷ sites) = uv_adds b (site ∷ other ∷ sites)

abbrev pub uv_verifier : List String
uv_verifier = "uv lock --check" ∷ []

has_build : Value → Bool
unfolding get truthy
has_build (dict scripts) = truthy (get scripts "build")
has_build _ = false

build_in : Option Value → Outcome Bool
unfolding field_of has_build
build_in none = raised (value_error "package.json is not valid JSON")
build_in (some body) = field_of body "scripts" >>= λ scripts. ok (has_build scripts)

-- `_npm_build_script`
unfoldable pub npm_build_script : Checkout → Outcome Bool
unfolding is_file build_in
npm_build_script repo =
    if is_file repo "package.json" then build_in (repo.json "package.json") else ok false

abbrev dict_or_empty : Value → Entries
dict_or_empty (dict d) = d
dict_or_empty _ = end

scripts_in : Option Value → Outcome Entries
unfolding field_of
scripts_in none = ok end
scripts_in (some body) = field_of body "scripts" >>= λ scripts. ok (dict_or_empty scripts)

-- `_npm_scripts`: a manifest that does not parse has none.
unfoldable pub npm_scripts : Checkout → Outcome Entries
unfolding is_file scripts_in
npm_scripts repo =
    if is_file repo "package.json" then scripts_in (repo.json "package.json") else ok end

abbrev pub command_if : Bool → String → List String
command_if true c = c ∷ []
command_if false c = []

unfoldable pub npm_gate_components : Checkout → Outcome (List String)
unfolding is_file npm_scripts has
npm_gate_components repo = npm_scripts repo >>= λ scripts. ok (
    command_if (is_file repo "eslint.config.mjs") "npx eslint ."
    ++ (command_if (is_file repo ".prettierrc") "npx prettier --check ."
        ++ command_if (has "test" scripts) "npm test"))

abbrev is_dev : List PinSite → Bool
is_dev [] = false
is_dev (site ∷ sites) = all (λ s. s.label == "devDependencies") (site ∷ sites)

unfoldable pub npm_mutation : Checkout → Bump → List PinSite → Outcome (List String)
unfolding npm_build_script all
npm_mutation repo b sites = npm_build_script repo >>= λ build. ok (
    ("npm install "
      <> b.pkg
      <> "@"
      <> b.new
      <> " --save-exact"
      <> (if is_dev sites then " --save-dev" else ""))
    ∷ command_if build "npm run build")

unfoldable pub npm_verifier : Checkout → Bump → Outcome (List String)
unfolding is_file npm_gate_components
npm_verifier repo b = npm_gate_components repo >>= λ components. ok (
    command_if (is_file repo "package-lock.json") "npm ci"
    ++ (components ++ ("grep -q '\"" <> b.pkg <> "\": \"" <> b.new <> "\"' package.json") ∷ []))

-- `commands_deferred_to_coding`
unfoldable pub commands_deferred_to_coding : Checkout → String → Outcome (List String)
unfolding npm_build_script npm_gate_components
commands_deferred_to_coding repo tooling =
    if tooling == "npm"
    then npm_build_script repo >>= (λ build. npm_gate_components repo >>= λ components.
        ok (command_if build "npm run build" ++ components))
    else ok []

-- `coding_note`: whether there is one.
unfoldable pub coding_note : Checkout → String → Outcome Bool
unfolding npm_build_script
coding_note repo tooling = if tooling == "npm" then npm_build_script repo else ok false

-- `TOOLING_PROFILES`
pub data Tooling : Type 0 where
  npm pip uv : Tooling

unfoldable pub tooling_named : String → Option Tooling
tooling_named s =
    if s == "npm"
    then some npm
    else (if s == "pip" then some pip else (if s == "uv" then some uv else none))

unfoldable pub discover_pin_sites : Tooling → Checkout → String → Outcome (List PinSite)
unfolding pip_discover uv_discover npm_discover
discover_pin_sites npm repo pkg = npm_discover repo pkg
discover_pin_sites pip repo pkg = ok (pip_discover repo pkg)
discover_pin_sites uv repo pkg = uv_discover repo pkg

unfoldable pub mutation_commands : Tooling → Checkout → Bump → List PinSite → Outcome (List String)
unfolding npm_mutation pip_mutation uv_mutation
mutation_commands npm repo b sites = npm_mutation repo b sites
mutation_commands pip repo b sites = ok (pip_mutation b sites)
mutation_commands uv repo b sites = uv_mutation b sites

unfoldable pub verifier_commands : Tooling → Checkout → Bump → List PinSite → Outcome (List String)
unfolding npm_verifier pip_verifier
verifier_commands npm repo b sites = npm_verifier repo b
verifier_commands pip repo b sites = ok (pip_verifier b sites)
verifier_commands uv repo b sites = ok uv_verifier
