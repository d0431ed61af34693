-- ===== src/Factory/Decompose/Proposal.antt =====
-- `build_proposal` of src/intent_packages/factory/decompose.py.
use intent_packages.Prelude.{
  String, ◌<>◌, Bool, true, false, not, Option, none, some, List, [], ◌∷◌, ◌==◌, if◌then◌else◌,
}
use Prim.Native.Char.{Char}
use intent_packages.Value.{
  Value, int, pos, str, list, dict, Entries, nil, is_text, is_hashable, scalar_eq, truthy, of_list,
}
use intent_packages.Value.Dict.{get, subscript, of_pairs}
use intent_packages.Value.Access.{iterate}
use intent_packages.Outcome.{
  Outcome, ok, raised, decompose_error, type_error, ◌>>=◌, ◌>>◌, raise_if,
}
use intent_packages.Profiles.Dependency.Pins.{Checkout, PinSite}
use intent_packages.Profiles.Dependency.Commands.{Bump, coding_note}
use intent_packages.Profiles.Dependency.Envelope.{Commands, envelope_commands, envelope_of}

-- The uuid of each criterion by the id that humans use.
abbrev pub Uuids : Type 0
Uuids = List (Value × Value)

-- `uuids[k] = v`
unfoldable pub put_uuid : Value → Value → Uuids → Uuids
unfolding scalar_eq
put_uuid k v [] = (k, v) ∷ []
put_uuid k v ((j, w) ∷ rest) =
    let more = put_uuid k v rest in if scalar_eq j k then (j, v) ∷ rest else (j, w) ∷ more

unfoldable pub add_criteria : List Value → Uuids → Outcome Uuids
unfolding put_uuid subscript
add_criteria [] uuids = ok uuids
add_criteria (c ∷ cs) uuids = do
  k ← subscript c "ac_id"
  v ← subscript c "id"
  raise_if (not (is_hashable k)) type_error
  add_criteria cs (put_uuid k v uuids)

unfoldable pub criteria_of : Value → Outcome (List Value)
unfolding iterate truthy
criteria_of v = if truthy v then iterate v else ok []

-- `_criteria_uuid_map`
unfoldable pub criteria_uuid_map : Entries → Outcome Uuids
unfolding criteria_of add_criteria get
criteria_uuid_map intake =
    criteria_of (get intake "acceptance_criteria") >>= λ cs. add_criteria cs []

-- `uuids[ac]`, where `ac` is there.
unfoldable pub uuid_of : String → Uuids → Outcome Value
uuid_of ac [] = raised (decompose_error "acceptance criterion not found in revision")
uuid_of ac ((k, v) ∷ rest) = let later = uuid_of ac rest in if is_text k ac then ok v else later

-- The uuids of the other criteria.
unfoldable pub others : String → Uuids → List Value
others ac [] = []
others ac ((k, v) ∷ rest) = let more = others ac rest in if is_text k ac then more else v ∷ more

abbrev pub dashed : Char → Char
dashed c = if String.◌∷◌ c String.[] == "/" then "-" else c

-- `text.replace("/", "-")`
unfoldable pub replace_slashes : String → String
replace_slashes String.[] = String.[]
replace_slashes (String.◌∷◌ c s) = String.◌∷◌ (dashed c) (replace_slashes s)

key_for : Bump → Value → Outcome String
unfolding replace_slashes
key_for b (str revision) =
    if revision == ""
    then raised (decompose_error "the intake carries no revision id")
    else ok (replace_slashes ("factory-decompose-" <> revision <> "-" <> b.pkg <> "-" <> b.new))
key_for b v = raised (decompose_error "the intake carries no revision id")

-- `_idempotency_key`
unfoldable pub idempotency_key : Entries → Bump → Outcome String
unfolding key_for get
idempotency_key intake b = key_for b (get intake "id")

abbrev note : Bool → String
note true =
    " Run the repository's own build; it is in your authorized commands, and what it reports is the work. A repository that tracks compiled output also fails its named check when that output is stale."
note false = ""

-- `_outcome`
outcome_text : String → Bump → Bool → String
outcome_text target_repo b noted =
    target_repo
    <> " receives a PR that moves "
    <> b.pkg
    <> " "
    <> b.old
    <> " -> "
    <> b.new
    <> "; its named check passes on the PR head."
    <> note noted

-- What a proposal says, before it is written out.
pub record Proposal : Type 0 where
  pub key : String
  pub rationale : String
  pub unit_key : String
  pub title : String
  pub outcome : String
  pub authority : Entries
  pub commands : Commands
  pub enrichment : Option Entries
  pub mapped : Value
  pub retained : List Value
  pub retained_rationale : String

unfoldable pub retained_acs : String → List Value → List Value
unfolding of_pairs
retained_acs rationale [] = []
retained_acs rationale (v ∷ vs) =
    dict (of_pairs (("ac_id", v) ∷ ("rationale", str rationale) ∷ [])) ∷ retained_acs rationale vs

abbrev enrichment_pairs : Option Entries → List (String × Value)
enrichment_pairs none = []
enrichment_pairs (some e) = ("context_enrichment", dict e) ∷ []

abbrev only : Value → Value
only v = list (of_list (v ∷ []))

-- The proposal as it is written and posted.
unfoldable pub proposal_body : Proposal → Entries
unfolding of_pairs of_list retained_acs
proposal_body p = of_pairs (
    ("idempotency_key", str p.key)
    ∷ ("expected_version", int (pos 0))
    ∷ ("rationale", str p.rationale)
    ∷ (
      "proposed_units",
      only (
          dict (
            of_pairs (
              ("unit_key", str p.unit_key)
              ∷ ("title", str p.title)
              ∷ ("outcome", str p.outcome)
              ∷ ("required_capability", str "repo.edit")
              ∷ ("authority", dict p.authority)
              ∷ ("max_attempts", int (pos 3))
              ∷ enrichment_pairs p.enrichment))),
    )
    ∷ ("dependencies", list nil)
    ∷ (
      "ac_mappings",
      only (dict (of_pairs (("ac_id", p.mapped) ∷ ("unit_key", str p.unit_key) ∷ []))),
    )
    ∷ ("retained_acs", list (of_list (retained_acs p.retained_rationale p.retained)))
    ∷ [])

-- What `decompose` is asked for.
pub record Ask : Type 0 where
  pub revision : String
  pub ac : String
  pub target_repo : String
  pub repo_path : String
  pub tooling : String
  pub bump : Bump
  pub unit_key : String
  pub rationale : String
  pub intake_file : String
  pub submit : Bool
  pub no_execute : Bool
  pub assume_checkout_current : Bool

-- `build_proposal`; the unit key has been settled.
unfoldable pub build_proposal :
    Ask → String → Entries → Entries → List PinSite → Checkout → Option Entries → Outcome Proposal
unfolding criteria_uuid_map uuid_of envelope_commands envelope_of others idempotency_key coding_note
    outcome_text
build_proposal a unit_key intake conformance sites repo enrichment = do
  uuids ← criteria_uuid_map intake
  mapped ← uuid_of a.ac uuids
  commands ← envelope_commands repo a.tooling a.bump sites
  key ← idempotency_key intake a.bump
  noted ← coding_note repo a.tooling
  ok (record {
    key = key;
    rationale =
        "Dependency update: " <> a.bump.pkg <> " " <> a.bump.old <> " -> " <> a.bump.new <> " in "
        <> a.target_repo <> ".";
    unit_key = unit_key;
    title = "Update " <> a.bump.pkg <> " to " <> a.bump.new <> " in " <> a.target_repo;
    outcome = outcome_text a.target_repo a.bump noted;
    authority = envelope_of a.target_repo conformance commands;
    commands = commands;
    enrichment = enrichment;
    mapped = mapped;
    retained = others a.ac uuids;
    retained_rationale =
        if a.rationale == ""
        then "not addressed by the " <> a.bump.pkg <> " update (" <> a.ac <> ")"
        else a.rationale;
  })
