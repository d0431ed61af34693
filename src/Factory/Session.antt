-- ===== src/Factory/Session.antt =====
-- One run of a verb: the requests that it sent, in order, the lines that it printed, how many
-- identifiers it drew, the proposals that it wrote out, the payloads that it put on the clipboard, and
-- the pages that it opened. The service is a function of the requests that it has received so far.
use intent_packages.Prelude.{ℕ, suc, String, Bool, Option, List, [], ◌∷◌, ◌++◌}
use intent_packages.Value.{ℤ, Value, Entries}
use intent_packages.Outcome.{Outcome, Exn, ok, raised}

-- The credentials of src/intent_packages/factory/credentials.py.
pub data Role : Type 0 where
  system verifier observer : Role

-- One constructor for each path that src/intent_packages/factory/api.py composes.
pub data Route : Type 0 where
  package_intake decomposition_proposals traceability history : String → Route
  evidence_pack revision_evidence_pack evidence_pack_markdown : String → Route
  in_flight_units staged_intakes : Route
  command : String → String → Route
  dispatch named_check verify : String → Route

-- A GET has no body.
pub record Request : Type 0 where
  pub route : Route
  pub role : Role
  pub body : Option Entries

-- A response has a status code, a text, and what its text is as JSON, if it is.
pub data Response : Type 0 where
  timed_out unreachable : Response
  replied : ℕ → String → Option Value → Response

pub record ApiError : Type 0 where
  pub code : String
  pub recovery : Value
  pub current_version : Value
  pub status_code : Option ℕ

-- What a verb may see raised: an `ApiError`, an `OrchestratorCliError`, or another exception.
pub data Fault : Type 0 where
  api : ApiError → Fault
  cli : String → Fault
  other : Exn → Fault

pub data Line : Type 0 where
  out err : String → Line

pub record Session : Type 0 where
  pub requests : List Request
  pub lines : List Line
  pub drawn : ℕ
  pub written : List Entries
  pub copied : List Entries
  pub opened : List String

-- What is not of this repository: the service, whether a token can be had for a role, `uuid4`,
-- $FACTORY_REVISION, `str` of a value that is no text, and `int` of a text or a float.
pub record Backend : Type 0 where
  pub answer : List Request → Request → Response
  pub has_token : Role → Bool
  pub uuid : ℕ → String
  pub revision_env : String
  pub show : Value → String
  pub int_of : Value → Outcome ℤ

pub data Answer {ℓ} (A : Type ℓ) : Type ℓ where
  done : A → Answer A
  failed : Fault → Answer A

abbrev pub Verb {ℓ} : Type ℓ → Type ℓ
Verb A = Session → Answer A × Session

unfoldable pub resume {ℓ κ} :
    {A : Type ℓ} {B : Type κ} → Answer A × Session → (A → Verb B) → Answer B × Session
resume (done a, s) f = f a s
resume (failed e, s) f = (failed e, s)

infixl 5 ◌>>=◌ ◌>>◌
abbrev pub ◌>>=◌ {ℓ κ} : {A : Type ℓ} {B : Type κ} → Verb A → (A → Verb B) → Verb B
m >>= f = λ s. resume (m s) f

abbrev pub ◌>>◌ {ℓ} : {B : Type ℓ} → Verb (Unit {0}) → Verb B → Verb B
m >> k = m >>= λ _. k

abbrev pub pure {ℓ} : {A : Type ℓ} → A → Verb A
pure a = λ s. (done a, s)

abbrev pub fail {ℓ} : {A : Type ℓ} → Fault → Verb A
fail e = λ s. (failed e, s)

unfoldable pub lifted {ℓ} : {A : Type ℓ} → Outcome A → Answer A
lifted (ok a) = done a
lifted (raised e) = failed (other e)

-- Code that calls no service.
abbrev pub lift {ℓ} : {A : Type ℓ} → Outcome A → Verb A
lift m = λ s. (lifted m, s)

abbrev pub print : Line → Verb (Unit {0})
print l = λ s. (done tt, record s { lines = s.lines ++ l ∷ [] })

unfoldable pub handled {ℓ} :
    {A : Type ℓ} → Answer A × Session → (ApiError → Verb A) → Answer A × Session
handled (failed (api e), s) f = f e s
handled r f = r

-- `try: m`, `except ApiError as error: f error`
abbrev pub catch {ℓ} : {A : Type ℓ} → Verb A → (ApiError → Verb A) → Verb A
catch m f = λ s. handled (m s) f

-- An exit code.
abbrev pub exit : ℕ → Verb ℕ
exit n = pure n

-- `print(…, file=sys.stderr)`, `return n`
abbrev pub give_up : String → ℕ → Verb ℕ
give_up why n = print (err why) >> exit n

module _ (B : Backend) where
  -- `f"{prefix}{uuid.uuid4()}"` draws an identifier that no other draw gives.
  unfoldable pub draw : Verb String
  draw s = (done (B.uuid s.drawn), record s { drawn = suc s.drawn })
