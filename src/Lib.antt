-- ===== src/Lib.antt =====
-- A model of intent-packages: a package is a directory with package.yaml, what is to be done, and
-- lineage.yaml, the ledger of its revisions, transitions and approvals. The program validates such
-- a directory, moves it through its life, and says whether its current revision is approved.
--
-- The parts, each with the file of the repository that it follows:
--   Value, Key        the values that a YAML, TOML or JSON document loads to, as Python holds them,
--                     dicts in insertion order, and `==`, truth and hashing where the code asks
--   Outcome           a call that returns or raises; a validator's list of issues, each with the
--                     place that it names and the fixed words of its message
--   Host              what is taken from outside: PyYAML, hashlib, unicodedata, the environment, the
--                     registry checkout, the member record, the policy document. All are parameters
--   Loader            src/intent_packages/loader.py: node trees to values, repeated keys refused
--   Schema            src/intent_packages/schema.py: the closed schema and its walker
--   Validate          src/intent_packages/validate.py: the checks and warnings on package.yaml
--   Semantic          src/intent_packages/checks_semantic.py: checks S, H, L and T
--   Profiles          src/intent_packages/profiles: what each delivery profile validates
--   DestinationFormat src/intent_packages/destination_format.py: the grammar of a destination
--   Canonical, Json   src/intent_packages/canonical.py: the canonical text and the hash, with a
--                     reader of JSON strings beside it
--   Lifecycle         src/intent_packages/lifecycle.py: states, edges, and runs along them
--   Lineage           src/intent_packages/lineage.py: writing to the ledger
--   Registry, Members src/intent_packages/registry.py and members.py
--   Policy            src/intent_packages/approval_policy.py: what a standing policy may approve
--   Edit, Operations  src/intent_packages/operations.py: line edits of package.yaml, do_transition,
--                     do_approve, do_revise, do_supersede and verify_approval
--   Routing           src/intent_packages/routing.py: which models a change class may use
--   Profiles/Dependency  the tooling of src/intent_packages/profiles/dependency_update.py: Pins,
--                     Commands and Envelope
--   Factory           src/intent_packages/factory, the verbs that drive a package through the
--                     orchestrator: Session is one run of a verb, Api is factory/api.py, Views and
--                     Reads are factory/reads.py, Execution is factory/execution.py, Verify is
--                     factory/verify.py, Validations and Decompose are factory/validations.py and
--                     factory/decompose.py, Journey is factory/journey.py and factory/links.py
--   Examples          a package, its ledger and a policy, a service, and runs on them
--
-- An operation passes on a world, the directory and the events that were emitted, and answers a
-- result or an exception; what it wrote before it raised stays written. A transition and an
-- approval first call the validator; a revision and a supersession do not, as in the source. Each
-- loads both files, judges them with Lifecycle, Registry and Policy, then sends its event and
-- writes the ledger (Lineage) and the status line (Edit). The emitter is a parameter.
--
-- A verb of Factory passes on a session: the requests that it sent, the lines that it printed, the
-- identifiers that it drew, and what it wrote out, copied and opened. A request joins the log before
-- its answer is known, and stays sent when the answer is an error. The service is a function from the
-- requests so far and the new one to a response, so that it may answer a second read differently;
-- whether a token can be had, git, the shell, the other programs and the files are parameters too.
-- `decompose` builds on Routing, on the tooling of Profiles/Dependency and on Validations; `ready`,
-- `dispatch`, `verify` and `status` share Reads; `submit` loads the package with Loader and derives
-- its key with Canonical. The wait of `status` runs over the ticks that the clock leaves.
--
-- The only fuel is that of the decimal digits of a number (Canonical.digits): one round for each
-- digit, and each round divides by ten, so that the number itself and one more is enough. All other
-- loops are structural.
--
-- Not modelled: the text of messages beyond their fixed words, the command lines, what httpx and
-- the subprocesses do, where a token comes from, the scripts, and the templates that
-- factory/scaffolds.py writes: they are input, output and text. A revision number of more than 4300
-- digits, at which `str` raises, is written like any other by Edit. Nor are the standing package that
-- the dependency-update profile renders, which is text too, and the layout of the repository.
pub mod Prelude
pub mod Key
pub mod Outcome
pub mod Value
pub mod Lifecycle
pub mod Schema
pub mod Host
pub mod Loader
pub mod Registry
pub mod Canonical
pub mod Profiles
pub mod Json
pub mod DestinationFormat
pub mod Validate
pub mod Lineage
pub mod Semantic
pub mod Members
pub mod Policy
pub mod Routing
pub mod Factory
pub mod Edit
pub mod Operations
pub mod Examples
