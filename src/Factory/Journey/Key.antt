-- ===== src/Factory/Journey/Key.antt =====
-- src/intent_packages/factory/journey.py: what `submit` reads of a package, and the key that it is
-- staged under.
use Prim.Native.String.{slice}
use intent_packages.Prelude.{String, ◌<>◌, ◌==◌, if◌then◌else◌}
use intent_packages.Value.{Entries}
use intent_packages.Value.Dict.{item}
use intent_packages.Outcome.{Outcome, ok, ◌>>=◌}
use intent_packages.Host.{Host, PackageDir}
use intent_packages.Loader.{load_package, load_lineage}
use intent_packages.Canonical.{package_hash}
use intent_packages.Factory.Session.{Backend}
use intent_packages.Factory.Api.{shown}

unfoldable pub loaded : Host → PackageDir → Outcome (Entries × Entries)
unfolding load_package load_lineage
loaded H dir = do pkg ← load_package H dir; lineage ← load_lineage H dir; ok (pkg, lineage)

unfoldable pub staging_key : Host → Backend → Entries → Outcome String
unfolding item package_hash shown
staging_key H B pkg = do
  id ← item pkg "package_id"
  revision ← item pkg "revision"
  h ← package_hash H pkg
  ok ("factory-submit-" <> shown B id <> "-r" <> shown B revision <> "-" <> slice h 0 16)

-- `idempotency_key or staging_key(package)`
unfoldable pub key_of : Host → Backend → String → Entries → Outcome String
unfolding staging_key
key_of H B given pkg = if given == "" then staging_key H B pkg else ok given
