-- ===== src/Factory/Journey/Links.antt =====
-- src/intent_packages/factory/links.py: the pages that a verb points to.
use Prim.Native.Char.{Char}
use intent_packages.Prelude.{String, ◌<>◌, Bool, ◌&&◌, ◌==◌, if◌then◌else◌}

is_slash : Char → Bool
is_slash c = String.◌∷◌ c String.[] == "/"

-- `text.rstrip("/")`
unfoldable pub rstrip_slash : String → String
unfolding is_slash
rstrip_slash String.[] = String.[]
rstrip_slash (String.◌∷◌ c s) =
    let rest = rstrip_slash s in if is_slash c && rest == "" then "" else String.◌∷◌ c rest

-- `text.lstrip("/")`
unfoldable pub lstrip_slash : String → String
unfolding is_slash
lstrip_slash String.[] = String.[]
lstrip_slash (String.◌∷◌ c s) =
    let rest = lstrip_slash s in if is_slash c then rest else String.◌∷◌ c s

unfoldable pub staged_intake : String → String → String
unfolding rstrip_slash lstrip_slash
staged_intake base path = rstrip_slash base <> "/" <> lstrip_slash path

unfoldable pub intake_new : String → String
unfolding rstrip_slash
intake_new base = rstrip_slash base <> "/review/intakes/new"

unfoldable pub decomposition_proposal : String → String → String
unfolding rstrip_slash
decomposition_proposal base id = rstrip_slash base <> "/review/decomposition-proposals/" <> id

unfoldable pub unit_page : String → String → String
unfolding rstrip_slash
unit_page base id = rstrip_slash base <> "/review/units/" <> id
