-- ===== src/Tests/Centers.antt =====
-- Runs of the registry centers of the console's server.
use elastic_job_lite.Prelude.{
  String, ◌≡◌, ◌≢◌, ◌↔◌, refl, Bool, true, false, some, none, [], ◌∷◌, map,
}
use elastic_job_lite.Util.Dashboard.{activated_name, is_connected}
use elastic_job_lite.Centers.{RegistryCenterConfiguration, shown, add, find, find_activated, load}
use mathlib.Core.Path.{subst}
use elastic_job_lite.Centers.Session.{Server, connect, load_centers}
use elastic_job_lite.Centers.Shown.{
  Reached, nothing, added, connected, listed, is_connected-connect,
}

abbrev center : String → Bool → RegistryCenterConfiguration
center n b = record {
  name = n;
  zk_address_list = "localhost:2181";
  namespace = none;
  digest = none;
  activated = b;
}

abbrev asked : String
asked = "b"

abbrev always : RegistryCenterConfiguration → Bool
always c = true

-- two centers are added, then the first one is connected and listed
abbrev empty : Server
empty = record { configs = []; attribute = none; current = none }

abbrev two : Server
two = record empty { configs = center "a" false ∷ center "b" false ∷ [] }

abbrev first : Server
first = record {
  configs = center "a" true ∷ center "b" false ∷ [];
  attribute = some (center "a" true);
  current = some (center "a" true);
}

two-Reached : Reached always two
unfolding add
two-Reached = added (center "b" false) refl (added (center "a" false) refl nothing)

first_lem : load_centers always (connect always "a" two).0 ≡ first
unfolding connect load_centers find load find_activated
first_lem = refl

first-Reached : Reached always first
first-Reached = subst (Reached always) first_lem (listed (connected "a" two-Reached))

abbrev last : Server
last = record {
  configs = center "a" false ∷ center "b" true ∷ [];
  attribute = some (center "b" false);
  current = some (center "b" false);
}

connect_b : connect always asked first ≡ (last, some true)
unfolding connect find load
connect_b = refl

is_connected-connect_example :
    ((c : RegistryCenterConfiguration) × (last.current ≡ some c) × (c.name ≡ asked))
    × ((is_connected (activated_name (map shown last.configs)) asked ≡ true)
        ↔ ((asked ≡ asked) × (asked ≢ "")))
is_connected-connect_example =
    is_connected-connect always first last asked asked first-Reached connect_b
