-- ===== src/Centers/Session.antt =====
-- restful/config/RegistryCenterRestfulApi.java, with what it keeps beside the configurations.
use elastic_job_lite.Prelude.{
  String, Bool, true, false, Option, none, some, List, get_elem?, if◌then◌else◌,
}
use elastic_job_lite.Centers.{RegistryCenterConfiguration, find, find_activated, load}

-- `attribute` is that of the session, `current` the static field of `SessionRegistryCenterConfiguration`,
-- to which the operations of the console go.
pub record Server : Type 0 where
  pub configs : List RegistryCenterConfiguration
  pub attribute : Option RegistryCenterConfiguration
  pub current : Option RegistryCenterConfiguration

-- `reachable` is whether the client of the registry center connects
unfoldable pub set_registry_center_name_to_session :
    (RegistryCenterConfiguration → Bool) → RegistryCenterConfiguration → Server → Server × Bool
set_registry_center_name_to_session reachable c s =
    if reachable c
    then (record s { attribute = some c; current = some c }, true)
    else (record s { attribute = some c }, false)

-- The answer; none is a `NullPointerException`, after which the session has no attribute.
unfoldable pub connect :
    (RegistryCenterConfiguration → Bool) → String → Server → Server × Option Bool
unfolding set_registry_center_name_to_session
connect reachable name s = elim (find name s.configs) [
  | none ↦ (record s { attribute = none }, none)
  | some i ↦ elim (get_elem? s.configs i) [
    | none ↦ (s, none)
    | some c ↦
        let (v, is_connected) = set_registry_center_name_to_session reachable c s in
        if is_connected
        then elim (load name v.configs) [
          | none ↦ (v, none)
          | some cs ↦ (record v { configs = cs }, some true)
        ]
        else (v, some false)
  ]
]

-- `load`: the state after it, of which it answers the configurations
unfoldable pub load_centers : (RegistryCenterConfiguration → Bool) → Server → Server
unfolding set_registry_center_name_to_session
load_centers reachable s = elim (find_activated s.configs) [
  | none ↦ s
  | some i ↦ elim (get_elem? s.configs i) [
    | none ↦ s
    | some c ↦ (set_registry_center_name_to_session reachable c s).0
  ]
]
