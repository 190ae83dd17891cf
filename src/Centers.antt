-- ===== src/Centers.antt =====
-- service/impl/RegistryCenterConfigurationServiceImpl.java of the console's server, below
-- elastic-job-lite-console/src/main/java/io/elasticjob/lite/console. A configuration is an object of its list: two of them
-- are equal if they stand at the same place.
pub mod Session
pub mod Activated
pub mod Shown
use elastic_job_lite.Prelude.{
  ℕ, zero, suc, String, Bool, true, false, Option, none, some, List, [], ◌∷◌, ◌++◌, ◌===◌, ◌==◌,
  if◌then◌else◌, get_elem?,
}
use mathlib.Core.Option
use elastic_job_lite.Browser.Closures.{Center}

pub record RegistryCenterConfiguration : Type 0 where
  pub name : String
  pub zk_address_list : String
  pub namespace : Option String
  pub digest : Option String
  pub activated : Bool

-- what the scripts read of it
abbrev pub shown : RegistryCenterConfiguration → Center
shown c = record { name = c.name; activated = c.activated }

-- The place of the first configuration of the name.
unfoldable pub find : String → List RegistryCenterConfiguration → Option ℕ
find name [] = none
find name (each ∷ configs) =
    let rest = find name configs in if name === each.name then some 0 else Option.map suc rest

unfoldable pub find_activated : List RegistryCenterConfiguration → Option ℕ
find_activated [] = none
find_activated (each ∷ configs) =
    let rest = find_activated configs in if each.activated then some 0 else Option.map suc rest

-- `setActivated` of the object at a place
unfoldable pub mark : ℕ → Bool → List RegistryCenterConfiguration → List RegistryCenterConfiguration
mark i b [] = []
mark zero b (c ∷ cs) =
    record {
      name = c.name;
      zk_address_list = c.zk_address_list;
      namespace = c.namespace;
      digest = c.digest;
      activated = b;
    }
    ∷ cs
mark (suc i) b (c ∷ cs) = c ∷ mark i b cs

unfoldable pub set_activated :
    ℕ → List RegistryCenterConfiguration → List RegistryCenterConfiguration
unfolding mark find_activated
set_activated i configs = elim (find_activated configs) [
  | none ↦ mark i true configs
  | some j ↦ (if i == j then configs else mark i true (mark j false configs))
]

-- none is a `NullPointerException`
unfoldable pub load :
    String → List RegistryCenterConfiguration → Option (List RegistryCenterConfiguration)
unfolding find set_activated
load name configs = Option.map (λ i. set_activated i configs) (find name configs)

unfoldable pub add :
    RegistryCenterConfiguration
    → List RegistryCenterConfiguration
    → List RegistryCenterConfiguration
add config configs = configs ++ config ∷ []

unfoldable pub remove_at : ℕ → List RegistryCenterConfiguration → List RegistryCenterConfiguration
remove_at i [] = []
remove_at zero (c ∷ cs) = cs
remove_at (suc i) (c ∷ cs) = c ∷ remove_at i cs

unfoldable pub delete : String → List RegistryCenterConfiguration → List RegistryCenterConfiguration
unfolding find remove_at
delete name configs = elim (find name configs) [ none ↦ configs | some i ↦ remove_at i configs ]
