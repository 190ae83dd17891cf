-- ===== src/Statistics/Jobs.antt =====
-- internal/statistics/JobStatisticsAPIImpl.java and domain/JobBriefInfo.java: the status of a job, and of
-- a job on one server.
use Prim.Native.Char.{code}
use elastic_job_lite.Prelude.{
  ℕ, ◌+◌, String, Bool, true, false, ◌&&◌, ◌||◌, not, none, some, List, [], ◌∷◌, length, ◌==◌,
  ◌===◌, if◌then◌else◌,
}
use elastic_job_lite.Registry.{word, Registry}
use elastic_job_lite.Sharding.Service.Run.{contains}
use elastic_job_lite.Operations.{
  get_server_node_path, server_node_path, get_instances_node_path, get_sharding_node_path,
}

pub data JobStatus : Type 0 where
  ok crashed disabled sharding_flag : JobStatus

abbrev pub name : JobStatus → String
name ok = "OK"
name crashed = "CRASHED"
name disabled = "DISABLED"
name sharding_flag = "SHARDING_FLAG"

-- `equalsIgnoreCase` with the text `DISABLED`: the code units that are one of its letters in upper case,
-- or are so in lower case. A dotless or dotted i and a long s are among them.
abbrev letter : ℕ → ℕ → ℕ → ℕ → ℕ → Bool
letter a b c d n = n == a || n == b || n == c || n == d

abbrev spells : String → List (ℕ → Bool) → Bool
spells String.[] [] = true
spells (String.◌∷◌ c s) (f ∷ fs) = f (code c) && spells s fs
spells _ _ = false

unfoldable pub is_disabled_text : String → Bool
is_disabled_text s = spells s (
    letter 68 100 68 68
    ∷ letter 73 105 304 305
    ∷ letter 83 115 383 383
    ∷ letter 65 97 65 65
    ∷ letter 66 98 66 66
    ∷ letter 76 108 76 76
    ∷ letter 69 101 69 69
    ∷ letter 68 100 68 68
    ∷ [])

unfoldable pub contains_all : List String → List String → Bool
unfolding contains
contains_all ids [] = true
contains_all ids (s ∷ ss) = contains s ids && contains_all ids ss

abbrev pub is_empty : List String → Bool
is_empty [] = true
is_empty (_ ∷ _) = false

module _ (R : Registry) where
  open R use {World, look, children}

  -- the loop of `isAllDisabled`
  unfoldable pub count_disabled : String → List String → World → ℕ
  count_disabled job [] w = 0
  count_disabled job (each ∷ ips) w =
      (elim (look (server_node_path job each) w) [
        | none ↦ 0
        | some d ↦ (if "DISABLED" === d then 1 else 0)
      ])
      + count_disabled job ips w

  unfoldable pub is_all_disabled : String → World → Bool
  unfolding count_disabled
  is_all_disabled job w =
      let ips = children (get_server_node_path job) w in count_disabled job ips w == length ips

  -- the set of `isHasShardingFlag`, as a list
  unfoldable pub sharding_instances : String → List String → World → List String
  sharding_instances job [] w = []
  sharding_instances job (each ∷ items) w =
      let rest = sharding_instances job items w in
      elim (look (get_sharding_node_path job each "instance") w) [
        | none ↦ rest
        | some id ↦ (if id === "" then rest else id ∷ rest)
      ]

  unfoldable pub is_has_sharding_flag : String → List String → World → Bool
  unfolding sharding_instances contains_all
  is_has_sharding_flag job instances w =
      let found = sharding_instances job (children (word job ∷ word "sharding" ∷ []) w) w in
      not (contains_all instances found) || is_empty found

  unfoldable pub get_job_status : String → World → JobStatus
  unfolding is_all_disabled is_has_sharding_flag
  get_job_status job w =
      let instances = children (get_instances_node_path job) w in
      if is_empty instances
      then crashed
      else if is_all_disabled job w
      then disabled
      else if is_has_sharding_flag job instances w
      then sharding_flag
      else ok

  unfoldable pub get_job_status_by_job_name_and_ip : String → String → World → JobStatus
  unfolding is_disabled_text
  get_job_status_by_job_name_and_ip job ip w = elim (look (server_node_path job ip) w) [
    | none ↦ ok
    | some status ↦ (if is_disabled_text status then disabled else ok)
  ]
