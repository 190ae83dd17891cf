-- ===== src/Operations.antt =====
-- What the operations of the console do to the registry center: internal/operate and internal/settings of
-- elastic-job-lite-lifecycle/src/main/java/io/elasticjob/lite/lifecycle, called by the classes of the REST
-- server. The name of a job, an ip and the id of an instance are one segment of a path each.
pub mod Servers
pub mod Instances
pub mod Seen
pub mod Misrouted
use Prim.Native.Char.{code}
use Prim.Native.String
use elastic_job_lite.Prelude.{
  ℕ, zero, suc, ◌+◌, ◌-◌, ◌*◌, String, Bool, true, false, ◌&&◌, Option, none, some, List, [], ◌∷◌,
  leb, ◌===◌, if◌then◌else◌, each, numeral_text,
}
use elastic_job_lite.Registry.{Segment, word, num, Node, Mode, Registry}
use elastic_job_lite.Rest

-- How a call ends, with the state that it leaves.
pub data Outcome (W : Type 0) : Type 0 where
  returned thrown : W → Outcome W

-- A call after another.
abbrev pub after : {W : Type 0} → Outcome W → (W → Outcome W) → Outcome W
after (returned w) f = f w
after (thrown w) f = thrown w

-- a loop whose body can throw
abbrev pub each_until : {W : Type 0} {A : Type 0} → (A → W → Outcome W) → List A → W → Outcome W
each_until body [] w = returned w
each_until body (x ∷ xs) w = after (body x w) (each_until body xs)

-- internal/storage/JobNodePath.java, below the root of the registry center
abbrev pub get_server_node_path : String → Node
get_server_node_path job = word job ∷ word "servers" ∷ []

abbrev pub server_node_path : String → String → Node
server_node_path job ip = word job ∷ word "servers" ∷ word ip ∷ []

abbrev pub get_instances_node_path : String → Node
get_instances_node_path job = word job ∷ word "instances" ∷ []

abbrev pub get_instance_node_path : String → String → Node
get_instance_node_path job id = word job ∷ word "instances" ∷ word id ∷ []

-- the number that a text writes, if it is the numeral of one
abbrev number_from : ℕ → String → ℕ
number_from n String.[] = n
number_from n (String.◌∷◌ c s) = number_from (n * 10 + (code c - 48)) s

abbrev pub segment_of : String → Segment
segment_of s = if numeral_text (number_from 0 s) === s then num (number_from 0 s) else word s

abbrev pub get_sharding_node_path : String → String → String → Node
get_sharding_node_path job item name = word job ∷ word "sharding" ∷ segment_of item ∷ word name ∷ []

-- whether a text is separators and nothing else: its fuel is its length
abbrev pub only_separators : ℕ → String → Bool
only_separators zero s = s === ""
only_separators (suc fuel) s =
    let rest = only_separators fuel (String.slice s 3 (String.len s)) in
    if s === "" then true else if String.slice s 0 3 === "@-@" then rest else false

-- `split("@-@")[0]`: what stands before the first separator, or the text itself. `split` drops the empty
-- texts at the end, so that of separators alone nothing is left to take.
unfoldable pub first_part : String → Option String
first_part s =
    let at = String.find s "@-@" in
    if s === ""
    then some ""
    else if only_separators (String.len s) s
    then none
    else if leb at (String.len s)
    then some (String.slice s 0 at)
    else some s

module _ (R : Registry) where
  open R use {World, look, children, put, remove}

  -- internal/operate/JobOperateAPIImpl.java
  unfoldable pub trigger : Option String → Option String → World → Outcome World
  trigger none ip w = returned w
  trigger (some job) ip w = returned (
      each (λ id. put Mode.persistent (get_instance_node_path job id) "TRIGGER")
        (children (get_instances_node_path job) w) w)

  unfoldable pub persist_disabled_or_enabled_job : String → String → Bool → World → World
  persist_disabled_or_enabled_job job ip disabled =
      if disabled
      then put Mode.persistent (server_node_path job ip) "DISABLED"
      else put Mode.persistent (server_node_path job ip) ""

  unfoldable pub is_existed : Node → World → Bool
  is_existed n w = elim (look n w) [ none ↦ false | some _ ↦ true ]

  -- the body of the loop over the jobs
  unfoldable pub disable_or_enable_at : String → Bool → String → World → World
  unfolding is_existed persist_disabled_or_enabled_job
  disable_or_enable_at ip disabled job w =
      if is_existed (server_node_path job ip) w
      then persist_disabled_or_enabled_job job ip disabled w
      else w

  unfoldable pub disable_or_enable_jobs :
      Option String → Option String → Bool → World → Outcome World
  unfolding persist_disabled_or_enabled_job disable_or_enable_at
  disable_or_enable_jobs (some job) (some ip) disabled w =
      returned (persist_disabled_or_enabled_job job ip disabled w)
  disable_or_enable_jobs (some job) none disabled w = returned (
      each
        (λ ip.
          if disabled
          then put Mode.persistent (server_node_path job ip) "DISABLED"
          else put Mode.persistent (server_node_path job ip) "")
        (children (get_server_node_path job) w) w)
  disable_or_enable_jobs none (some ip) disabled w =
      returned (each (disable_or_enable_at ip disabled) (children [] w) w)
  disable_or_enable_jobs none none disabled w = thrown w

  unfoldable pub disable : Option String → Option String → World → Outcome World
  unfolding disable_or_enable_jobs
  disable job ip = disable_or_enable_jobs job ip true

  unfoldable pub enable : Option String → Option String → World → Outcome World
  unfolding disable_or_enable_jobs
  enable job ip = disable_or_enable_jobs job ip false

  -- the body of the loop over the instances of a job
  unfoldable pub shutdown_at : String → String → String → World → Outcome World
  shutdown_at ip job id w = elim (first_part id) [
    | none ↦ thrown w
    | some part ↦
        (if ip === part then returned (remove (get_instance_node_path job id) w) else returned w)
  ]

  unfoldable pub shutdown_instances : String → String → World → Outcome World
  unfolding shutdown_at
  shutdown_instances ip job w =
      each_until (shutdown_at ip job) (children (get_instances_node_path job) w) w

  unfoldable pub shutdown : Option String → Option String → World → Outcome World
  unfolding shutdown_instances
  shutdown (some job) (some ip) w = shutdown_instances ip job w
  shutdown (some job) none w = returned (
      each (λ id. remove (get_instance_node_path job id)) (children (get_instances_node_path job) w)
        w)
  shutdown none (some ip) w = each_until (shutdown_instances ip) (children [] w) w
  shutdown none none w = thrown w

  -- what `remove` does after the shutdown
  unfoldable pub remove_servers : Option String → Option String → World → Outcome World
  remove_servers (some job) (some ip) w = returned (remove (server_node_path job ip) w)
  remove_servers (some job) none w =
      returned
        (each (λ ip. remove (server_node_path job ip)) (children (get_server_node_path job) w) w)
  remove_servers none (some ip) w =
      returned (each (λ job. remove (server_node_path job ip)) (children [] w) w)
  remove_servers none none w = returned w

  unfoldable pub remove_server : Option String → Option String → World → Outcome World
  unfolding shutdown remove_servers
  remove_server job ip w = after (shutdown job ip w) (remove_servers job ip)

  -- internal/operate/ShardingOperateAPIImpl.java
  unfoldable pub disable_or_enable_sharding : String → String → Bool → World → World
  disable_or_enable_sharding job item disabled =
      if disabled
      then put Mode.persistent (get_sharding_node_path job item "disabled") ""
      else remove (get_sharding_node_path job item "disabled")

  -- internal/settings/JobSettingsAPIImpl.java
  unfoldable pub remove_job_settings : String → World → World
  remove_job_settings job = remove (word job ∷ [])

  -- What the methods of the REST classes call. The other methods read, write the settings of a job or
  -- are about the registry centers and the data sources.
  unfoldable pub perform : Rest.Action → World → Option (Outcome World)
  unfolding trigger disable enable shutdown remove_server disable_or_enable_sharding
      remove_job_settings
  perform (Rest.trigger_job job) w = some (trigger (some job) none w)
  perform (Rest.disable_job job) w = some (disable (some job) none w)
  perform (Rest.enable_job job) w = some (enable (some job) none w)
  perform (Rest.shutdown_job job) w = some (shutdown (some job) none w)
  perform (Rest.disable_sharding job item) w =
      some (returned (disable_or_enable_sharding job item true w))
  perform (Rest.enable_sharding job item) w =
      some (returned (disable_or_enable_sharding job item false w))
  perform (Rest.disable_server ip) w = some (disable none (some ip) w)
  perform (Rest.enable_server ip) w = some (enable none (some ip) w)
  perform (Rest.shutdown_server ip) w = some (shutdown none (some ip) w)
  perform (Rest.remove_server ip) w = some (remove_server none (some ip) w)
  perform (Rest.disable_server_job ip job) w = some (disable (some job) (some ip) w)
  perform (Rest.enable_server_job ip job) w = some (enable (some job) (some ip) w)
  perform (Rest.shutdown_server_job ip job) w = some (shutdown (some job) (some ip) w)
  perform (Rest.remove_server_job ip job) w = some (remove_server (some job) (some ip) w)
  perform (Rest.remove_job job) w = some (returned (remove_job_settings job w))
  perform _ w = none
