-- ===== src/Sharding/Election.antt =====
-- internal/election/LeaderService.java, for the instances of one job.
pub mod Leader
pub mod Block
use elastic_job_lite.Prelude.{
  ℕ, zero, suc, String, Bool, true, false, Option, none, some, List, [], ◌∷◌, ◌===◌, if◌then◌else◌,
  ◌&&◌, ◌||◌, not,
}
use elastic_job_lite.Registry.{word, Node, Mode, Registry}
use elastic_job_lite.Sharding.Service.{
  is_job_node_existed, remove_job_node_if_existed, is_available_server,
}

abbrev pub servers : Node
servers = word "servers" ∷ []

-- internal/election/LeaderNode.java
abbrev pub leader_instance : Node
leader_instance = word "leader" ∷ word "election" ∷ word "instance" ∷ []

module _ (R : Registry) where
  open R use {World, look, put, children}

  unfoldable pub has_leader : World → Bool
  has_leader = is_job_node_existed R leader_instance

  -- `isShutdown` is what the process of the instance knows of the job
  unfoldable pub is_leader : Bool → String → World → Bool
  is_leader is_shutdown id w =
      if is_shutdown
      then false
      else elim (look leader_instance w) [ none ↦ false | some d ↦ id === d ]

  -- `LeaderElectionExecutionCallback`, which runs while its instance holds the latch
  unfoldable pub execute : String → World → World
  unfolding has_leader
  execute id w = if has_leader w then w else put Mode.ephemeral leader_instance id w

  unfoldable pub remove_leader : World → World
  remove_leader = remove_job_node_if_existed R leader_instance

  -- the loop of `ServerService.hasAvailableServers`
  any_available : List String → World → Bool
  any_available [] w = false
  any_available (each ∷ ips) w = is_available_server R each w || any_available ips w

  unfoldable pub has_available_servers : World → Bool
  unfolding any_available
  has_available_servers w = any_available (children servers w) w

-- What a process knows of the job (`JobRegistry`), and the states to which others bring the registry
-- center while it sleeps and while it waits for the latch.
pub record Process (R : Registry) : Type 0 where
  pub is_shutdown : Bool
  pub job_instance_id : String
  pub ip : String
  pub waiting_short_time : R.World → R.World
  pub await_latch : R.World → R.World

module _ (R : Registry) (P : Process R) where
  open R use {World}

  unfoldable pub elect_leader : World → World
  unfolding execute
  elect_leader w = execute R P.job_instance_id (P.await_latch w)

  -- a round of the loop
  unfoldable pub round : World → World
  unfolding elect_leader
  round w =
      let v = P.waiting_short_time w in
      if not P.is_shutdown && is_available_server R P.ip v then elect_leader v else v

  -- `fuel` rounds at most; none is a loop that goes on
  unfoldable pub is_leader_until_block : ℕ → World → Option (World × Bool)
  unfolding has_leader has_available_servers round
  is_leader_until_block zero w = none
  is_leader_until_block (suc fuel) w =
      let rest = is_leader_until_block fuel (round w) in
      if not (has_leader R w) && has_available_servers R w
      then rest
      else some (w, is_leader R P.is_shutdown P.job_instance_id w)
