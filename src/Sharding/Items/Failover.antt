-- ===== src/Sharding/Items/Failover.antt =====
-- An item of a crashed instance passes to one that is idle.
use elastic_job_lite.Prelude.{
  ℕ, String, ◌≡◌, refl, ◌∙◌, true, false, Option, none, some, List, ◌∷◌, arith,
}
use elastic_job_lite.Registry.{ephemeral, Registry}
use elastic_job_lite.Sharding.Service.{is_job_node_existed, remove_job_node_if_existed}
use elastic_job_lite.Sharding.Service.Reset.{remove_self, remove_other}
use elastic_job_lite.Sharding.Items.{
  get_execution_failover_node, items_root, get_items_node, need_failover, set_crashed_failover_flag,
  execute,
}

module _ (R : Registry) (parse_int : String → Option ℕ) where
  open R use {World, look, put, children}

  -- An instance that is idle takes over the first item with a flag: the item's node names it, the flag
  -- is gone, and the job is triggered. While the item's node stands the item is not flagged again.
  pub execute-set_crashed_failover_flag :
      (i : ℕ) (id s : String) (ss : List String) (w : World)
      → need_failover R (false, w) ≡ true
      → children items_root w ≡ s ∷ ss
      → parse_int s ≡ some i
      → (v : World) × (execute R parse_int false id (false, w) ≡ some (v, true))
        × (look (get_execution_failover_node i) v ≡ some id)
        × (look (get_items_node i) v ≡ none)
        × (set_crashed_failover_flag R i v ≡ v)
  unfolding execute set_crashed_failover_flag is_job_node_existed
  execute-set_crashed_failover_flag i id s ss w need flags number =
      let w' = put ephemeral (get_execution_failover_node i) id w in
      let v = remove_job_node_if_existed R (get_items_node i) w' in
      let taken : look (get_execution_failover_node i) v ≡ some id =
        remove_other R (get_items_node i) (get_execution_failover_node i) w' refl
        ∙ R.look-put ephemeral (get_execution_failover_node i) id w in
      (
        v,
        rw (execute, need, flags, number) refl,
        taken,
        remove_self R (get_items_node i) w' (ground arith),
        rw (set_crashed_failover_flag, is_job_node_existed, taken) refl,
      )
