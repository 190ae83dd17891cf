-- ===== src/Sharding/Service/Failed.antt =====
-- What a failing strategy leaves in the registry center.
use elastic_job_lite.Prelude.{ℕ, ◌<◌, String, ◌≡◌, refl, true, none, List, []}
use elastic_job_lite.Registry.{ephemeral, Registry}
use elastic_job_lite.Sharding.Average.{JobInstance}
use elastic_job_lite.Sharding.Service.{
  Strategy, get_strategy, get_instance_node, necessary, processing, is_job_node_existed,
  is_need_sharding, reset_sharding_info,
}
use elastic_job_lite.Sharding.Service.Reset.{Exists, reset_sharding_info_lem}
use elastic_job_lite.Sharding.Service.Flags.{
  IsFlagged, IsFlagged-reset, IsFlagged-put, IsFlagged-put_other,
}
use elastic_job_lite.Sharding.Service.Run.{Peers, Outcome, share}

module _ (R : Registry) (P : Peers R) (strategies : String → Strategy) (job_name : List ℕ) where
  open R use {World, look, put}

  -- When the strategy throws an exception, both flags stand afterwards, and no item of the job has an
  -- instance. It is assumed that the job's node and the flag stand, with nothing below the flag.
  pub share-failed :
      (us : List JobInstance) (w : World)
      → get_strategy strategies
          (P.job_sharding_strategy_class w)
          us
          job_name
          (P.sharding_total_count w)
        ≡ none
      → Exists R [] w
      → IsFlagged R necessary w
      → (v : World) × (share R P strategies job_name us w ≡ (v, Outcome.failed))
        × (is_need_sharding R v ≡ true)
        × (is_job_node_existed R processing v ≡ true)
        × ((i : ℕ) → i < P.sharding_total_count w → look (get_instance_node i) v ≡ none)
  unfolding share is_need_sharding is_job_node_existed
  share-failed us w thrown (r, h) flag =
      let total = P.sharding_total_count w in
      let w' = put ephemeral processing "" w in
      let r' : Exists R [] w' = (r, R.look-put_above ephemeral processing [] "" r w refl h) in
      let reset = (reset_sharding_info_lem R total w' r').0 in
      let ((d, e), below) =
        IsFlagged-reset R "necessary" total w' r' (IsFlagged-put_other R w flag) in
      let ((d', e'), below') = IsFlagged-reset R "processing" total w' r' (IsFlagged-put R w) in
      (
        reset_sharding_info R total w',
        rw (share, thrown) refl,
        rw (is_need_sharding, is_job_node_existed, e) refl,
        rw (is_job_node_existed, e') refl,
        λ i q. (reset i q).0,
      )
