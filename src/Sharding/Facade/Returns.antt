-- ===== src/Sharding/Facade/Returns.antt =====
-- A run that finds nothing to share gets its items, and what the nodes of these say.
use elastic_job_lite.Prelude.{
  ℕ, String, ◌≡◌, refl, sym, ◌∙◌, inl, inr, Bool, true, false, Option, some, List, [], ◌∷◌, arith,
  Bool-cases,
}
use elastic_job_lite.Registry.{Registry}
use elastic_job_lite.Sharding.Service.{
  Strategy, root, get_ip, get_instance_node, is_available_server,
}
use elastic_job_lite.Sharding.Service.Run.{
  Peers, Outcome, items_from, sharding_if_necessary, get_sharding_items,
}
use elastic_job_lite.Sharding.Items.{
  get_running_node, get_execution_failover_node, existing, get_disabled_items,
}
use elastic_job_lite.Sharding.Items.Marks.{listed}
use elastic_job_lite.Sharding.Facade.{
  Local, Config, sort, remove_all, get_failover_items, get_local_failover_items,
  get_local_sharding_items, get_local_take_off_items, remove_running_if_monitor_execution,
  get_job_sharding_context, own_items, after_sharding, failover_or, get_sharding_contexts,
}
use elastic_job_lite.Sharding.Facade.Listed.{listed-sort, listed-remove_all, listed-existing}
use elastic_job_lite.Sharding.Facade.Named.{
  Numbers, Named, may_run, failover_from-returns, items_from-Named,
}

module _ (R : Registry) where
  open R use {World, look, children}

  module _ (P : Peers R) (strategies : String → Strategy) (job_name : List ℕ) where
    module _ (parse_int : String → Option ℕ) (C : Config R) where
      get_local_sharding_items-returns :
          (l : Local) (ip : String) (w : World)
          → get_ip l.instance ≡ some ip
          → (is : List ℕ) × (get_local_sharding_items R parse_int P strategies job_name C l w
              ≡ some is)
            × Named R l.instance.job_instance_id get_instance_node w is
      unfolding get_local_sharding_items get_sharding_items
      get_local_sharding_items-returns l ip w e = elim (Bool-cases l.is_shutdown) [
        | inl shut ↦ ([], rw shut refl, λ k h. ground arith)
        | inr up ↦ elim (Bool-cases (is_available_server R ip w)) [
          | inl there ↦ (
            items_from R P strategies job_name l.instance.job_instance_id 0
                (P.sharding_total_count w) w,
            rw (get_local_sharding_items, up, e, there) (rw (get_sharding_items, e, there) refl),
            items_from-Named R P strategies job_name l.instance.job_instance_id 0
                (P.sharding_total_count w) w,
          )
          | inr gone ↦ ([], rw (get_local_sharding_items, up, e, gone) refl, λ k h. ground arith)
        ]
      ]

      listed_context :
          (k : ℕ) (is : List ℕ) (w : World)
          → listed k (get_job_sharding_context R parse_int P strategies job_name C is w) ≡ true
          → listed k is ≡ true
      unfolding get_job_sharding_context remove_running_if_monitor_execution
      listed_context k is w h =
          let rest = listed-remove_all k is (existing R get_running_node is w) in
          ground (arith, rest)

      own_items-returns :
          (is_failover : Bool) (l : Local) (ip : String) (w : World)
          → get_ip l.instance ≡ some ip
          → (is : List ℕ) × (own_items R parse_int P strategies job_name C is_failover l w
              ≡ some is)
            × ((k : ℕ)
                → listed k is ≡ true
                → may_run R is_failover l.instance.job_instance_id k w ≡ true)
      unfolding own_items get_local_take_off_items get_disabled_items
      own_items-returns true l ip w e =
          let (items, found, f) = get_local_sharding_items-returns l ip w e in
          let taken = existing R get_execution_failover_node items w in
          let kept = remove_all items taken in
          let enabled = remove_all kept (get_disabled_items R kept w) in
          (
            get_job_sharding_context R parse_int P strategies job_name C enabled w,
            rw (own_items, found, get_local_take_off_items, found) refl,
            λ k h.
                (let a = listed_context k enabled w h in
                  let b = listed-remove_all k kept (get_disabled_items R kept w) in
                  let c = listed-remove_all k items taken in
                  let d = listed-existing R k get_execution_failover_node items w in
                  let there : listed k items ≡ true = ground (arith, a, b, c) in
                  let g = f k there in ground (arith, a, b, c, d, there, g)),
          )
      own_items-returns false l ip w e =
          let (items, found, f) = get_local_sharding_items-returns l ip w e in
          let kept = remove_all items [] in
          let enabled = remove_all kept (get_disabled_items R kept w) in
          (
            get_job_sharding_context R parse_int P strategies job_name C enabled w,
            rw (own_items, found) refl,
            λ k h.
                (let a = listed_context k enabled w h in
                  let b = listed-remove_all k kept (get_disabled_items R kept w) in
                  let c = listed-remove_all k items [] in f k (ground (arith, a, b, c))),
          )

      -- A run that finds nothing to share returns, and leaves the state as it is.
      unfoldable pub Returns : Bool → Local → World → Option (World × List ℕ) → Type 0
      Returns is_failover l w o =
          (is : List ℕ) × (o ≡ some (w, is))
          × ((k : ℕ)
              → listed k is ≡ true
              → may_run R is_failover l.instance.job_instance_id k w ≡ true)

      after_sharding-Returns :
          (is_failover : Bool) (l : Local) (ip : String) (w : World)
          → get_ip l.instance ≡ some ip
          → Returns is_failover l w
              (after_sharding R parse_int P strategies job_name C is_failover l (w, Outcome.idle))
      unfolding after_sharding Returns
      after_sharding-Returns is_failover l ip w e =
          let (is, found, f) = own_items-returns is_failover l ip w e in (is, rw found refl, f)

      failover_first :
          (failovers : List ℕ) (l : Local) (w : World) (own : Option (World × List ℕ))
          → Named R l.instance.job_instance_id get_execution_failover_node w failovers
          → Returns true l w own
          → Returns true l w
              (failover_or R parse_int P strategies job_name C w own (some failovers))
      unfolding Returns failover_or
      failover_first [] l w own f r = r
      failover_first (i ∷ is) l w own f r = (
        get_job_sharding_context R parse_int P strategies job_name C (i ∷ is) w,
        refl,
        λ k h. (let g = f k (listed_context k (i ∷ is) w h) in ground (arith, g)),
      )

      get_local_failover_items-returns :
          (l : Local) (w : World)
          → Numbers parse_int (children root w)
          → (is : List ℕ) × (get_local_failover_items R parse_int l w ≡ some is)
            × Named R l.instance.job_instance_id get_execution_failover_node w is
      unfolding get_local_failover_items get_failover_items
      get_local_failover_items-returns l w n = elim (Bool-cases l.is_shutdown) [
        | inl shut ↦ ([], rw shut refl, λ k h. ground arith)
        | inr up ↦
            let (is, e, f) =
              failover_from-returns R parse_int l.instance.job_instance_id (children root w) w n in
            (
              sort is,
              rw (get_local_failover_items, up, get_failover_items, e) refl,
              λ k h. f k (sym (listed-sort k is) ∙ h),
            )
      ]

      pub get_sharding_contexts-Returns :
          (l : Local) (ip : String) (w : World)
          → Numbers parse_int (children root w)
          → get_ip l.instance ≡ some ip
          → sharding_if_necessary R P strategies job_name w ≡ (w, Outcome.idle)
          → Returns
              (C.is_failover w)
              l
              w
              (get_sharding_contexts R parse_int P strategies job_name C l w)
      unfolding get_sharding_contexts
      get_sharding_contexts-Returns l ip w n e idle = elim (Bool-cases (C.is_failover w)) [
        | inl on ↦
            let (is, found, f) = get_local_failover_items-returns l w n in
            let own = after_sharding R parse_int P strategies job_name C true l (w, Outcome.idle) in
            rw (get_sharding_contexts, on, idle, found)
              (failover_first is l w own f (after_sharding-Returns true l ip w e))
        | inr off ↦ rw (get_sharding_contexts, off, idle) (after_sharding-Returns false l ip w e)
      ]
