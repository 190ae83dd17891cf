-- ===== src/Sharding/Facade/Apart.antt =====
-- No item is run by two instances.
use elastic_job_lite.Prelude.{
  ℕ, String, ◌≡◌, refl, inl, inr, Bool, true, false, ◌&&◌, Option, some, List, ◌===◌, arith,
  Option-cases,
}
use text.Mathlib.TextEquality.{eq_iff}
use elastic_job_lite.Registry.{Node, Registry}
use elastic_job_lite.Sharding.Average.{JobInstance}
use elastic_job_lite.Sharding.Service.{
  Strategy, root, get_ip, get_instance_node, is_job_node_existed, is_need_sharding,
  get_available_job_instances,
}
use elastic_job_lite.Sharding.Service.Run.{Peers, Outcome, sharding_if_necessary}
use elastic_job_lite.Sharding.Items.{get_execution_failover_node}
use elastic_job_lite.Sharding.Items.Marks.{listed}
use elastic_job_lite.Sharding.Facade.{Local, Config, get_sharding_contexts}
use elastic_job_lite.Sharding.Facade.Named.{names_id, Numbers, may_run}
use elastic_job_lite.Sharding.Facade.Returns.{Returns, get_sharding_contexts-Returns}

module _ (R : Registry) where
  open R use {World, look, children}

  module _ (P : Peers R) (strategies : String → Strategy) (job_name : List ℕ) where
    module _ (parse_int : String → Option ℕ) (C : Config R) where
      one_name :
          (s t : String) (n : Node) (w : World)
          → (s === t) ≡ false
          → (names_id R s n w && names_id R t n w) ≡ false
      one_name s t n w h = elim (Option-cases (look n w)) [
        | inl free ↦ rw (names_id, free) refl
        | inr (d, there) ↦ rw (names_id, there) (ground (arith, eq_iff s d, eq_iff t d, eq_iff s t))
      ]

      named_is_there :
          (s : String) (n : Node) (w : World)
          → names_id R s n w ≡ true
          → is_job_node_existed R n w ≡ true
      unfolding is_job_node_existed
      named_is_there s n w h = elim (Option-cases (look n w)) [
        | inl free ↦
            (let none_there : names_id R s n w ≡ false = rw (names_id, free) refl in
              ground (arith, none_there))
        | inr (d, there) ↦ rw (is_job_node_existed, there) refl
      ]

      one_run :
          (is_failover : Bool) (s t : String) (k : ℕ) (w : World)
          → (s === t) ≡ false
          → (may_run R is_failover s k w && may_run R is_failover t k w) ≡ false
      one_run false s t k w h = one_name s t (get_instance_node k) w h
      one_run true s t k w h =
          let a = one_name s t (get_instance_node k) w h in
          let b = one_name s t (get_execution_failover_node k) w h in
          let c = named_is_there s (get_execution_failover_node k) w in
          let d = named_is_there t (get_execution_failover_node k) w in ground (arith, a, b, c, d)

      -- Two instances of different ids that read the same state, with nothing to be shared, each get their
      -- items, and no item is among those of both, whether failover is on or off. The nodes of the items
      -- are named by numbers, and the ids have an ip.
      pub listed-get_sharding_contexts :
          (l m : Local) (ip jp : String) (us : List JobInstance) (w : World)
          → Numbers parse_int (children root w)
          → get_ip l.instance ≡ some ip
          → get_ip m.instance ≡ some jp
          → (l.instance.job_instance_id === m.instance.job_instance_id) ≡ false
          → get_available_job_instances R w ≡ some us
          → is_need_sharding R w ≡ false
          → (is : List ℕ) × ((js : List ℕ) × (get_sharding_contexts R parse_int P strategies
                  job_name C l w
                ≡ some (w, is))
              × (get_sharding_contexts R parse_int P strategies job_name C m w ≡ some (w, js))
              × ((k : ℕ) → (listed k is && listed k js) ≡ false))
      unfolding sharding_if_necessary Returns
      listed-get_sharding_contexts l m ip jp us w n e e' apart available shared =
          let idle : sharding_if_necessary R P strategies job_name w ≡ (w, Outcome.idle) =
            rw (sharding_if_necessary, available, shared) refl in
          let (is, found, f) =
            get_sharding_contexts-Returns R P strategies job_name parse_int C l ip w n e idle in
          let (js, found', g) =
            get_sharding_contexts-Returns R P strategies job_name parse_int C m jp w n e' idle in
          (
            is,
            (
              js,
              found,
              found',
              λ k.
                  (let a = f k in
                    let b = g k in
                    let c =
                      one_run (C.is_failover w) l.instance.job_instance_id
                        m.instance.job_instance_id k w apart in
                    ground (arith, a, b, c)),
            ),
          )
