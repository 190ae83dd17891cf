-- ===== src/Sharding/Service/Offline.antt =====
-- What the reconciling of internal/reconcile/ReconcileService.java makes of items whose instance is gone.
use elastic_job_lite.Prelude.{
  ℕ, zero, suc, ◌+◌, ◌≤◌, ◌<◌, String, ◌≡◌, refl, ap, ◌∙◌, inl, inr, Bool, true, false, none, some,
  List, [], if◌then◌else◌, arith, Bool-cases, Option-cases,
}
use native.Mathlib.Decide.{ℕ_discrete}
use elastic_job_lite.Registry.{Registry}
use elastic_job_lite.Sharding.Service.{
  Strategy, get_instance_node, instances, necessary, is_job_node_existed, is_need_sharding,
  set_resharding_flag,
}
use elastic_job_lite.Sharding.Service.Reset.{Exists, create_self}
use elastic_job_lite.Sharding.Service.Run.{
  Peers, contains, offline_from, has_sharding_info_in_offline_servers, reconcile,
}

module _ (R : Registry) (P : Peers R) (strategies : String → Strategy) (job_name : List ℕ) where
  open R use {World, look, children}

  abbrev offline : List String → ℕ → World → Bool
  offline online i w = elim (look (get_instance_node i) w) [
    | none ↦ true
    | some d ↦ (if contains d online then false else true)
  ]

  offline_from_step :
      (online : List String) (i rounds : ℕ) (w : World)
      → offline_from R P strategies job_name online i (suc rounds) w ≡ (
          if offline online i w
          then true
          else offline_from R P strategies job_name online (i + 1) rounds w)
  unfolding offline_from
  offline_from_step online i rounds w = elim (Option-cases (look (get_instance_node i) w)) [
    | inl absent ↦ rw (offline_from, offline, absent) refl
    | inr (d, there) ↦ rw (offline_from, offline, there) (ground arith)
  ]

  -- The loop stops at an item that has no instance online.
  offline_from_hit :
      (online : List String) (i from rounds : ℕ) (w : World)
      → from ≤ i
      → i < from + rounds
      → offline online i w ≡ true
      → offline_from R P strategies job_name online from rounds w ≡ true
  offline_from_hit online i from zero w h below o = absurd (omega arith)
  offline_from_hit online i from (suc rounds) w h below o = elim (ℕ_discrete from i) [
    | yes e ↦ offline_from_step online from rounds w ∙ rw (ap (λ k. offline online k w) e ∙ o) refl
    | no ne ↦
        offline_from_step online from rounds w
        ∙ ground
            (arith, offline_from_hit online i (from + 1) rounds w (omega arith) (omega arith) o)
  ]

  offline_from_none :
      (online : List String) (from rounds : ℕ) (w : World)
      → ((i : ℕ) → i < from + rounds → offline online i w ≡ false)
      → offline_from R P strategies job_name online from rounds w ≡ false
  unfolding offline_from
  offline_from_none online from zero w h = refl
  offline_from_none online from (suc rounds) w h =
      offline_from_step online from rounds w
      ∙ ground (
        arith,
        h from (omega arith),
        offline_from_none online (from + 1) rounds w (λ i q. h i (omega arith)),
      )

  flag_set : (w : World) → Exists R [] w → is_need_sharding R (set_resharding_flag R w) ≡ true
  unfolding is_need_sharding set_resharding_flag is_job_node_existed
  flag_set w (r, root) =
      let (d, e) = create_self R necessary r w root in
      rw (is_need_sharding, is_job_node_existed, set_resharding_flag, e) refl

  offline_of_gone :
      (online : List String) (i : ℕ) (w : World)
      → ((s : String) → look (get_instance_node i) w ≡ some s → contains s online ≡ false)
      → offline online i w ≡ true
  offline_of_gone online i w gone = elim (Option-cases (look (get_instance_node i) w)) [
    | inl absent ↦ rw (offline, absent) refl
    | inr (d, there) ↦ rw (offline, there, gone d there) refl
  ]

  -- When the interval has passed and the registry center has an item without an instance that is
  -- online, the flag for a new sharding stands after the leader's reconciling, if the job's node
  -- stands.
  pub reconcile-is_need_sharding :
      (i : ℕ) (w : World)
      → P.is_leader (P.elect w) ≡ true
      → Exists R [] (P.elect w)
      → i < P.sharding_total_count (P.elect w)
      → ((s : String)
          → look (get_instance_node i) (P.elect w) ≡ some s
          → contains s (children instances (P.elect w)) ≡ false)
      → is_need_sharding R (reconcile R P strategies job_name w) ≡ true
  unfolding reconcile has_sharding_info_in_offline_servers
  reconcile-is_need_sharding i w leader root below gone =
      let v = P.elect w in
      let hit =
        offline_from_hit (children instances v) i 0 (P.sharding_total_count v) v (omega arith)
          (omega arith) (offline_of_gone (children instances v) i v gone) in
      elim (Bool-cases (is_need_sharding R v)) [
        | inl need ↦ rw (reconcile, leader, need) need
        | inr idle ↦ rw (reconcile, leader, idle, hit) (flag_set v root)
      ]

  -- When every item has an instance that is online, the reconciling changes nothing.
  pub reconcile-elect :
      (w : World)
      → ((i : ℕ)
          → i < P.sharding_total_count (P.elect w)
          → (s : String) × (look (get_instance_node i) (P.elect w) ≡ some s)
            × (contains s (children instances (P.elect w)) ≡ true))
      → reconcile R P strategies job_name w ≡ P.elect w
  unfolding reconcile has_sharding_info_in_offline_servers
  reconcile-elect w h =
      let v = P.elect w in
      let none_hit =
        offline_from_none (children instances v) 0 (P.sharding_total_count v) v
          (λ i below. let (s, e, c) = h i (omega arith) in rw (offline, e, c) refl) in
      rw (reconcile, none_hit) (ground arith)
