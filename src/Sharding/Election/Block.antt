-- ===== src/Sharding/Election/Block.antt =====
-- The wait for a leader ends.
use elastic_job_lite.Prelude.{
  ℕ, suc, String, ◌≡◌, refl, ◌⊎◌, inl, inr, true, false, some, arith, Bool-cases, Option-cases,
}
use elastic_job_lite.Registry.{ephemeral, Registry}
use elastic_job_lite.Sharding.Service.{is_job_node_existed, is_available_server}
use elastic_job_lite.Sharding.Election.{
  Process, leader_instance, has_leader, has_available_servers, is_leader, execute, elect_leader,
  round, is_leader_until_block,
}

module _ (R : Registry) (P : Process R) where
  open R use {World, look}

  has_leader-execute : (id : String) (w : World) → has_leader R (execute R id w) ≡ true
  unfolding execute has_leader is_job_node_existed
  has_leader-execute id w = elim (Option-cases (look leader_instance w)) [
    | inl absent ↦
        rw
          (
            has_leader,
            is_job_node_existed,
            execute,
            absent,
            R.look-put ephemeral leader_instance id w,
          )
          refl
    | inr (d, there) ↦ rw (has_leader, is_job_node_existed, execute, there) (ground (arith, there))
  ]

  -- An instance that is not shut down, and whose server is available after the sleep, waits for at most
  -- one election, whatever the others do meanwhile: then there is a leader, or no server is available,
  -- and the answer says whether this instance is the leader.
  pub is_leader_until_block_lem :
      (fuel : ℕ) (w : World)
      → P.is_shutdown ≡ false
      → is_available_server R P.ip (P.waiting_short_time w) ≡ true
      → (v : World) × (is_leader_until_block R P (suc (suc fuel)) w
          ≡ some (v, is_leader R false P.job_instance_id v))
        × ((has_leader R v ≡ true) ⊎ (has_available_servers R v ≡ false))
  unfolding is_leader_until_block round elect_leader
  is_leader_until_block_lem fuel w up available = elim (Bool-cases (has_leader R w)) [
    | inl led ↦ (w, rw (led, up) refl, inl led)
    | inr vacant ↦ elim (Bool-cases (has_available_servers R w)) [
      | inr alone ↦ (w, rw (vacant, alone, up) refl, inr alone)
      | inl some_up ↦
          let v = elect_leader R P (P.waiting_short_time w) in
          let elected : round R P w ≡ v = rw (round, up, available) refl in
          let led : has_leader R v ≡ true =
            has_leader-execute P.job_instance_id (P.await_latch (P.waiting_short_time w)) in
          (v, rw (vacant, some_up, elected, led, up) refl, inl led)
    ]
  ]
