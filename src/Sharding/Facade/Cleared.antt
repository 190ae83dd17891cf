-- ===== src/Sharding/Facade/Cleared.antt =====
-- What switching failover off leaves: `removeFailoverInfo`.
use elastic_job_lite.Prelude.{
  ℕ, String, ◌≡◌, refl, true, Option, none, List, [], ◌∷◌, if◌then◌else◌, each,
}
use elastic_job_lite.Registry.{Registry}
use elastic_job_lite.Sharding.Service.{root, remove_job_node_if_existed}
use elastic_job_lite.Sharding.Items.{get_execution_failover_node}
use elastic_job_lite.Sharding.Items.Marks.{listed, look-remove_parts}
use elastic_job_lite.Sharding.Facade.{remove_failover_each, remove_failover_info}
use elastic_job_lite.Sharding.Facade.Named.{Numbers}

module _ (R : Registry) (parse_int : String → Option ℕ) where
  open R use {World, look, children}

  -- the numbers that name the nodes
  abbrev pub numbers : (items : List String) → Numbers parse_int items → List ℕ
  numbers [] n = []
  numbers (s ∷ items) ((i, e), n) = i ∷ numbers items n

  remove_failover_each-numbers :
      (items : List String) (n : Numbers parse_int items) (w : World)
      → remove_failover_each R parse_int items w ≡ (
        each
            (λ i. remove_job_node_if_existed R (get_execution_failover_node i))
            (numbers items n)
            w,
        true,
      )
  unfolding remove_failover_each
  remove_failover_each-numbers [] n w = refl
  remove_failover_each-numbers (s ∷ items) ((i, e), n) w =
      rw (remove_failover_each, e)
        (remove_failover_each-numbers items n
          (remove_job_node_if_existed R (get_execution_failover_node i) w))

  -- The items are named by numbers: then none of them is taken over any more, and this ends without an
  -- exception.
  look-remove_failover_info :
      (w : World) (n : Numbers parse_int (children root w))
      → (w' : World) × (remove_failover_info R parse_int w ≡ (w', true))
        × ((k : ℕ)
            → look (get_execution_failover_node k) w' ≡ (
                if listed k (numbers (children root w) n)
                then none
                else look (get_execution_failover_node k) w))
  unfolding remove_failover_info
  look-remove_failover_info w n = (
    each (λ i. remove_job_node_if_existed R (get_execution_failover_node i))
        (numbers (children root w) n) w,
    remove_failover_each-numbers (children root w) n w,
    λ k. look-remove_parts R "failover" k (numbers (children root w) n) w,
  )
