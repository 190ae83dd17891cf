-- ===== src/Sharding/Facade/Named.antt =====
-- The items whose nodes name an instance.
use elastic_job_lite.Prelude.{
  ℕ, zero, suc, ◌+◌, String, ◌≡◌, refl, ap, sym, ◌∙◌, inl, inr, Bool, true, false, not, ◌&&◌, ◌||◌,
  Option, none, some, List, [], ◌∷◌, ◌===◌, if◌then◌else◌, arith, All, Bool-cases, Option-cases,
}
use native.Mathlib.Decide.{ℕ_discrete}
use elastic_job_lite.Registry.{Node, Registry}
use elastic_job_lite.Sharding.Service.{Strategy, get_instance_node, is_job_node_existed}
use elastic_job_lite.Sharding.Service.Run.{Peers, items_from}
use elastic_job_lite.Sharding.Items.{get_execution_failover_node}
use elastic_job_lite.Sharding.Items.Marks.{listed}
use elastic_job_lite.Sharding.Facade.{failover_from}

-- the names of the children are numbers
abbrev pub Numbers : (String → Option ℕ) → List String → Type 0
Numbers parse_int items = All (λ s. (i : ℕ) × (parse_int s ≡ some i)) items

module _ (R : Registry) where
  open R use {World, look, children}

  -- the node says that the instance has the item
  abbrev pub names_id : String → Node → World → Bool
  names_id id n w = elim (look n w) [ none ↦ false | some d ↦ id === d ]

  -- a list of items whose nodes name an instance
  abbrev pub Named : String → (ℕ → Node) → World → List ℕ → Type 0
  Named id node w is = (k : ℕ) → listed k is ≡ true → names_id id (node k) w ≡ true

  -- what an item's nodes say when an instance runs it
  abbrev pub may_run : Bool → String → ℕ → World → Bool
  may_run is_failover id k w =
      if is_failover
      then names_id id (get_execution_failover_node k) w
        || (names_id id (get_instance_node k) w
            && not (is_job_node_existed R (get_execution_failover_node k) w))
      else names_id id (get_instance_node k) w

  one_more :
      (id : String) (node : ℕ → Node) (w : World) (i : ℕ) (is : List ℕ)
      → names_id id (node i) w ≡ true
      → Named id node w is
      → Named id node w (i ∷ is)
  one_more id node w i is h f k l = elim (ℕ_discrete i k) [
    | yes e ↦ ap (λ j. names_id id (node j) w) (sym e) ∙ h
    | no ne ↦ f k (ground arith)
  ]

  pub failover_from-returns :
      (parse_int : String → Option ℕ) (id : String) (items : List String) (w : World)
      → Numbers parse_int items
      → (is : List ℕ) × (failover_from R parse_int id items w ≡ some is)
        × Named id get_execution_failover_node w is
  unfolding failover_from
  failover_from-returns parse_int id [] w n = ([], refl, λ k h. ground arith)
  failover_from-returns parse_int id (each ∷ items) w ((i, number), n) =
      let (is, e, f) = failover_from-returns parse_int id items w n in
      elim (Option-cases (look (get_execution_failover_node i) w)) [
        | inl free ↦ (is, rw (failover_from, number, free) e, f)
        | inr (d, there) ↦ elim (Bool-cases (id === d)) [
          | inl mine ↦ (
            i ∷ is,
            rw (failover_from, number, there, mine, e) refl,
            one_more id get_execution_failover_node w i is (rw (names_id, there) mine) f,
          )
          | inr other ↦ (is, rw (failover_from, number, there, other) e, f)
        ]
      ]

  module _ (P : Peers R) (strategies : String → Strategy) (job_name : List ℕ) where
    pub items_from-Named :
        (id : String) (from rounds : ℕ) (w : World)
        → Named id get_instance_node w (items_from R P strategies job_name id from rounds w)
    unfolding items_from
    items_from-Named id from zero w = λ k h. ground arith
    items_from-Named id from (suc rounds) w =
        let f = items_from-Named id (from + 1) rounds w in
        elim (Option-cases (look (get_instance_node from) w)) [
          | inl free ↦ rw (items_from, free) f
          | inr (d, there) ↦ elim (Bool-cases (id === d)) [
            | inl mine ↦
                rw (items_from, there, mine)
                  (one_more id get_instance_node w from
                    (items_from R P strategies job_name id (from + 1) rounds w)
                    (rw (names_id, there) mine) f)
            | inr other ↦ rw (items_from, there, other) f
          ]
        ]
