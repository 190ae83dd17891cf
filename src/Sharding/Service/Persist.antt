-- ===== src/Sharding/Service/Persist.antt =====
-- What the transaction of `PersistShardingInfoTransactionExecutionCallback` leaves.
use elastic_job_lite.Prelude.{
  ℕ, String, ◌≡◌, refl, sym, ap, ◌∙◌, false, Option, none, some, List, [], ◌∷◌, ◌++◌, ◌==◌,
  if◌then◌else◌, arith, All,
}
use native.Mathlib.Decide.{ℕ_discrete}
use elastic_job_lite.Registry.{Node, Op, create, same_node, Registry, commit}
use elastic_job_lite.Sharding.Average.{JobInstance, Shards}
use elastic_job_lite.Sharding.Service.{item_node, get_instance_node, create_items, create_all}

-- The items with the ids of their instances, in the order of the transaction.
abbrev pub items_of : String → List ℕ → List (ℕ × String)
items_of s [] = []
items_of s (i ∷ is) = (i, s) ∷ items_of s is

abbrev pub pairs : Shards → List (ℕ × String)
pairs [] = []
pairs ((u, is) ∷ m) = items_of u.job_instance_id is ++ pairs m

-- The first instance that has the item.
abbrev pub owner : ℕ → List (ℕ × String) → Option String
owner i [] = none
owner i ((j, s) ∷ ps) = if j == i then some s else owner i ps

abbrev pub creates : List (ℕ × String) → List Op
creates [] = []
creates ((i, s) ∷ ps) = create (get_instance_node i) s ∷ creates ps

-- no item twice
abbrev pub IsOnce : List (ℕ × String) → Type 0
IsOnce [] = Unit
IsOnce ((i, s) ∷ ps) = (owner i ps ≡ none) × IsOnce ps

-- the item's own owner, or else what the node held
abbrev pub held : Option String → Option String → Option String
held o d = elim o [ some s ↦ some s | none ↦ d ]

own_step :
    (i j : ℕ) (s : String) (ps : List (ℕ × String)) (d' d : Option String)
    → d' ≡ (if same_node (get_instance_node j) (get_instance_node i) then some s else d)
    → owner i ps ≡ none
    → held (owner j ps) d' ≡ held (owner j ((i, s) ∷ ps)) d
own_step i j s ps d' d e o = elim (ℕ_discrete i j) [
  | yes same ↦ rw (e, ← same, o) (ground arith)
  | no other ↦ rw e (ground arith)
]

module _ (R : Registry) where
  open R use {World, look}

  -- Every item of the list has its node and no instance yet.
  abbrev pub IsFree : World → List (ℕ × String) → Type 0
  IsFree w = All (λ p.
      (look (get_instance_node p.0) w ≡ none) × ((d : String) × (look (item_node p.0) w ≡ some d)))

  IsFree-create :
      (i : ℕ) (s : String) (ps : List (ℕ × String)) (w w' : World)
      → ((m : Node) → look m w' ≡ (if same_node m (get_instance_node i) then some s else look m w))
      → owner i ps ≡ none
      → IsFree w ps
      → IsFree w' ps
  IsFree-create i s [] w w' e o h = tt
  IsFree-create i s ((j, t) ∷ ps) w w' e o ((h, (d, g)), hs) = (
    (e (get_instance_node j) ∙ ground arith, (d, e (item_node j) ∙ ground arith)),
    IsFree-create i s ps w w' e (ground arith) hs,
  )

  -- Creating the nodes succeeds: each instance node holds the owner of its item, and the other nodes
  -- are as they were.
  pub commit-creates :
      (ps : List (ℕ × String)) (rest : List Op) (w : World)
      → IsFree w ps
      → IsOnce ps
      → (w' : World) × (commit R (creates ps ++ rest) w ≡ commit R rest w')
        × ((i : ℕ)
            → look (get_instance_node i) w' ≡ held (owner i ps) (look (get_instance_node i) w))
        × ((m : Node)
            → ((i : ℕ) → same_node m (get_instance_node i) ≡ false)
            → look m w' ≡ look m w)
  unfolding commit
  commit-creates [] rest w h o = (w, refl, λ i. refl, λ m q. refl)
  commit-creates ((i, s) ∷ ps) rest w ((h, (d, g)), hs) (o, os) =
      let (v, made, e) = R.apply-create (get_instance_node i) s d w h g in
      let (w', ran, own, same) = commit-creates ps rest v (IsFree-create i s ps w v e o hs) os in
      (
        w',
        rw made ran,
        λ j. own j ∙ own_step i j s ps _ _ (e (get_instance_node j)) o,
        λ m q. same m q ∙ e m ∙ rw (q i),
      )

-- The two ways to list the operations agree.
creates-append : (ps qs : List (ℕ × String)) → creates (ps ++ qs) ≡ creates ps ++ creates qs
creates-append [] qs = refl
creates-append ((i, s) ∷ ps) qs =
    ap (λ os. create (get_instance_node i) s ∷ os) (creates-append ps qs)

create_items_lem :
    (u : JobInstance) (is : List ℕ) → create_items u is ≡ creates (items_of u.job_instance_id is)
unfolding create_items
create_items_lem u [] = refl
create_items_lem u (i ∷ is) =
    ap (λ os. create (get_instance_node i) u.job_instance_id ∷ os) (create_items_lem u is)

pub create_all_lem : (m : Shards) → create_all m ≡ creates (pairs m)
unfolding create_all
create_all_lem [] = refl
create_all_lem ((u, is) ∷ m) =
    rw (create_items_lem u is, create_all_lem m)
      (sym (creates-append (items_of u.job_instance_id is) (pairs m)))
