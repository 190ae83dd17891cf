-- ===== src/Sharding/Facade/Listed.antt =====
-- Which items are in the lists that the services make.
use elastic_job_lite.Prelude.{ℕ, ◌≡◌, refl, ◌∙◌, not, ◌&&◌, List, [], ◌∷◌, arith}
use native.Mathlib.Decide.{ℕ_discrete}
use elastic_job_lite.Registry.{Node, Registry}
use elastic_job_lite.Sharding.Service.{is_job_node_existed}
use elastic_job_lite.Sharding.Items.{existing}
use elastic_job_lite.Sharding.Items.Marks.{listed}
use elastic_job_lite.Sharding.Facade.{insert, sort, remove_all}

listed-insert : (k i : ℕ) (is : List ℕ) → listed k (insert i is) ≡ listed k (i ∷ is)
unfolding insert
listed-insert k i [] = refl
listed-insert k i (j ∷ js) = let rest = listed-insert k i js in ground (arith, rest)

pub listed-sort : (k : ℕ) (is : List ℕ) → listed k (sort is) ≡ listed k is
unfolding sort
listed-sort k [] = refl
listed-sort k (i ∷ is) = listed-insert k i (sort is) ∙ rw (listed-sort k is) refl

pub listed-remove_all :
    (k : ℕ) (is js : List ℕ) → listed k (remove_all is js) ≡ (listed k is && not (listed k js))
unfolding remove_all
listed-remove_all k [] js = refl
listed-remove_all k (i ∷ is) js =
    let rest = listed-remove_all k is js in
    elim (ℕ_discrete i k) [ yes e ↦ rw e (ground (arith, rest)) | no ne ↦ ground (arith, rest) ]

module _ (R : Registry) where
  open R use {World, look, children}

  pub listed-existing :
      (k : ℕ) (node : ℕ → Node) (is : List ℕ) (w : World)
      → listed k (existing R node is w) ≡ (listed k is && is_job_node_existed R (node k) w)
  unfolding existing
  listed-existing k node [] w = refl
  listed-existing k node (i ∷ is) w =
      let rest = listed-existing k node is w in
      elim (ℕ_discrete i k) [ yes e ↦ rw e (ground (arith, rest)) | no ne ↦ ground (arith, rest) ]
