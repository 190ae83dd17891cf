-- ===== src/Sharding/Items/Marks.antt =====
-- The nodes by which the items are marked as running, missed or failed over.
use elastic_job_lite.Prelude.{
  ℕ, String, ◌≡◌, refl, ap, ◌∙◌, Bool, true, false, ◌||◌, none, some, List, [], ◌∷◌, ◌==◌,
  if◌then◌else◌, each, arith,
}
use native.Mathlib.Decide.{ℕ_discrete}
use text.Mathlib.TextPositions.{eq_refl}
use elastic_job_lite.Registry.{word, num, Node, ephemeral, Registry}
use elastic_job_lite.Sharding.Service.{
  is_job_node_existed, create_job_node_if_needed, remove_job_node_if_existed,
}
use elastic_job_lite.Sharding.Items.{existing}
use elastic_job_lite.Sharding.Service.Reset.{
  Exists, remove_self, remove_other, create_self, create_above, create_apart,
}

-- a node of an item
abbrev pub part : String → ℕ → Node
part x i = word "sharding" ∷ num i ∷ word x ∷ []

abbrev pub listed : ℕ → List ℕ → Bool
listed j [] = false
listed j (i ∷ is) = (i == j) || listed j is

module _ (R : Registry) where
  open R use {World, look, put}

  pub look-remove_parts :
      (x : String) (j : ℕ) (is : List ℕ) (w : World)
      → look (part x j) (each (λ i. remove_job_node_if_existed R (part x i)) is w)
        ≡ (if listed j is then none else look (part x j) w)
  look-remove_parts x j [] w = refl
  look-remove_parts x j (i ∷ is) w =
      look-remove_parts x j is (remove_job_node_if_existed R (part x i) w) ∙ elim (ℕ_discrete i j) [
        | yes e ↦ rw e (ground (arith, eq_refl x, remove_self R (part x j) w))
        | no ne ↦ ground (arith, remove_other R (part x i) (part x j) w)
      ]

  pub look-put_parts :
      (x : String) (j : ℕ) (is : List ℕ) (w : World)
      → look (part x j) (each (λ i. put ephemeral (part x i) "") is w)
        ≡ (if listed j is then some "" else look (part x j) w)
  look-put_parts x j [] w = refl
  look-put_parts x j (i ∷ is) w =
      look-put_parts x j is (put ephemeral (part x i) "" w) ∙ elim (ℕ_discrete i j) [
        | yes e ↦ rw e (ground (arith, R.look-put ephemeral (part x j) "" w))
        | no ne ↦ ground (arith, R.look-put_apart ephemeral (part x i) (part x j) "" w)
      ]

  pub root-put_parts :
      (x : String) (is : List ℕ) (w : World)
      → Exists R [] w
      → Exists R [] (each (λ i. put ephemeral (part x i) "") is w)
  root-put_parts x [] w r = r
  root-put_parts x (i ∷ is) w (r, root) =
      root-put_parts x is (put ephemeral (part x i) "" w)
        (r, R.look-put_above ephemeral (part x i) [] "" r w refl root)

  pub existed-create_parts :
      (x : String) (j : ℕ) (is : List ℕ) (w : World)
      → Exists R [] w
      → is_job_node_existed R (part x j) (each (λ i. create_job_node_if_needed R (part x i)) is w)
        ≡ listed j is || is_job_node_existed R (part x j) w
  unfolding is_job_node_existed
  existed-create_parts x j [] w r = refl
  existed-create_parts x j (i ∷ is) w (r, root) =
      existed-create_parts x j is (create_job_node_if_needed R (part x i) w)
        (r, create_above R (part x i) [] r w refl root)
      ∙ elim (ℕ_discrete i j) [
        | yes e ↦
            let (d, made) = create_self R (part x j) r w root in
            rw (e, is_job_node_existed, made) (ground arith)
        | no ne ↦
            rw
              (
                is_job_node_existed,
                create_apart R (part x i) (part x j) w (ground arith) (ground arith),
              )
              (ground arith)
      ]

  pub existing_all :
      (node : ℕ → Node) (js : List ℕ) (w : World)
      → ((j : ℕ) → listed j js ≡ true → is_job_node_existed R (node j) w ≡ true)
      → existing R node js w ≡ js
  unfolding existing
  existing_all node [] w h = refl
  existing_all node (j ∷ js) w h =
      let rest = existing_all node js w (λ k q. h k (ground arith)) in
      rw (h j (ground arith)) (ap (λ ks. j ∷ ks) rest)

  pub existing_none :
      (node : ℕ → Node) (js : List ℕ) (w : World)
      → ((j : ℕ) → listed j js ≡ true → is_job_node_existed R (node j) w ≡ false)
      → existing R node js w ≡ []
  unfolding existing
  existing_none node [] w h = refl
  existing_none node (j ∷ js) w h =
      rw (h j (ground arith)) (existing_none node js w (λ k q. h k (ground arith)))
