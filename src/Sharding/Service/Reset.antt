-- ===== src/Sharding/Service/Reset.antt =====
-- What `resetShardingInfo` leaves: every item has its node, and no instance.
use elastic_job_lite.Prelude.{
  ℕ, zero, suc, ◌+◌, ◌-◌, ◌≤◌, ◌<◌, String, ◌≡◌, ◌≢◌, refl, ◌∙◌, inl, inr, true, false, none, some,
  [], ltb, length, arith, Bool-cases, Option-cases,
}
use mathlib.Core.Path.{subst}
use native.Mathlib.Decide.{ℕ_discrete}
use native.Mathlib.Nat.{add-zero}
use elastic_job_lite.Registry.{Node, persistent, is_under, same_node, Registry}
use elastic_job_lite.Sharding.Service.{
  root, item_node, get_instance_node, is_job_node_existed, create_job_node_if_needed,
  remove_job_node_if_existed, reset_each, remove_each, reset_sharding_info,
}

module _ (R : Registry) where
  open R use {World, look, put, remove, children}

  pub remove_self :
      (n : Node) (w : World)
      → is_under n n ≡ true
      → look n (remove_job_node_if_existed R n w) ≡ none
  unfolding remove_job_node_if_existed is_job_node_existed
  remove_self n w h = ground (arith, R.look-remove n n w, h)

  pub remove_other :
      (n m : Node) (w : World)
      → is_under n m ≡ false
      → look m (remove_job_node_if_existed R n w) ≡ look m w
  unfolding remove_job_node_if_existed is_job_node_existed
  remove_other n m w h = ground (arith, R.look-remove n m w, h)

  pub create_self :
      (n : Node) (r : String) (w : World)
      → look [] w ≡ some r
      → (d : String) × (look n (create_job_node_if_needed R n w) ≡ some d)
  unfolding create_job_node_if_needed is_job_node_existed
  create_self n r w h = elim (Option-cases (look n w)) [
    | inl absent ↦ ("", ground (arith, h, absent, R.look-put persistent n "" w))
    | inr (d, there) ↦ (d, ground (arith, h, there))
  ]

  pub create_apart :
      (n m : Node) (w : World)
      → is_under m n ≡ false
      → is_under n m ≡ false
      → look m (create_job_node_if_needed R n w) ≡ look m w
  unfolding create_job_node_if_needed is_job_node_existed
  create_apart n m w h g = ground (arith, R.look-put_apart persistent n m "" w h g)

  pub create_above :
      (n m : Node) (d : String) (w : World)
      → is_under n m ≡ false
      → look m w ≡ some d
      → look m (create_job_node_if_needed R n w) ≡ some d
  unfolding create_job_node_if_needed is_job_node_existed
  create_above n m d w g e = ground (arith, R.look-put_above persistent n m "" d w g e)

  create_below :
      (n m : Node) (w : World)
      → is_under n m ≡ true
      → same_node m n ≡ false
      → look m (create_job_node_if_needed R n w) ≡ look m w
  unfolding create_job_node_if_needed is_job_node_existed
  create_below n m w g e = ground (arith, R.look-put_below persistent n m "" w g e)

  abbrev pub Exists : Node → World → Type 0
  Exists n w = (d : String) × (look n w ≡ some d)

  -- one round
  abbrev reset_one : ℕ → World → World
  reset_one k w =
      create_job_node_if_needed R (item_node k)
        (remove_job_node_if_existed R (get_instance_node k) w)

  reset_one-root : (k : ℕ) (w : World) → Exists [] w → Exists [] (reset_one k w)
  reset_one-root k w (r, h) =
      (r, create_above (item_node k) [] r _ refl (remove_other (get_instance_node k) [] w refl ∙ h))

  reset_one-instance_self : (k : ℕ) (w : World) → look (get_instance_node k) (reset_one k w) ≡ none
  reset_one-instance_self k w =
      create_below (item_node k) (get_instance_node k) _ (ground arith) (ground arith)
      ∙ remove_self (get_instance_node k) w (ground arith)

  reset_one-instance_other :
      (k j : ℕ) (w : World)
      → k ≢ j
      → look (get_instance_node j) (reset_one k w) ≡ look (get_instance_node j) w
  reset_one-instance_other k j w ne =
      create_apart (item_node k) (get_instance_node j) _ (ground arith) (ground arith)
      ∙ remove_other (get_instance_node k) (get_instance_node j) w (ground arith)

  reset_one-item_self : (k : ℕ) (w : World) → Exists [] w → Exists (item_node k) (reset_one k w)
  reset_one-item_self k w (r, h) =
      create_self (item_node k) r _ (remove_other (get_instance_node k) [] w refl ∙ h)

  reset_one-item_other :
      (k j : ℕ) (w : World) → k ≢ j → look (item_node j) (reset_one k w) ≡ look (item_node j) w
  reset_one-item_other k j w ne =
      create_apart (item_node k) (item_node j) _ (ground arith) (ground arith)
      ∙ remove_other (get_instance_node k) (item_node j) w (ground arith)

  -- Before item `i` the items have their nodes and no instances.
  abbrev pub IsReset : ℕ → World → Type 0
  IsReset i w = (j : ℕ) → j < i → (look (get_instance_node j) w ≡ none) × Exists (item_node j) w

  reset_one-IsReset :
      (i : ℕ) (w : World) → Exists [] w → IsReset i w → IsReset (suc i) (reset_one i w)
  reset_one-IsReset i w r h j below = elim (ℕ_discrete i j) [
    | yes e ↦
        subst
          (λ k.
            (look (get_instance_node k) (reset_one i w) ≡ none)
            × Exists (item_node k) (reset_one i w))
          e (reset_one-instance_self i w, reset_one-item_self i w r)
    | no ne ↦
        let old = h j (omega arith) in
        (
          reset_one-instance_other i j w ne ∙ old.0,
          (old.1.0, reset_one-item_other i j w ne ∙ old.1.1),
        )
  ]

  -- A node of another part of the tree.
  abbrev pub Elsewhere : Node → Type 0
  Elsewhere m =
      (j : ℕ)
      → (is_under m (item_node j) ≡ false)
        × (is_under (item_node j) m ≡ false)
        × (is_under (get_instance_node j) m ≡ false)

  reset_one-Elsewhere :
      (k : ℕ) (m : Node) (w : World) → Elsewhere m → look m (reset_one k w) ≡ look m w
  reset_one-Elsewhere k m w q =
      create_apart (item_node k) m _ (q k).0 (q k).1
      ∙ remove_other (get_instance_node k) m w (q k).2

  pub reset_each_lem :
      (i rounds : ℕ) (w : World)
      → Exists [] w
      → IsReset i w
      → Exists [] (reset_each R i rounds w)
        × IsReset (i + rounds) (reset_each R i rounds w)
        × ((m : Node) → Elsewhere m → look m (reset_each R i rounds w) ≡ look m w)
  unfolding reset_each
  reset_each_lem i zero w r h = (r, rw add-zero h, λ m q. refl)
  reset_each_lem i (suc rounds) w r h =
      let first : IsReset (i + 1) (reset_one i w) =
        λ j below. reset_one-IsReset i w r h j (omega arith) in
      let (r', h', same) =
        reset_each_lem (i + 1) rounds (reset_one i w) (reset_one-root i w r) first in
      (r', λ j below. h' j (omega arith), λ m q. same m q ∙ reset_one-Elsewhere i m w q)

  pub remove_each_lem :
      (i rounds : ℕ) (m : Node) (w : World)
      → ((k : ℕ) → i ≤ k → is_under (item_node k) m ≡ false)
      → look m (remove_each R i rounds w) ≡ look m w
  unfolding remove_each
  remove_each_lem i zero m w q = refl
  remove_each_lem i (suc rounds) m w q =
      remove_each_lem (i + 1) rounds m (remove_job_node_if_existed R (item_node i) w)
        (λ k h. q k (omega arith))
      ∙ remove_other (item_node i) m w (q i (omega arith))

  -- After the reset every item of the job has its node and no instance, and the nodes that are not
  -- items are as they were.
  pub reset_sharding_info_lem :
      (total : ℕ) (w : World)
      → Exists [] w
      → IsReset total (reset_sharding_info R total w)
        × ((m : Node) → Elsewhere m → look m (reset_sharding_info R total w) ≡ look m w)
  unfolding reset_sharding_info
  reset_sharding_info_lem total w r =
      let v = reset_each R 0 total w in
      let (_, h, same) = reset_each_lem 0 total w r (λ j below. absurd (omega arith)) in
      let actual = length (children root v) in
      elim (Bool-cases (ltb total actual)) [
        | inl more ↦ rw more (
          λ j below. (
            remove_each_lem total (actual - total) (get_instance_node j) v (λ k h'. ground arith)
                ∙ (h j (omega arith)).0,
            (
              (h j (omega arith)).1.0,
              remove_each_lem total (actual - total) (item_node j) v (λ k h'. ground arith)
                  ∙ (h j (omega arith)).1.1,
            ),
          ),
          λ m q. remove_each_lem total (actual - total) m v (λ k h. (q k).1) ∙ same m q,
        )
        | inr fit ↦ rw fit (λ j below. h j (omega arith), same)
      ]
