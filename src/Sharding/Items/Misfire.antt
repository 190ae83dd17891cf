-- ===== src/Sharding/Items/Misfire.antt =====
-- A run that is missed because items are still running is kept for later.
use elastic_job_lite.Prelude.{ℕ, ◌≡◌, refl, ◌∙◌, Bool, true, false, some, List, [], ◌∷◌, arith}
use native.Mathlib.Decide.{ℕ_discrete}
use elastic_job_lite.Registry.{Registry}
use elastic_job_lite.Sharding.Service.{is_job_node_existed}
use elastic_job_lite.Sharding.Service.Reset.{Exists}
use elastic_job_lite.Sharding.Items.{
  get_running_node, get_misfire_node, any_running, register_job_begin, register_job_completed,
  has_running_items, set_misfire, misfire_if_has_running_items, get_misfired_job_items,
  clear_misfire,
}
use elastic_job_lite.Sharding.Items.Marks.{
  listed, look-remove_parts, look-put_parts, root-put_parts, existed-create_parts, existing_all,
  existing_none,
}

module _ (R : Registry) where
  open R use {World, look, put}

  any_running_hit :
      (i : ℕ) (js : List ℕ) (w : World)
      → listed i js ≡ true
      → is_job_node_existed R (get_running_node i) w ≡ true
      → any_running R js w ≡ true
  unfolding any_running
  any_running_hit i [] w h e = absurd (ground arith)
  any_running_hit i (j ∷ js) w h e = elim (ℕ_discrete j i) [
    | yes q ↦ rw (q, e) refl
    | no ne ↦ ground (arith, any_running_hit i js w (ground arith) e)
  ]

  any_running_none :
      (js : List ℕ) (w : World)
      → ((j : ℕ) → listed j js ≡ true → is_job_node_existed R (get_running_node j) w ≡ false)
      → any_running R js w ≡ false
  unfolding any_running
  any_running_none [] w h = refl
  any_running_none (j ∷ js) w h =
      rw (h j (ground arith)) (any_running_none js w (λ k q. h k (ground arith)))

  running-begin :
      (i : ℕ) (is : List ℕ) (b : Bool) (w : World)
      → listed i is ≡ true
      → is_job_node_existed R (get_running_node i) (register_job_begin R true is (b, w)).1 ≡ true
  unfolding register_job_begin is_job_node_existed
  running-begin i is b w h = rw (is_job_node_existed, look-put_parts R "running" i is w, h) refl

  running-completed :
      (i : ℕ) (is : List ℕ) (b : Bool) (w : World)
      → listed i is ≡ true
      → is_job_node_existed R (get_running_node i) (register_job_completed R true is (b, w)).1
        ≡ false
  unfolding register_job_completed is_job_node_existed
  running-completed i is b w h =
      rw (is_job_node_existed, look-remove_parts R "running" i is w, h) refl

  misfired-set :
      (js : List ℕ) (w : World)
      → Exists R [] w
      → get_misfired_job_items R js (set_misfire R js w) ≡ js
  unfolding get_misfired_job_items set_misfire
  misfired-set js w r =
      existing_all R get_misfire_node js _
        (λ j q. existed-create_parts R "misfire" j js w r ∙ rw q refl)

  misfired-clear :
      (js : List ℕ) (w : World) → get_misfired_job_items R js (clear_misfire R js w) ≡ []
  unfolding get_misfired_job_items clear_misfire is_job_node_existed
  misfired-clear js w =
      existing_none R get_misfire_node js _
        (λ j q. rw (is_job_node_existed, look-remove_parts R "misfire" j js w, q) refl)

  -- With monitoring, a run of items of which one is still running is missed: all its items are
  -- found as missed, until they are cleared. When the running items have completed, a run of them
  -- is not missed. It is assumed that the job's node stands.
  pub misfire-register_job_begin :
      (i : ℕ) (is js : List ℕ) (b : Bool) (w : World)
      → Exists R [] w
      → listed i is ≡ true
      → listed i js ≡ true
      → (v : World) × (misfire_if_has_running_items R
            (some true)
            js
            (register_job_begin R true is (b, w)).1
          ≡ (v, true))
        × (get_misfired_job_items R js v ≡ js)
        × (get_misfired_job_items R js (clear_misfire R js v) ≡ [])
        × ((misfire_if_has_running_items R
              (some true)
              is
              (register_job_completed R true is (true, v)).1).1
            ≡ false)
  unfolding misfire_if_has_running_items has_running_items register_job_begin
  misfire-register_job_begin i is js b w r h g =
      let w' = (register_job_begin R true is (b, w)).1 in
      let v = set_misfire R js w' in
      let hit = any_running_hit i js w' g (running-begin i is b w h) in
      let quiet =
        any_running_none is (register_job_completed R true is (true, v)).1
          (λ j q. running-completed j is true v q) in
      (
        v,
        rw (misfire_if_has_running_items, hit) refl,
        misfired-set js w' (root-put_parts R "running" is w r),
        misfired-clear js v,
        rw (misfire_if_has_running_items, quiet) refl,
      )
