-- ===== src/Statistics/Items/Disabled.antt =====
-- An item that is disabled: for the table of the console, and for the runs of the job.
use elastic_job_lite.Prelude.{
  ℕ, String, ◌≡◌, refl, sym, ap, ◌∙◌, Bool, true, false, ◌&&◌, List, [], ◌∷◌, ◌==◌, ◌===◌,
  if◌then◌else◌, arith, Bool-cases, inl, inr,
}
use text.Mathlib.TextEquality.{eq_iff}
use elastic_job_lite.Registry.{word, num, Node, Mode, Registry}
use elastic_job_lite.Registry.Below.{below}
use elastic_job_lite.Sharding.Service.{is_job_node_existed}
use elastic_job_lite.Sharding.Items.{existing, get_disabled_items}
use elastic_job_lite.Operations.{
  segment_of, get_sharding_node_path, is_existed, disable_or_enable_sharding,
}
use elastic_job_lite.Statistics.Items.{
  ShardingStatus, disabled, get_sharding_status, is_sharding_error, get_status,
}

abbrev pub is_disabled : ShardingStatus → Bool
is_disabled disabled = true
is_disabled _ = false

abbrev pub keep : (ℕ → Bool) → List ℕ → List ℕ
keep f [] = []
keep f (i ∷ is) = let rest = keep f is in if f i then i ∷ rest else rest

abbrev pub item_node : String → ℕ → Node
item_node job i = word job ∷ word "sharding" ∷ num i ∷ word "disabled" ∷ []

is_disabled-get_sharding_status : (a b c : Bool) → is_disabled (get_sharding_status a b c) ≡ a
unfolding get_sharding_status
is_disabled-get_sharding_status true b c = refl
is_disabled-get_sharding_status false true c = refl
is_disabled-get_sharding_status false false true = refl
is_disabled-get_sharding_status false false false = refl

module _ (R : Registry) where
  open R use {World, look}

  is_existed-put :
      (job j : String) (i k : ℕ) (w : World)
      → is_existed R (item_node j k) (R.put Mode.persistent (item_node job i) "" w)
        ≡ (if job === j && i == k then true else is_existed R (item_node j k) w)
  unfolding is_existed
  is_existed-put job j i k w = elim (Bool-cases (job === j && i == k)) [
    | inl same ↦
        let p : job ≡ j = ground (arith, eq_iff job j) in
        let q : i ≡ k = ground arith in
        rw same (
          ap (λ t. is_existed R (item_node t k) (R.put Mode.persistent (item_node job i) "" w))
            (sym p)
          ∙ ap (λ t. is_existed R (item_node job t) (R.put Mode.persistent (item_node job i) "" w))
              (sym q)
          ∙ rw (is_existed, R.look-put Mode.persistent (item_node job i) "" w) refl)
    | inr apart ↦ rw apart (
        rw
          (
            is_existed,
            R.look-put_apart Mode.persistent (item_node job i) (item_node j k) "" w
                (ground (arith, eq_iff job j, eq_iff j job)) (ground arith),
          )
          refl)
  ]

  is_existed-remove :
      (job j : String) (i k : ℕ) (w : World)
      → is_existed R (item_node j k) (R.remove (item_node job i) w)
        ≡ (if job === j && i == k then false else is_existed R (item_node j k) w)
  unfolding is_existed
  is_existed-remove job j i k w =
      let step = R.look-remove (item_node job i) (item_node j k) w in
      elim (Bool-cases (job === j && i == k)) [
        | inl same ↦ rw same (rw (is_existed, step) (ground arith))
        | inr apart ↦ rw apart (rw (is_existed, step) (ground arith))
      ]

  is_existed-disable_or_enable_sharding :
      (job item j : String) (i k : ℕ) (d : Bool) (w : World)
      → segment_of item ≡ num i
      → is_existed R (item_node j k) (disable_or_enable_sharding R job item d w)
        ≡ (if job === j && i == k then d else is_existed R (item_node j k) w)
  unfolding disable_or_enable_sharding
  is_existed-disable_or_enable_sharding job item j i k true w e = rw e (is_existed-put job j i k w)
  is_existed-disable_or_enable_sharding job item j i k false w e =
      rw e (is_existed-remove job j i k w)

  disabled_in :
      (j : String) (items : List ℕ) (f : ℕ → Bool) (w : World)
      → ((k : ℕ) → is_existed R (item_node j k) w ≡ f k)
      → get_disabled_items (below j R) items w ≡ keep f items
  unfolding get_disabled_items is_job_node_existed is_existed
  disabled_in j [] f w h = refl
  disabled_in j (k ∷ ks) f w h = rw (existing, h k, disabled_in j ks f w h) refl

  is_disabled-get_status :
      (j s : String) (k : ℕ) (w : World)
      → segment_of s ≡ num k
      → is_disabled (get_status R j s w) ≡ is_existed R (item_node j k) w
  unfolding get_status
  is_disabled-get_status j s k w e =
      is_disabled-get_sharding_status (is_existed R (get_sharding_node_path j s "disabled") w)
        (is_existed R (get_sharding_node_path j s "running") w) (is_sharding_error R j s w)
      ∙ ap (λ t. is_existed R (word j ∷ word "sharding" ∷ t ∷ word "disabled" ∷ []) w) e

  -- After disabling or enabling an item, both the items that the runs of each job leave out and the
  -- items that the table of each job shows as disabled are those from before, but for this item, which
  -- is among them exactly if it was disabled. The texts of the items are their numbers in decimal.
  pub get_disabled_items-disable_or_enable_sharding :
      (job item : String) (i : ℕ) (d : Bool) (w : World) (j s : String) (k : ℕ) (items : List ℕ)
      → segment_of item ≡ num i
      → segment_of s ≡ num k
      → (get_disabled_items (below j R) items (disable_or_enable_sharding R job item d w)
          ≡ keep (λ n. if job === j && i == n then d else is_existed R (item_node j n) w) items)
        × (is_disabled (get_status R j s (disable_or_enable_sharding R job item d w))
            ≡ (if job === j && i == k then d else is_disabled (get_status R j s w)))
  get_disabled_items-disable_or_enable_sharding job item i d w j s k items e t = (
    disabled_in j items (λ n. if job === j && i == n then d else is_existed R (item_node j n) w)
        (disable_or_enable_sharding R job item d w)
        (λ n. is_existed-disable_or_enable_sharding job item j i n d w e),
    is_disabled-get_status j s k (disable_or_enable_sharding R job item d w) t
        ∙ is_existed-disable_or_enable_sharding job item j i k d w e
        ∙ ap (λ b. if job === j && i == k then d else b) (sym (is_disabled-get_status j s k w t)),
  )
