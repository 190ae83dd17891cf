-- ===== src/Sharding/Service/Exactly.antt =====
-- What the leader's sharding leaves in the registry center.
use elastic_job_lite.Prelude.{
  ℕ, ◌+◌, ◌≤◌, ◌<◌, String, ◌≡◌, refl, ◌∙◌, inl, inr, true, none, some, List, [], ◌∷◌, ◌++◌, ltb,
  ◌==◌, if◌then◌else◌, arith, Bool-cases,
}
use elastic_job_lite.Registry.{Node, delete, word, ephemeral, is_under, Registry, commit}
use elastic_job_lite.Sharding.Average.{JobInstance, Shards}
use elastic_job_lite.Sharding.Average.Exactly.{occurrences, assigned}
use elastic_job_lite.Sharding.Service.{
  Strategy, get_strategy, item_node, get_instance_node, necessary, processing, reset_sharding_info,
  persist_sharding_info,
}
use elastic_job_lite.Sharding.Service.Reset.{Exists, IsReset, reset_sharding_info_lem}
use elastic_job_lite.Sharding.Service.Persist.{
  items_of, pairs, owner, held, IsOnce, IsFree, commit-creates, create_all_lem,
}
use elastic_job_lite.Sharding.Service.Run.{Peers, Outcome, share}
use elastic_job_lite.Sharding.Service.Flags.{
  IsFlagged, commit-deletes, elsewhere_below_flag, IsFlagged-reset, IsFlagged-put,
  IsFlagged-put_other,
}

abbrev count : ℕ → List (ℕ × String) → ℕ
count i [] = 0
count i ((j, s) ∷ ps) = (if j == i then 1 else 0) + count i ps

count-append : (i : ℕ) (ps qs : List (ℕ × String)) → count i (ps ++ qs) ≡ count i ps + count i qs
count-append i [] qs = omega arith
count-append i ((j, s) ∷ ps) qs = omega (arith, count-append i ps qs)

count-items_of : (i : ℕ) (s : String) (is : List ℕ) → count i (items_of s is) ≡ occurrences i is
count-items_of i s [] = refl
count-items_of i s (j ∷ is) = omega (arith, count-items_of i s is)

count-pairs : (i : ℕ) (m : Shards) → count i (pairs m) ≡ assigned i m
count-pairs i [] = refl
count-pairs i ((u, is) ∷ m) = omega (
  arith,
  count-append i (items_of u.job_instance_id is) (pairs m),
  count-items_of i u.job_instance_id is,
  count-pairs i m,
)

owner_of_zero : (i : ℕ) (ps : List (ℕ × String)) → count i ps ≡ 0 → owner i ps ≡ none
owner_of_zero i [] h = refl
owner_of_zero i ((j, s) ∷ ps) h = ground (arith, owner_of_zero i ps)

owner_of_pos :
    (i : ℕ) (ps : List (ℕ × String)) → 0 < count i ps → (s : String) × (owner i ps ≡ some s)
owner_of_pos i [] h = elim h [ ]
owner_of_pos i ((j, s) ∷ ps) h = elim (Bool-cases (j == i)) [
  | inl same ↦ (s, rw same)
  | inr other ↦ let (t, e) = owner_of_pos i ps (ground arith) in (t, rw other e)
]

count-IsOnce : (ps : List (ℕ × String)) → ((i : ℕ) → count i ps ≤ 1) → IsOnce ps
count-IsOnce [] h = tt
count-IsOnce ((i, s) ∷ ps) h =
    (owner_of_zero i ps (ground (arith, h i)), count-IsOnce ps (λ j. ground (arith, h j)))

-- How the strategy must share the items.
abbrev pub IsExact : ℕ → Shards → Type 0
IsExact total m = (i : ℕ) → assigned i m ≡ (if ltb i total then 1 else 0)

IsOnce-pairs : (total : ℕ) (m : Shards) → IsExact total m → IsOnce (pairs m)
IsOnce-pairs total m h = count-IsOnce (pairs m) (λ i. ground (arith, count-pairs i m, h i))

module _ (R : Registry) where
  open R use {World, look, put}

  count-IsFree :
      (w : World) (ps : List (ℕ × String))
      → ((i : ℕ)
          → 0 < count i ps
          → (look (get_instance_node i) w ≡ none) × Exists R (item_node i) w)
      → IsFree R w ps
  count-IsFree w [] h = tt
  count-IsFree w ((i, s) ∷ ps) h =
      (h i (ground arith), count-IsFree w ps (λ j q. h j (ground arith)))

  -- The transaction, on items that are free, leaves the flags to the two deletions.
  commit-persist :
      (m : Shards) (w : World)
      → IsFree R w (pairs m)
      → IsOnce (pairs m)
      → IsFlagged R necessary w
      → IsFlagged R processing w
      → (v : World) × (commit R (persist_sharding_info m) w ≡ some v)
        × ((i : ℕ)
            → look (get_instance_node i) v
              ≡ held (owner i (pairs m)) (look (get_instance_node i) w))
        × (look necessary v ≡ none)
        × (look processing v ≡ none)
  unfolding persist_sharding_info
  commit-persist m w free once ((d, e), below) ((d', e'), below') =
      let (u, ran, own, same) =
        commit-creates R (pairs m) (delete necessary ∷ delete processing ∷ []) w free once in
      let kept : (k : Node) → is_under necessary k ≡ true → look k u ≡ look k w = λ k.
        elsewhere_below_flag R "necessary" k w u
          (λ rest. same (word "leader" ∷ word "sharding" ∷ word "necessary" ∷ rest) (λ i. refl)) in
      let kept' : (k : Node) → is_under processing k ≡ true → look k u ≡ look k w = λ k.
        elsewhere_below_flag R "processing" k w u
          (λ rest. same (word "leader" ∷ word "sharding" ∷ word "processing" ∷ rest) (λ i. refl)) in
      let (v, done, held_on, gone, gone') =
        commit-deletes R u ((d, kept necessary refl ∙ e), λ k q ne. kept k q ∙ below k q ne)
          ((d', kept' processing refl ∙ e'), λ k q ne. kept' k q ∙ below' k q ne) in
      (v, rw (create_all_lem m) (ran ∙ done), λ i. held_on i ∙ own i, gone, gone')

  -- Each item has one owner.
  owner_of_exact :
      (total i : ℕ) (m : Shards)
      → IsExact total m
      → i < total
      → (s : String) × (owner i (pairs m) ≡ some s)
  owner_of_exact total i m x below = owner_of_pos i (pairs m) (ground (arith, count-pairs i m, x i))

  pairs-IsFree :
      (total : ℕ) (m : Shards) (w : World)
      → IsExact total m
      → IsReset R total w
      → IsFree R w (pairs m)
  pairs-IsFree total m w x r =
      count-IsFree w (pairs m) (λ i q. r i (ground (arith, count-pairs i m, x i)))

  module _ (P : Peers R) (strategies : String → Strategy) (job_name : List ℕ) where
    pub share-shared :
        (us : List JobInstance) (m : Shards) (w : World)
        → get_strategy strategies
            (P.job_sharding_strategy_class w)
            us
            job_name
            (P.sharding_total_count w)
          ≡ some m
        → IsExact (P.sharding_total_count w) m
        → Exists R [] w
        → IsFlagged R necessary w
        → (v : World) × (share R P strategies job_name us w ≡ (v, Outcome.shared))
          × ((i : ℕ)
              → i < P.sharding_total_count w
              → (s : String) × (owner i (pairs m) ≡ some s)
                × (look (get_instance_node i) v ≡ some s))
          × (look necessary v ≡ none)
          × (look processing v ≡ none)
    unfolding share
    share-shared us m w chosen x (r, h) flag =
        let total = P.sharding_total_count w in
        let w' = put ephemeral processing "" w in
        let r' : Exists R [] w' = (r, R.look-put_above ephemeral processing [] "" r w refl h) in
        let ready = (reset_sharding_info_lem R total w' r').0 in
        let (v, done, own, gone, gone') =
          commit-persist m (reset_sharding_info R total w') (pairs-IsFree total m _ x ready)
            (IsOnce-pairs total m x)
            (IsFlagged-reset R "necessary" total w' r' (IsFlagged-put_other R w flag))
            (IsFlagged-reset R "processing" total w' r' (IsFlagged-put R w)) in
        (
          v,
          rw (share, chosen, done),
          λ i below. let (s, e) = owner_of_exact total i m x below in (s, e, own i ∙ rw e),
          gone,
          gone',
        )
