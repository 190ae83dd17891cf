-- ===== src/Sharding/Service/Flags.antt =====
-- The two flags of a sharding, in the transaction that ends it.
use elastic_job_lite.Prelude.{ℕ, String, ◌≡◌, refl, ◌∙◌, true, false, none, some, [], ◌∷◌, arith}
use text.Mathlib.TextEquality.{eq_iff}
use elastic_job_lite.Registry.{Node, delete, word, ephemeral, is_under, same_node, Registry, commit}
use elastic_job_lite.Sharding.Service.{
  get_instance_node, necessary, processing, reset_sharding_info,
}
use elastic_job_lite.Sharding.Service.Reset.{Exists, reset_sharding_info_lem}

-- The nodes below one of the two flags.
below_flag :
    (x : String) (m : Node)
    → is_under (word "leader" ∷ word "sharding" ∷ word x ∷ []) m ≡ true
    → (rest : Node) × (m ≡ word "leader" ∷ word "sharding" ∷ word x ∷ rest)
below_flag x (word a ∷ word b ∷ word c ∷ rest) h =
    (rest, ground (arith, eq_iff "leader" a, eq_iff "sharding" b, eq_iff x c))
below_flag x _ h = absurd (ground arith)

module _ (R : Registry) where
  open R use {World, look, put}

  -- The flag of the transaction's end, and nothing below it.
  abbrev pub IsFlagged : Node → World → Type 0
  IsFlagged n w =
      Exists R n w × ((m : Node) → is_under n m ≡ true → same_node m n ≡ false → look m w ≡ none)

  -- The two flags are deleted.
  pub commit-deletes :
      (w : World)
      → IsFlagged necessary w
      → IsFlagged processing w
      → (v : World) × (commit R (delete necessary ∷ delete processing ∷ []) w ≡ some v)
        × ((i : ℕ) → look (get_instance_node i) v ≡ look (get_instance_node i) w)
        × (look necessary v ≡ none)
        × (look processing v ≡ none)
  unfolding commit
  commit-deletes w ((d, e), below) ((d', e'), below') =
      let (u, first, same) = R.apply-delete necessary d w e below in
      let (v, second, same') =
        R.apply-delete processing d' u (same processing ∙ e')
          (λ m q ne. same m ∙ ground (arith, below' m q ne)) in
      (
        v,
        rw (commit, first, second),
        λ i. same' (get_instance_node i) ∙ same (get_instance_node i),
        same' necessary ∙ same necessary,
        same' processing,
      )

  pub elsewhere_below_flag :
      (x : String) (m : Node) (w w' : World)
      → ((rest : Node)
          → look (word "leader" ∷ word "sharding" ∷ word x ∷ rest) w'
            ≡ look (word "leader" ∷ word "sharding" ∷ word x ∷ rest) w)
      → is_under (word "leader" ∷ word "sharding" ∷ word x ∷ []) m ≡ true
      → look m w' ≡ look m w
  elsewhere_below_flag x m w w' same h = let (rest, e) = below_flag x m h in rw e (same rest)

  -- The two flags while the leader shares the items.
  pub IsFlagged-reset :
      (x : String) (total : ℕ) (w : World)
      → Exists R [] w
      → IsFlagged (word "leader" ∷ word "sharding" ∷ word x ∷ []) w
      → IsFlagged (word "leader" ∷ word "sharding" ∷ word x ∷ []) (reset_sharding_info R total w)
  IsFlagged-reset x total w r ((d, e), below) =
      let same = (reset_sharding_info_lem R total w r).1 in
      (
        (d, same _ (λ j. (refl, refl, refl)) ∙ e),
        λ k q ne.
            elsewhere_below_flag x k w (reset_sharding_info R total w)
              (λ rest.
                same (word "leader" ∷ word "sharding" ∷ word x ∷ rest) (λ j. (refl, refl, refl)))
              q
            ∙ below k q ne,
      )

  pub IsFlagged-put : (w : World) → IsFlagged processing (put ephemeral processing "" w)
  IsFlagged-put w = (
    ("", R.look-put ephemeral processing "" w),
    λ k q ne. R.look-put_below ephemeral processing k "" w q ne,
  )

  pub IsFlagged-put_other :
      (w : World) → IsFlagged necessary w → IsFlagged necessary (put ephemeral processing "" w)
  IsFlagged-put_other w ((d, e), below) =
      let same : (k : Node)
          → is_under necessary k ≡ true
          → look k (put ephemeral processing "" w) ≡ look k w =
        λ k. elsewhere_below_flag "necessary" k w (put ephemeral processing "" w) (λ rest.
          R.look-put_apart ephemeral processing
            (word "leader" ∷ word "sharding" ∷ word "necessary" ∷ rest) "" w refl refl) in
      ((d, same necessary refl ∙ e), λ k q ne. same k q ∙ below k q ne)
