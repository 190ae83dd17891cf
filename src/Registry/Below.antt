-- ===== src/Registry/Below.antt =====
-- The nodes of one job, as the classes of the scheduler see them through
-- internal/storage/JobNodePath.java: the registry center below the node of the job.
use elastic_job_lite.Prelude.{
  String, ◌≡◌, refl, ap, sym, ◌∙◌, true, false, none, some, [], ◌∷◌, if◌then◌else◌, arith,
}
use text.Mathlib.TextEquality.{eq_iff}
use text.Mathlib.TextPositions.{eq_refl}
use elastic_job_lite.Registry.{
  word, num, Node, same_node, is_under, parent, Op, create, delete, Registry,
}

pub under_below :
    (job : String) (n m : Node) → is_under (word job ∷ n) (word job ∷ m) ≡ is_under n m
under_below job n m = rw (eq_refl job) refl

pub same_below :
    (job : String) (n m : Node) → same_node (word job ∷ n) (word job ∷ m) ≡ same_node n m
same_below job n m = rw (eq_refl job) refl

abbrev pub below_op : String → Op → Op
below_op job (create n v) = create (word job ∷ n) v
below_op job (delete n) = delete (word job ∷ n)

module _ (job : String) (R : Registry) where
  open R use {World, look, children, put, remove, apply}

  parent_below :
      (n : Node) (d : String) (w : World)
      → look (word job ∷ n) w ≡ none
      → look (word job ∷ parent n) w ≡ some d
      → look (parent (word job ∷ n)) w ≡ some d
  parent_below [] d w h g = cc
  parent_below (a ∷ n) d w h g = g

  pub parent_apart :
      (n m : Node)
      → is_under m n ≡ false
      → same_node (parent m) n ≡ false
      → same_node (parent (word job ∷ m)) (word job ∷ n) ≡ false
  parent_apart n [] h g = cc
  parent_apart n (a ∷ m) h g = same_below job (parent (a ∷ m)) n ∙ g

  pub apply_create :
      (n : Node) (v d : String) (w : World)
      → look (word job ∷ n) w ≡ none
      → look (word job ∷ parent n) w ≡ some d
      → (w' : World) × (apply (create (word job ∷ n) v) w ≡ some w')
        × ((m : Node)
            → look (word job ∷ m) w' ≡ (if same_node m n then some v else look (word job ∷ m) w))
  apply_create n v d w h g =
      let (w', e, f) = R.apply-create (word job ∷ n) v d w h (parent_below n d w h g) in
      (w', e, λ m. f (word job ∷ m) ∙ rw (eq_refl job) refl)

  -- Below a node of the job stand nodes of the job.
  none_below :
      (n : Node) (w : World)
      → ((m : Node) → is_under n m ≡ true → same_node m n ≡ false → look (word job ∷ m) w ≡ none)
      → (m : Node) → is_under (word job ∷ n) m ≡ true
      → same_node m (word job ∷ n) ≡ false
      → look m w ≡ none
  none_below n w h [] u d = cc
  none_below n w h (num i ∷ m) u d = cc
  none_below n w h (word j ∷ m) u d =
      let same : job ≡ j = ground (arith, eq_iff job j) in
      let apart : same_node m n ≡ false = ground (arith, eq_iff j job) in
      ap (λ k. look (word k ∷ m) w) (sym same) ∙ h m (ground arith) apart

  pub apply_delete :
      (n : Node) (d : String) (w : World)
      → look (word job ∷ n) w ≡ some d
      → ((m : Node) → is_under n m ≡ true → same_node m n ≡ false → look (word job ∷ m) w ≡ none)
      → (w' : World) × (apply (delete (word job ∷ n)) w ≡ some w')
        × ((m : Node)
            → look (word job ∷ m) w' ≡ (if same_node m n then none else look (word job ∷ m) w))
  apply_delete n d w e h =
      let (w', e', f) = R.apply-delete (word job ∷ n) d w e (none_below n w h) in
      (w', e', λ m. f (word job ∷ m) ∙ rw (eq_refl job) refl)

  abbrev pub below : Registry
  below = record {
    World = World;
    look = λ n w. look (word job ∷ n) w;
    children = λ n w. children (word job ∷ n) w;
    put = λ k n v w. put k (word job ∷ n) v w;
    remove = λ n w. remove (word job ∷ n) w;
    apply = λ o w. apply (below_op job o) w;
    look-put = λ k n v w. R.look-put k (word job ∷ n) v w;
    look-put_apart = λ k n m v w h g.
        R.look-put_apart k (word job ∷ n) (word job ∷ m) v w (under_below job m n ∙ h)
          (under_below job n m ∙ g);
    look-put_above = λ k n m v d w h e.
        R.look-put_above k (word job ∷ n) (word job ∷ m) v d w (under_below job n m ∙ h) e;
    look-put_below = λ k n m v w h g.
        R.look-put_below k (word job ∷ n) (word job ∷ m) v w (under_below job n m ∙ h)
          (same_below job m n ∙ g);
    look-remove =
        λ n m w. R.look-remove (word job ∷ n) (word job ∷ m) w ∙ rw (under_below job n m) refl;
    children-put = λ k n m v w h g.
        R.children-put k (word job ∷ n) (word job ∷ m) v w (under_below job n m ∙ h)
          (under_below job m n ∙ g);
    children-put_there = λ n m v d w h. R.children-put_there (word job ∷ n) (word job ∷ m) v d w h;
    children-remove = λ n m w h g.
        R.children-remove (word job ∷ n) (word job ∷ m) w (under_below job m n ∙ h)
          (parent_apart n m h g);
    apply-create = apply_create;
    apply-delete = apply_delete;
  }
