-- ===== src/Registry.antt =====
-- The nodes of one job in the registry center, and what the services of
-- elastic-job-lite-core/src/main/java/io/elasticjob/lite/internal take from it. The ZooKeeper
-- client is third-party code; its documented behaviour is the interface `Registry`.
pub mod Memory
pub mod Below
use elastic_job_lite.Prelude.{
  ℕ, String, ◌≡◌, ◌≢◌, Bool, true, false, ◌&&◌, Option, none, some, List, [], ◌∷◌, ◌==◌, ◌===◌,
  if◌then◌else◌,
}

-- A word of a path, or an item's number in decimal.
pub data Segment : Type 0 where
  word : String → Segment
  num : ℕ → Segment

-- A path below the node of the job.
abbrev pub Node : Type 0
Node = List Segment

abbrev pub same_segment : Segment → Segment → Bool
same_segment (word s) (word t) = s === t
same_segment (num i) (num j) = i == j
same_segment _ _ = false

abbrev pub same_node : Node → Node → Bool
same_node [] [] = true
same_node (a ∷ m) (b ∷ n) = same_segment a b && same_node m n
same_node _ _ = false

-- whether `n` is `m` or stands below it
abbrev pub is_under : Node → Node → Bool
is_under [] n = true
is_under (a ∷ m) (b ∷ n) = same_segment a b && is_under m n
is_under (a ∷ m) [] = false

abbrev pub parent : Node → Node
parent [] = []
parent (a ∷ []) = []
parent (a ∷ b ∷ n) = a ∷ parent (b ∷ n)

-- An operation of a transaction.
pub data Op : Type 0 where
  create : Node → String → Op
  delete : Node → Op

pub data Mode : Type 0 where
  persistent ephemeral : Mode

-- `look` is none for a node that does not exist. `put` creates a node with the parents that are
-- missing, or gives it its data; `remove` takes the nodes below it along. `apply` is one operation
-- of a transaction; none is a refusal.
pub record Registry : Type 1 where
  pub World : Type 0
  pub look : Node → World → Option String
  pub children : Node → World → List String
  pub put : Mode → Node → String → World → World
  pub remove : Node → World → World
  pub apply : Op → World → Option World
  pub look-put : (k : Mode) (n : Node) (v : String) (w : World) → look n (put k n v w) ≡ some v
  pub look-put_apart :
      (k : Mode) (n m : Node) (v : String) (w : World)
      → is_under m n ≡ false
      → is_under n m ≡ false
      → look m (put k n v w) ≡ look m w
  pub look-put_above :
      (k : Mode) (n m : Node) (v d : String) (w : World)
      → is_under n m ≡ false
      → look m w ≡ some d
      → look m (put k n v w) ≡ some d
  -- an ephemeral node is made anew, and has no children
  pub look-put_below :
      (k : Mode) (n m : Node) (v : String) (w : World)
      → is_under n m ≡ true
      → same_node m n ≡ false
      → look m (put k n v w) ≡ elim k [ persistent ↦ look m w | ephemeral ↦ none ]
  pub look-remove :
      (n m : Node) (w : World) → look m (remove n w) ≡ (if is_under n m then none else look m w)
  pub children-put :
      (k : Mode) (n m : Node) (v : String) (w : World)
      → is_under n m ≡ false
      → is_under m n ≡ false
      → children n (put k m v w) ≡ children n w
  -- data for a node that is there
  pub children-put_there :
      (n m : Node) (v d : String) (w : World)
      → look m w ≡ some d
      → children n (put persistent m v w) ≡ children n w
  -- a node keeps its children when neither it nor one of them goes
  pub children-remove :
      (n m : Node) (w : World)
      → is_under m n ≡ false
      → same_node (parent m) n ≡ false
      → children n (remove m w) ≡ children n w
  pub apply-create :
      (n : Node) (v d : String) (w : World)
      → look n w ≡ none
      → look (parent n) w ≡ some d
      → (w' : World) × (apply (create n v) w ≡ some w')
        × ((m : Node) → look m w' ≡ (if same_node m n then some v else look m w))
  pub apply-delete :
      (n : Node) (d : String) (w : World)
      → look n w ≡ some d
      → ((m : Node) → is_under n m ≡ true → same_node m n ≡ false → look m w ≡ none)
      → (w' : World) × (apply (delete n) w ≡ some w')
        × ((m : Node) → look m w' ≡ (if same_node m n then none else look m w))

module _ (R : Registry) where
  open R use {World, apply}

  -- A transaction applies its operations in order, or none of them.
  unfoldable pub commit : List Op → World → Option World
  commit [] w = some w
  commit (o ∷ ops) w = elim (apply o w) [ none ↦ none | some w' ↦ commit ops w' ]
