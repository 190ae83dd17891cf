-- ===== src/Registry/Memory.antt =====
-- A registry in memory that meets the interface.
use elastic_job_lite.Prelude.{
  ◌≡◌, refl, true, false, Option, none, some, String, List, [], ◌∷◌, if◌then◌else◌, arith,
}
use text.Mathlib.TextEquality.{eq_iff}
use text.Mathlib.TextPositions.{eq_refl}
use elastic_job_lite.Registry.{
  Segment, word, num, Node, same_segment, same_node, is_under, parent, Op, create, delete, Mode,
  persistent, ephemeral, Registry,
}

same_segment_self : (a : Segment) → same_segment a a ≡ true
same_segment_self (word s) = eq_refl s
same_segment_self (num i) = ground arith

pub same_node_self : (n : Node) → same_node n n ≡ true
same_node_self [] = refl
same_node_self (a ∷ n) = ground (arith, same_segment_self a, same_node_self n)

same_segment_comm : (a b : Segment) → same_segment a b ≡ same_segment b a
same_segment_comm (word s) (word t) = ground (arith, eq_iff s t, eq_iff t s)
same_segment_comm (num i) (num j) = ground arith
same_segment_comm (word s) (num j) = refl
same_segment_comm (num i) (word t) = refl

-- A node stands below itself.
under_of_same : (m n : Node) → is_under n m ≡ false → same_node m n ≡ false
under_of_same [] [] h = cc
under_of_same [] (b ∷ n) h = refl
under_of_same (a ∷ m) [] h = refl
under_of_same (a ∷ m) (b ∷ n) h = ground (arith, same_segment_comm a b, under_of_same m n)

above_of_under : (m n : Node) → is_under n m ≡ true → same_node m n ≡ false → is_under m n ≡ false
above_of_under [] [] h g = cc
above_of_under [] (b ∷ n) h g = cc
above_of_under (a ∷ m) [] h g = refl
above_of_under (a ∷ m) (b ∷ n) h g = ground (arith, same_segment_comm a b, above_of_under m n)

abbrev pub World : Type 0
World = Node → Option String

-- parents that are missing are created with no data
abbrev put : Mode → Node → String → World → World
put k n v w m =
    if same_node m n
    then some v
    else if is_under m n
    then elim (w m) [ none ↦ some "" | some d ↦ some d ]
    else elim k [ persistent ↦ w m | ephemeral ↦ (if is_under n m then none else w m) ]

abbrev set : Node → Option String → World → World
set n v w m = if same_node m n then v else w m

abbrev apply : Op → World → Option World
apply (create n v) w = elim (w n) [
  | some _ ↦ none
  | none ↦ elim (w (parent n)) [ none ↦ none | some _ ↦ some (set n (some v) w) ]
]
apply (delete n) w = elim (w n) [ none ↦ none | some _ ↦ some (set n none w) ]

pub look-put_apart :
    (k : Mode) (n m : Node) (v : String) (w : World)
    → is_under m n ≡ false
    → is_under n m ≡ false
    → put k n v w m ≡ w m
look-put_apart persistent n m v w h g = rw (under_of_same m n g, h)
look-put_apart ephemeral n m v w h g = rw (under_of_same m n g, h, g)

pub look-put_above :
    (k : Mode) (n m : Node) (v d : String) (w : World)
    → is_under n m ≡ false
    → w m ≡ some d
    → put k n v w m ≡ some d
look-put_above persistent n m v d w g e = rw (under_of_same m n g, e) (ground arith)
look-put_above ephemeral n m v d w g e = rw (under_of_same m n g, e, g) (ground arith)

pub look-put_below :
    (k : Mode) (n m : Node) (v : String) (w : World)
    → is_under n m ≡ true
    → same_node m n ≡ false
    → put k n v w m ≡ elim k [ persistent ↦ w m | ephemeral ↦ none ]
look-put_below persistent n m v w g e = rw (e, above_of_under m n g e)
look-put_below ephemeral n m v w g e = rw (e, g, above_of_under m n g e)

pub apply_create :
    (n : Node) (v d : String) (w : World)
    → w n ≡ none
    → w (parent n) ≡ some d
    → apply (create n v) w ≡ some (set n (some v) w)
apply_create n v d w e p = rw (apply, e, p)

pub apply_delete :
    (n : Node) (d : String) (w : World) → w n ≡ some d → apply (delete n) w ≡ some (set n none w)
apply_delete n d w e = rw (apply, e)

-- `names` are the children of each node, which no call changes here.
abbrev pub memory : (Node → List String) → Registry
memory names = record {
  World = World;
  look = λ n w. w n;
  children = λ n w. names n;
  put = put;
  remove = λ n w m. if is_under n m then none else w m;
  apply = apply;
  look-put = λ k n v w. rw (same_node_self n);
  look-put_apart = look-put_apart;
  look-put_above = look-put_above;
  look-put_below = look-put_below;
  look-remove = λ n m w. refl;
  children-put = λ k n m v w h g. refl;
  children-put_there = λ n m v d w h. refl;
  children-remove = λ n m w h g. refl;
  apply-create = λ n v d w e p. (set n (some v) w, apply_create n v d w e p, λ m. refl);
  apply-delete = λ n d w e l. (set n none w, apply_delete n d w e, λ m. refl);
}
