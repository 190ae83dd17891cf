-- ===== src/Sharding/Election/Leader.antt =====
-- At most one instance is the leader, in whatever order the instances get the latch.
use elastic_job_lite.Prelude.{
  String, ◌≡◌, refl, sym, ap, ◌∙◌, inl, inr, Bool, true, Option, none, some, List, [], ◌∷◌, arith,
  Option-cases,
}
use mathlib.Core.Option.{some-injective}
use text.Mathlib.TextEquality.{eq_iff}
use elastic_job_lite.Registry.{ephemeral, Registry}
use elastic_job_lite.Sharding.Service.{is_job_node_existed}
use elastic_job_lite.Sharding.Service.Reset.{remove_self}
use elastic_job_lite.Sharding.Election.{
  leader_instance, has_leader, is_leader, execute, remove_leader,
}

-- A change of the leader's node: an instance gets the latch, or the node is removed.
pub data Event : Type 0 where
  elected : String → Event
  removed : Event

abbrev pub next : Event → Option String → Option String
next (elected id) none = some id
next (elected id) (some d) = some d
next removed d = none

abbrev pub leader_after : List Event → Option String → Option String
leader_after [] d = d
leader_after (e ∷ es) d = leader_after es (next e d)

module _ (R : Registry) where
  open R use {World, look, put}

  abbrev pub change : Event → World → World
  change (elected id) = execute R id
  change removed = remove_leader R

  abbrev pub changes : List Event → World → World
  changes [] w = w
  changes (e ∷ es) w = changes es (change e w)

  look-change :
      (e : Event) (w : World) → look leader_instance (change e w) ≡ next e (look leader_instance w)
  unfolding execute has_leader is_job_node_existed remove_leader
  look-change (elected id) w = elim (Option-cases (look leader_instance w)) [
    | inl absent ↦ ground (arith, absent, R.look-put ephemeral leader_instance id w)
    | inr (d, there) ↦ ground (arith, there)
  ]
  look-change removed w = remove_self R leader_instance w refl

  look-changes :
      (es : List Event) (w : World)
      → look leader_instance (changes es w) ≡ leader_after es (look leader_instance w)
  look-changes [] w = refl
  look-changes (e ∷ es) w = look-changes es (change e w) ∙ ap (leader_after es) (look-change e w)

  is_leader_lem :
      (s : Bool) (a : String) (w : World)
      → is_leader R s a w ≡ true
      → look leader_instance w ≡ some a
  unfolding is_leader
  is_leader_lem s a w h = elim (Option-cases (look leader_instance w)) [
    | inl absent ↦ ground (arith, absent)
    | inr (d, there) ↦ there ∙ ground (arith, there, eq_iff a d)
  ]

  -- After any elections and removals an instance that holds itself for the leader is the first one
  -- elected since the last removal, or the leader from before where there was none. So no two
  -- instances hold themselves for the leader.
  pub is_leader-changes :
      (es : List Event) (s s' : Bool) (a b : String) (w : World)
      → is_leader R s a (changes es w) ≡ true
      → is_leader R s' b (changes es w) ≡ true
      → (leader_after es (look leader_instance w) ≡ some a) × (a ≡ b)
  is_leader-changes es s s' a b w h g =
      let first = is_leader_lem s a (changes es w) h in
      (
        sym (look-changes es w) ∙ first,
        some-injective a b (sym first ∙ is_leader_lem s' b (changes es w) g),
      )
