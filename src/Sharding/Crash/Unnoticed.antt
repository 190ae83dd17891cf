-- ===== src/Sharding/Crash/Unnoticed.antt =====
-- The items of an instance when no instance that is online has an id that begins with its ip.
use Prim.Native.String as String
use Prim.Native.String.{len}
use mathlib.Core.Path.{subst}
use native.Mathlib.Nat.{zero-add}
use text.Mathlib.TextBridge.{IsPrefix}
use text.Mathlib.TextEquality.{slice-prefix}
use text.Mathlib.TextFind.{find_cases, slice_at_Hit}
use elastic_job_lite.Prelude.{
  ℕ, String, ◌≡◌, refl, Bool, false, not, ◌||◌, Option, some, List, [], ◌===◌, arith, Bool-cases,
  inl, inr, All, ◌∷◌, ◌==◌,
}
use elastic_job_lite.Registry.{Registry}
use elastic_job_lite.Sharding.Average.{JobInstance}
use elastic_job_lite.Sharding.Service.{
  Strategy, get_ip, instances, is_available_server, has_online_instance,
}
use elastic_job_lite.Sharding.Service.Run.{Peers, get_sharding_items}
use elastic_job_lite.Sharding.Facade.{Local, Config, get_failover_items}
use elastic_job_lite.Sharding.Crash.{failover_each, instance_removed}

-- A text that stands at the front of another is a beginning of it.
find-IsPrefix : (s t : String) → String.find s t ≡ 0 → IsPrefix t s
find-IsPrefix s t z = elim (find_cases s t) [
  | inl h ↦
      let front = rw (z, zero-add) at (slice_at_Hit s t h) in
      subst (λ v. IsPrefix v s) front (slice-prefix s (len t))
  | inr miss ↦ absurd (omega (arith, z, miss))
]

module _ (R : Registry) (parse_int : String → Option ℕ) (P : Peers R)
    (strategies : String → Strategy) (job_name : List ℕ) (C : Config R) where
  open R use {World, children}

  none_begins :
      (ip : String) (ids : List String)
      → All (λ id. ¬ IsPrefix ip id) ids
      → has_online_instance R ip ids ≡ false
  unfolding has_online_instance
  none_begins ip [] _ = refl
  none_begins ip (id ∷ ids) (h, hs) = elim (Bool-cases (String.find id ip == 0)) [
    | inl starts ↦ absurd (h (find-IsPrefix id ip (ground (arith, starts))))
    | inr other ↦ rw other (none_begins ip ids hs)
  ]

  offline_items :
      (u : JobInstance) (ip : String) (w : World)
      → get_ip u ≡ some ip
      → has_online_instance R ip (children instances w) ≡ false
      → get_sharding_items R P strategies job_name u w ≡ some []
  unfolding get_sharding_items is_available_server
  offline_items u ip w e offline =
      rw (get_sharding_items, e, is_available_server, offline) (ground arith)

  -- When an instance has gone, had taken over no item, and the id of no instance that is online begins
  -- with its ip, so that none of its server is left, the listener of every other instance leaves the
  -- registry center as it is: no item is flagged, and none is taken over, though failover is on.
  pub instance_removed-has_online_instance :
      (until_latched : World → World) (l : Local) (is_job_running : Bool) (u : JobInstance)
      (ip : String) (w : World)
      → get_ip u ≡ some ip
      → All (λ id. ¬ IsPrefix ip id) (children instances w)
      → get_failover_items R parse_int u.job_instance_id w ≡ some []
      → instance_removed R parse_int P strategies job_name C until_latched l is_job_running u w
        ≡ some w
  unfolding instance_removed failover_each
  instance_removed-has_online_instance until_latched l is_job_running u ip w e offline none_taken =
      let items = offline_items u ip w e (none_begins ip (children instances w) offline) in
      elim (Bool-cases
        (not (C.is_failover w) || u.job_instance_id === l.instance.job_instance_id)) [
          | inl off ↦ rw (instance_removed, off) refl
          | inr on ↦ rw (instance_removed, on, none_taken, items) refl
        ]
