-- ===== src/Sharding/Service/Available.antt =====
-- The instances that get items, when servers are disabled.
use elastic_job_lite.Prelude.{
  String, ◌≡◌, refl, ap, ◌∙◌, Bool, true, false, ◌&&◌, not, Option, none, some, List, [], ◌∷◌,
  if◌then◌else◌, Bool-cases, Option-cases, inl, inr,
}
use mathlib.Core.Option
use elastic_job_lite.Registry.{Registry}
use elastic_job_lite.Sharding.Average.{JobInstance}
use elastic_job_lite.Sharding.Service.{
  get_ip, is_enable_server, available_from, get_available_job_instances, instances,
}

-- whether an instance stands on one of the servers
abbrev pub stands_on : (String → Bool) → JobInstance → Bool
stands_on named u = elim (get_ip u) [ none ↦ false | some ip ↦ named ip ]

-- the instances that stand on none of the servers
abbrev pub still : (String → Bool) → List JobInstance → List JobInstance
still named [] = []
still named (u ∷ us) = let rest = still named us in if stands_on named u then rest else u ∷ rest

abbrev kept : JobInstance → Bool → Option (List JobInstance) → Option (List JobInstance)
kept u on rest = if on then Option.map (λ us. u ∷ us) rest else rest

kept-still :
    (named : String → Bool) (u : JobInstance) (ip : String) (on : Bool)
    (rest : Option (List JobInstance))
    → get_ip u ≡ some ip
    → kept u (not (named ip) && on) (Option.map (still named) rest)
      ≡ Option.map (still named) (kept u on rest)
kept-still named u ip true none e = elim (Bool-cases (named ip)) [
  | inl h ↦ rw h refl
  | inr h ↦ rw h refl
]
kept-still named u ip true (some us) e = elim (Bool-cases (named ip)) [
  | inl h ↦ rw (stands_on, e, h) refl
  | inr h ↦ rw (stands_on, e, h) refl
]
kept-still named u ip false rest e = elim (Bool-cases (named ip)) [
  | inl h ↦ rw h refl
  | inr h ↦ rw h refl
]

module _ (R : Registry) where
  open R use {World, children}

  available_from-still :
      (named : String → Bool) (ids : List String) (v w : World)
      → ((ip : String) → is_enable_server R ip v ≡ (not (named ip) && is_enable_server R ip w))
      → available_from R ids v ≡ Option.map (still named) (available_from R ids w)
  unfolding available_from
  available_from-still named [] v w h = refl
  available_from-still named (each ∷ ids) v w h =
      let rest = available_from-still named ids v w h in
      elim (Option-cases (get_ip (record { job_instance_id = each }))) [
        | inl bad ↦ rw (available_from, bad) refl
        | inr (ip, e) ↦
            rw (available_from, e, h ip, rest)
              (kept-still named (record { job_instance_id = each }) ip (is_enable_server R ip w)
                (available_from R ids w) e)
      ]

  -- Where just some servers are disabled besides, the instances on these get no items any more.
  pub get_available_job_instances-still :
      (named : String → Bool) (v w : World)
      → children instances v ≡ children instances w
      → ((ip : String) → is_enable_server R ip v ≡ (not (named ip) && is_enable_server R ip w))
      → get_available_job_instances R v ≡ Option.map (still named) (get_available_job_instances R w)
  unfolding get_available_job_instances
  get_available_job_instances-still named v w same h =
      ap (λ ids. available_from R ids v) same
      ∙ available_from-still named (children instances w) v w h
