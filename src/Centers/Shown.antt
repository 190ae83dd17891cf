-- ===== src/Centers/Shown.antt =====
-- At most one center is activated, and the dashboard shows it.
use elastic_job_lite.Prelude.{
  ℕ, zero, suc, ◌≤◌, String, ◌≡◌, ◌≢◌, refl, sym, ap, ◌∙◌, ◌↔◌, ◌⊎◌, inl, inr, Bool, true, false,
  Option, none, some, List, [], ◌∷◌, map, get_elem?, arith, Bool-cases, Option-cases,
}
use mathlib.Core.Option.{some-injective}
use mathlib.Core.Path.{subst}
use elastic_job_lite.Util.Dashboard.{activated_name, is_connected}
use elastic_job_lite.Util.Dashboard.Look.{last_activated, is_connected_iff}
use elastic_job_lite.Centers.{
  RegistryCenterConfiguration, shown, find, find_activated, set_activated, load, add, delete,
}
use elastic_job_lite.Centers.Session.{
  Server, set_registry_center_name_to_session, connect, load_centers,
}
use elastic_job_lite.Centers.Activated.{
  activations, find_lem, Only, activations_pos, activations-append, activations-delete,
  set_activated-Only,
}

-- What the dashboard shows of a list with one activated configuration.
last_activated-none :
    (cs : List RegistryCenterConfiguration)
    → activations cs ≡ 0
    → last_activated (map shown cs) ≡ none
last_activated-none [] h = refl
last_activated-none (c ∷ cs) h = ground (arith, last_activated-none cs)

last_activated-Only :
    (i : ℕ) (n : String) (cs : List RegistryCenterConfiguration)
    → Only n i cs
    → last_activated (map shown cs) ≡ some n
last_activated-Only i n [] (one, c, h, e, on) = absurd (omega arith)
last_activated-Only zero n (d ∷ cs) (one, c, h, e, on) =
    let same = some-injective d c h in
    let on' : d.activated ≡ true = ap (λ x. x.activated) same ∙ on in
    let name : d.name ≡ n = ap (λ x. x.name) same ∙ e in
    let nothing = last_activated-none cs (ground (arith, one, on')) in
    ground (arith, nothing, on', name)
last_activated-Only (suc i) n (d ∷ cs) (one, c, h, e, on) =
    let pos = activations_pos i c cs h on in
    let later = last_activated-Only i n cs (ground (arith, one, pos), c, h, e, on) in
    ground (arith, later)

module _ (reachable : RegistryCenterConfiguration → Bool) where
  -- The states that the operations reach, when a new configuration is not activated, as the form
  -- sends it.
  pub data Reached : Server → Type 0 where
    nothing : Reached (record { configs = []; attribute = none; current = none })
    added :
        {s : Server} (c : RegistryCenterConfiguration)
        → c.activated ≡ false
        → Reached s
        → Reached (record s { configs = add c s.configs })
    deleted :
        {s : Server} (n : String) → Reached s → Reached (record s { configs = delete n s.configs })
    connected : {s : Server} (n : String) → Reached s → Reached (connect reachable n s).0
    listed : {s : Server} → Reached s → Reached (load_centers reachable s)

  abbrev Made : String → Server × Option Bool → Type 0
  Made n p =
      (p.1 ≡ some true)
      × (i : ℕ) × Only n i p.0.configs
      × (c : RegistryCenterConfiguration) × (p.0.current ≡ some c)
      × (c.name ≡ n)

  -- A connection that is made leaves just one configuration of the name activated and is the current
  -- one; else the configurations are as they were.
  connect_lem :
      (n : String) (s : Server)
      → activations s.configs ≤ 1
      → Made n (connect reachable n s)
        ⊎ (((connect reachable n s).1 ≢ some true)
            × ((connect reachable n s).0.configs ≡ s.configs))
  unfolding connect set_registry_center_name_to_session load
  connect_lem n s most = elim (Option-cases (find n s.configs)) [
    | inl absent ↦ inr (rw (connect, absent) (λ e. ground arith), rw (connect, absent) refl)
    | inr (i, there) ↦
        let (c, h, e) = find_lem n s.configs i there in
        elim (Bool-cases (reachable c)) [
          | inl on ↦
              let kept : set_registry_center_name_to_session reachable c s
                  ≡ (record s { attribute = some c; current = some c }, true) =
                rw (set_registry_center_name_to_session, on) refl in
              let result : connect reachable n s ≡ (
                record {
                  configs = set_activated i s.configs;
                  attribute = some c;
                  current = some c;
                },
                some true,
              ) =
                rw (connect, there, h, kept, load, there)
                  (ap
                    (λ (p : Server × Bool).
                      (record p.0 { configs = set_activated i p.0.configs }, some true))
                    kept) in
              inl (
                subst (Made n) (sym result)
                  (refl, i, set_activated-Only i n s.configs (c, h, e) most, c, refl, e))
          | inr off ↦
              let result : connect reachable n s ≡ (record s { attribute = some c }, some false) =
                rw (connect, there, h, set_registry_center_name_to_session, off) refl in
              inr (rw result (λ e. ground arith), rw result refl)
        ]
  ]

  set_registry_center_name_to_session_lem :
      (c : RegistryCenterConfiguration) (s : Server)
      → (set_registry_center_name_to_session reachable c s).0.configs ≡ s.configs
  unfolding set_registry_center_name_to_session
  set_registry_center_name_to_session_lem c s = elim (Bool-cases (reachable c)) [
    | inl on ↦ rw on refl
    | inr off ↦ rw off refl
  ]

  load_centers_lem : (s : Server) → (load_centers reachable s).configs ≡ s.configs
  unfolding load_centers
  load_centers_lem s = elim (Option-cases (find_activated s.configs)) [
    | inl absent ↦ rw (load_centers, absent) refl
    | inr (i, there) ↦ elim (Option-cases (get_elem? s.configs i)) [
      | inl missing ↦ rw (load_centers, there, missing) refl
      | inr (c, h) ↦ rw (load_centers, there, h) (set_registry_center_name_to_session_lem c s)
    ]
  ]

  -- At most one configuration is activated.
  Reached-activations : {s : Server} → Reached s → activations s.configs ≤ 1
  unfolding add
  Reached-activations nothing = omega arith
  Reached-activations (added {s} c off r) =
      let before = Reached-activations r in
      ground (arith, activations-append s.configs (c ∷ []), off, before)
  Reached-activations (deleted {s} n r) =
      let before = Reached-activations r in omega (arith, activations-delete n s.configs)
  Reached-activations (connected {s} n r) =
      let before = Reached-activations r in
      elim (connect_lem n s before) [
        | inl (made, i, only, c, now, e) ↦ omega (arith, only.0)
        | inr (left, same) ↦ rw same before
      ]
  Reached-activations (listed {s} r) =
      let before = Reached-activations r in rw (load_centers_lem s) before

  -- In the states that any additions, deletions, connections and listings reach, where no configuration
  -- is added as activated: when a connection is made, the console operates on a center of the name that
  -- was asked for, and the dashboard marks just this name as connected, but for the empty name, which it
  -- never marks.
  pub is_connected-connect :
      (s s' : Server) (n name : String)
      → Reached s
      → connect reachable n s ≡ (s', some true)
      → ((c : RegistryCenterConfiguration) × (s'.current ≡ some c) × (c.name ≡ n))
        × ((is_connected (activated_name (map shown s'.configs)) name ≡ true)
            ↔ ((n ≡ name) × (name ≢ "")))
  is_connected-connect s s' n name r done = elim (connect_lem n s (Reached-activations r)) [
    | inl (made, i, only, c, now, e) ↦
        let result : (connect reachable n s).0 ≡ s' = ap (λ p. p.0) done in
        let last =
          last_activated-Only i n s'.configs (subst (λ t. Only n i t.configs) result only) in
        let marks = is_connected_iff (map shown s'.configs) name in
        (
          (c, ap (λ t. t.current) (sym result) ∙ now, e),
          (
            λ h. (some-injective n name (sym last ∙ (marks.0 h).0), (marks.0 h).1),
            λ h. marks.1 (last ∙ ap some h.0, h.1),
          ),
        )
    | inr (left, same) ↦ absurd (left (ap (λ p. p.1) done))
  ]
