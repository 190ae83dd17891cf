-- ===== src/Centers/Activated.antt =====
-- The places of the configurations that are found, activated and marked.
use elastic_job_lite.Prelude.{
  ℕ, zero, suc, ◌+◌, ◌≤◌, ◌<◌, String, ◌≡◌, ◌≢◌, refl, sym, ap, ◌∙◌, inl, inr, Bool, true, false,
  Option, none, some, List, [], ◌∷◌, ◌++◌, ◌===◌, ◌==◌, if◌then◌else◌, get_elem?, arith, Bool-cases,
  Option-cases,
}
use mathlib.Core.Option.{some-injective}
use mathlib.Core.Option
use mathlib.Core.Path.{subst}
use native.Mathlib.Decide.{ℕ_discrete}
use text.Mathlib.TextEquality.{eq_iff}
use elastic_job_lite.Centers.{
  RegistryCenterConfiguration, find, find_activated, mark, set_activated, remove_at, delete,
}

abbrev pub activations : List RegistryCenterConfiguration → ℕ
activations [] = 0
activations (c ∷ cs) = (if c.activated then 1 else 0) + activations cs

-- The configuration at a place has the name, or is activated.
abbrev pub Named : String → ℕ → List RegistryCenterConfiguration → Type 0
Named n i cs = (c : RegistryCenterConfiguration) × (get_elem? cs i ≡ some c) × (c.name ≡ n)

pub find_lem :
    (n : String) (cs : List RegistryCenterConfiguration) (i : ℕ) → find n cs ≡ some i → Named n i cs
unfolding find
find_lem n [] i h = absurd (ground arith)
find_lem n (c ∷ cs) i h = elim (Bool-cases (n === c.name)) [
  | inl same ↦
      let first : find n (c ∷ cs) ≡ some 0 = rw (find, same) refl in
      subst (λ k. Named n k (c ∷ cs)) (some-injective 0 i (sym first ∙ h))
        (c, refl, sym ((eq_iff n c.name).0 same))
  | inr other ↦ elim (Option-cases (find n cs)) [
    | inl absent ↦
        let missed : find n (c ∷ cs) ≡ none = rw (find, other, absent) refl in
        absurd (ground (arith, sym missed ∙ h))
    | inr (k, there) ↦
        let later : find n (c ∷ cs) ≡ some (suc k) = rw (find, other, there) refl in
        subst (λ k. Named n k (c ∷ cs)) (some-injective (suc k) i (sym later ∙ h))
          (find_lem n cs k there)
  ]
]

-- The first activated configuration, or none is activated.
abbrev FirstActivated : Option ℕ → List RegistryCenterConfiguration → Type 0
FirstActivated none cs = activations cs ≡ 0
FirstActivated (some j) cs =
    (c : RegistryCenterConfiguration) × (get_elem? cs j ≡ some c) × (c.activated ≡ true)

later_activated :
    (c : RegistryCenterConfiguration) (o : Option ℕ) (cs : List RegistryCenterConfiguration)
    → c.activated ≡ false
    → FirstActivated o cs
    → FirstActivated (Option.map suc o) (c ∷ cs)
later_activated c none cs off h = ground (arith, off, h)
later_activated c (some j) cs off h = h

find_activated-FirstActivated :
    (cs : List RegistryCenterConfiguration) → FirstActivated (find_activated cs) cs
unfolding find_activated
find_activated-FirstActivated [] = refl
find_activated-FirstActivated (c ∷ cs) = elim (Bool-cases c.activated) [
  | inl on ↦
      let here : find_activated (c ∷ cs) ≡ some 0 = simp on in
      subst (λ o. FirstActivated o (c ∷ cs)) (sym here) (c, refl, on)
  | inr off ↦
      let there : find_activated (c ∷ cs) ≡ Option.map suc (find_activated cs) = simp off in
      subst (λ o. FirstActivated o (c ∷ cs)) (sym there)
        (later_activated c (find_activated cs) cs off (find_activated-FirstActivated cs))
]

pub activations-mark :
    (i : ℕ) (b : Bool) (c : RegistryCenterConfiguration) (cs : List RegistryCenterConfiguration)
    → get_elem? cs i ≡ some c
    → activations (mark i b cs) + (if c.activated then 1 else 0)
      ≡ activations cs + (if b then 1 else 0)
unfolding mark
activations-mark i b c [] h = absurd (ground arith)
activations-mark zero b c (d ∷ cs) h = rw (← some-injective d c h) (omega arith)
activations-mark (suc i) b c (d ∷ cs) h = omega (arith, activations-mark i b c cs h)

mark-same :
    (i : ℕ) (n : String) (cs : List RegistryCenterConfiguration)
    → Named n i cs
    → (c : RegistryCenterConfiguration) × (get_elem? (mark i true cs) i ≡ some c)
      × (c.name ≡ n)
      × (c.activated ≡ true)
unfolding mark
mark-same i n [] (c, h, e) = absurd (ground arith)
mark-same zero n (d ∷ cs) (c, h, e) = (_, refl, ap (λ x. x.name) (some-injective d c h) ∙ e, refl)
mark-same (suc i) n (d ∷ cs) h = mark-same i n cs h

mark-other :
    (i j : ℕ) (b : Bool) (cs : List RegistryCenterConfiguration)
    → i ≢ j
    → get_elem? (mark j b cs) i ≡ get_elem? cs i
unfolding mark
mark-other i j b [] ne = refl
mark-other zero zero b (d ∷ cs) ne = absurd (ne refl)
mark-other (suc i) zero b (d ∷ cs) ne = refl
mark-other zero (suc j) b (d ∷ cs) ne = refl
mark-other (suc i) (suc j) b (d ∷ cs) ne = mark-other i j b cs (λ e. ne (ap suc e))

pub activations_pos :
    (i : ℕ) (c : RegistryCenterConfiguration) (cs : List RegistryCenterConfiguration)
    → get_elem? cs i ≡ some c
    → c.activated ≡ true
    → 0 < activations cs
activations_pos i c [] h on = absurd (ground arith)
activations_pos zero c (d ∷ cs) h on =
    let q : d.activated ≡ true = ap (λ x. x.activated) (some-injective d c h) ∙ on in
    ground (arith, q)
activations_pos (suc i) c (d ∷ cs) h on = omega (arith, activations_pos i c cs h on)

-- Just one configuration is activated, the one at a place, and it has the name.
abbrev pub Only : String → ℕ → List RegistryCenterConfiguration → Type 0
Only n i cs =
    (activations cs ≡ 1)
    × (c : RegistryCenterConfiguration) × (get_elem? cs i ≡ some c)
    × (c.name ≡ n)
    × (c.activated ≡ true)

-- Activating the place, when nothing is activated.
mark-Only :
    (i : ℕ) (n : String) (cs : List RegistryCenterConfiguration)
    → Named n i cs
    → activations cs ≡ 0
    → Only n i (mark i true cs)
mark-Only i n cs (c, h, e) off =
    let (d, there, name, on) = mark-same i n cs (c, h, e) in
    let alone : c.activated ≡ false = elim (Bool-cases c.activated) [
      | inl on' ↦ let pos = activations_pos i c cs h on' in absurd (omega arith)
      | inr off' ↦ off'
    ] in
    (ground (arith, activations-mark i true c cs h, alone), d, there, name, on)

pub set_activated-Only :
    (i : ℕ) (n : String) (cs : List RegistryCenterConfiguration)
    → Named n i cs
    → activations cs ≤ 1
    → Only n i (set_activated i cs)
unfolding set_activated
set_activated-Only i n cs (c, h, e) most =
    by_first (find_activated cs) (find_activated-FirstActivated cs)
  where
    by_first :
        (o : Option ℕ)
        → FirstActivated o cs
        → Only n i (elim o [
          | none ↦ mark i true cs
          | some j ↦ (if i == j then cs else mark i true (mark j false cs))
        ])
    by_first none off = mark-Only i n cs (c, h, e) off
    by_first (some j) (d, there, on) = elim (ℕ_discrete i j) [
      | yes q ↦
          let same : c ≡ d = some-injective c d (sym h ∙ ap (get_elem? cs) q ∙ there) in
          let kept : (if i == j then cs else mark i true (mark j false cs)) ≡ cs =
            ground (arith, q) in
          let pos = activations_pos j d cs there on in
          subst (Only n i) (sym kept) (omega arith, c, h, e, ap (λ x. x.activated) same ∙ on)
      | no ne ↦
          let changed : (if i == j then cs else mark i true (mark j false cs))
              ≡ mark i true (mark j false cs) =
            ground (arith, ne) in
          let off : activations (mark j false cs) ≡ 0 =
            ground (arith, activations-mark j false d cs there, on) in
          subst (Only n i) (sym changed)
            (mark-Only i n (mark j false cs) (c, mark-other i j false cs ne ∙ h, e) off)
    ]

pub activations-append :
    (cs ds : List RegistryCenterConfiguration)
    → activations (cs ++ ds) ≡ activations cs + activations ds
activations-append [] ds = omega arith
activations-append (c ∷ cs) ds = omega (arith, activations-append cs ds)

pub activations-remove_at :
    (i : ℕ) (cs : List RegistryCenterConfiguration) → activations (remove_at i cs) ≤ activations cs
unfolding remove_at
activations-remove_at i [] = omega arith
activations-remove_at zero (c ∷ cs) = omega arith
activations-remove_at (suc i) (c ∷ cs) = omega (arith, activations-remove_at i cs)

pub activations-delete :
    (n : String) (cs : List RegistryCenterConfiguration)
    → activations (delete n cs) ≤ activations cs
unfolding delete
activations-delete n cs = elim (Option-cases (find n cs)) [
  | inl absent ↦ ground (arith, absent)
  | inr (i, there) ↦ rw (delete, there) (activations-remove_at i cs)
]
