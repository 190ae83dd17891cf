-- ===== src/Sharding/Rotate/Cycle.antt =====
-- The rotated list is the end of the list and then its beginning.
use elastic_job_lite.Prelude.{
  ℕ, zero, suc, ◌+◌, ◌-◌, ◌%◌, ◌<◌, ◌≡◌, refl, sym, ◌∙◌, some, List, [], ◌∷◌, ◌++◌, append_assoc,
  length, length-append, take, drop, get_elem?, ltb, leb, Bool-cases, inl, inr, if◌then◌else◌,
  arith,
}
use mathlib.Core.Option
use native.Mathlib.Nat.{mod-eq_of_lt, mod-eq-sub-mod}
use elastic_job_lite.Sharding.Average.{JobInstance}
use elastic_job_lite.Sharding.Rotate.{rotate_each}
use elastic_job_lite.Sharding.Rotate.Int32.{ℤ, pos, plus, rem, get}

place : (j k n : ℕ) → j < n → k < n → (j + k) % n ≡ (if ltb j (n - k) then k + j else j - (n - k))
place j k n hj hk = elim (Bool-cases (leb n (j + k))) [
  | inl beyond ↦
      (mod-eq-sub-mod {n = j + k} {m = n} (ground arith) ∙ mod-eq_of_lt (ground arith))
      ∙ ground arith
  | inr within ↦ mod-eq_of_lt {n = j + k} {m = n} (ground arith) ∙ ground arith
]

module _ {A : Type 0} where
  abbrev pub cycle : ℕ → List A → List A
  cycle k xs = drop k xs ++ take k xs

  get_elem?-append :
      (xs ys : List A) (j : ℕ)
      → get_elem? (xs ++ ys) j
        ≡ (if ltb j (length xs) then get_elem? xs j else get_elem? ys (j - length xs))
  get_elem?-append [] ys j = ground arith
  get_elem?-append (x ∷ xs) ys zero = ground arith
  get_elem?-append (x ∷ xs) ys (suc j) = ground (arith, get_elem?-append xs ys j)

  get_elem?-drop : (k : ℕ) (xs : List A) (j : ℕ) → get_elem? (drop k xs) j ≡ get_elem? xs (k + j)
  get_elem?-drop zero xs j = ground arith
  get_elem?-drop (suc k) [] j = refl
  get_elem?-drop (suc k) (x ∷ xs) j = get_elem?-drop k xs j ∙ ground arith

  get_elem?-take : (k : ℕ) (xs : List A) (j : ℕ) → j < k → get_elem? (take k xs) j ≡ get_elem? xs j
  get_elem?-take zero xs j h = elim h [ ]
  get_elem?-take (suc k) [] j h = refl
  get_elem?-take (suc k) (x ∷ xs) zero h = refl
  get_elem?-take (suc k) (x ∷ xs) (suc j) h = get_elem?-take k xs j (omega arith)

  length-drop : (k : ℕ) (xs : List A) → length (drop k xs) ≡ length xs - k
  length-drop zero xs = omega arith
  length-drop (suc k) [] = omega arith
  length-drop (suc k) (x ∷ xs) = omega (arith, length-drop k xs)

  both_lengths : (k : ℕ) (xs : List A) → length (drop k xs) + length (take k xs) ≡ length xs
  both_lengths zero xs = omega arith
  both_lengths (suc k) [] = omega arith
  both_lengths (suc k) (x ∷ xs) = omega (arith, both_lengths k xs)

  length-cycle : (k : ℕ) (xs : List A) → length (cycle k xs) ≡ length xs
  length-cycle k xs = length-append (drop k xs) (take k xs) ∙ both_lengths k xs

  get_elem?-cycle :
      (k : ℕ) (xs : List A) (j : ℕ)
      → k < length xs
      → j < length xs
      → get_elem? (cycle k xs) j ≡ get_elem? xs ((j + k) % length xs)
  get_elem?-cycle k xs j hk hj =
      get_elem?-append (drop k xs) (take k xs) j
      ∙ rw (place j k (length xs) hj hk, length-drop k xs, get_elem?-drop k xs j)
          (ground (arith, get_elem?-take k xs (j - (length xs - k))))

  get_elem?-middle :
      (pre : List A) (z : A) (zs : List A) → get_elem? (pre ++ z ∷ zs) (length pre) ≡ some z
  get_elem?-middle [] z zs = refl
  get_elem?-middle (x ∷ pre) z zs = get_elem?-middle pre z zs

rotate_each_step :
    (units : List JobInstance) (offset : ℤ) (i rounds : ℕ) (u : JobInstance)
    → get units (rem (plus i offset) (length units)) ≡ some u
    → rotate_each units offset i (suc rounds)
      ≡ Option.map (λ us. u ∷ us) (rotate_each units offset (i + 1) rounds)
unfolding rotate_each
rotate_each_step units offset i rounds u h = ground (arith, h)

-- The loop collects what stands at the places that it computes.
rotate_each_lem :
    (units : List JobInstance) (k : ℕ) (pre zs : List JobInstance)
    → ((j : ℕ)
        → j < length (pre ++ zs)
        → get_elem? units ((j + k) % length units) ≡ get_elem? (pre ++ zs) j)
    → rotate_each units (pos k) (length pre) (length zs) ≡ some zs
unfolding rotate_each plus rem get
rotate_each_lem units k pre [] h = refl
rotate_each_lem units k pre (z ∷ zs) h =
    let inside : length pre < length (pre ++ z ∷ zs) = omega (arith, length-append pre (z ∷ zs)) in
    let here = h (length pre) inside ∙ get_elem?-middle pre z zs in
    let moved : (pre ++ z ∷ []) ++ zs ≡ pre ++ z ∷ zs = append_assoc pre (z ∷ []) zs in
    let later = rotate_each_lem units k (pre ++ z ∷ []) zs (rw moved h) in
    let next : length (pre ++ z ∷ []) ≡ length pre + 1 = length-append pre (z ∷ []) in
    rotate_each_step units (pos k) (length pre) (length zs) z here ∙ rw (← next, later)

pub rotate_each-cycle :
    (units : List JobInstance) (k : ℕ)
    → k < length units
    → rotate_each units (pos k) 0 (length units) ≡ some (cycle k units)
rotate_each-cycle units k h =
    let all =
      rotate_each_lem units k [] (cycle k units)
        (λ j inside. sym (get_elem?-cycle k units j h (rw (← length-cycle k units) inside))) in
    rw (← length-cycle k units) all
