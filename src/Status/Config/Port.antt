-- ===== src/Status/Config/Port.antt =====
-- The rules for the monitor port, and the flags that ask for a confirmation.
use elastic_job_lite.Prelude.{
  ℕ, ◌+◌, ◌-◌, ◌*◌, ◌≤◌, ◌≡◌, refl, ◌∙◌, Bool, true, false, ◌&&◌, none, some, List, [], ◌∷◌, arith,
  ap, All, ◌==◌, leb,
}
use mathlib.Core.List.{foldl}
use elastic_job_lite.Status.Config.{
  is_digit, is_space, all_digits, matches_integer, int, read_digits, parse_int, port_accepted,
}

abbrev pub IsDigits : List ℕ → Type 0
IsDigits = All (λ c. (b'0' ≤ c) × (c ≤ b'9'))

-- the number that digits spell behind `n`
abbrev pub value : ℕ → List ℕ → ℕ
value = foldl (λ n c. n * 10 + (c - b'0'))

is_digit_of : (c : ℕ) → b'0' ≤ c → c ≤ b'9' → is_digit c ≡ true
unfolding is_digit
is_digit_of c lo hi = ground arith

not-space : (c : ℕ) → b'0' ≤ c → c ≤ b'9' → is_space c ≡ false
unfolding is_space
not-space c lo hi = ground arith

not-sign : (c : ℕ) → b'0' ≤ c → ((c == b'-') ≡ false) × ((c == b'+') ≡ false)
not-sign c lo = ground arith

read_digits_of_IsDigits :
    (negative : Bool) (n : ℕ) (s : List ℕ)
    → IsDigits s
    → read_digits negative (some n) s ≡ int negative (value n s)
unfolding read_digits
read_digits_of_IsDigits negative n [] h = refl
read_digits_of_IsDigits negative n (c ∷ s) ((lo, hi), h) =
    rw (is_digit_of c lo hi) (read_digits_of_IsDigits negative (n * 10 + (c - b'0')) s h)

read_first :
    (negative : Bool) (c : ℕ) (s : List ℕ)
    → IsDigits (c ∷ s)
    → read_digits negative none (c ∷ s) ≡ int negative (value 0 (c ∷ s))
unfolding read_digits
read_first negative c s ((lo, hi), h) =
    rw (is_digit_of c lo hi) (read_digits_of_IsDigits negative (c - b'0') s h ∙ start)
  where
    start : int negative (value (c - b'0') s) ≡ int negative (value 0 (c ∷ s))
    start = ap (λ n. int negative (value n s)) (omega arith)

-- Digits, and digits behind a minus sign, are read as the number that they spell.
parse_int_of_IsDigits :
    (c : ℕ) (s : List ℕ)
    → IsDigits (c ∷ s)
    → (parse_int (c ∷ s) ≡ int false (value 0 (c ∷ s)))
      × (parse_int (b'-' ∷ c ∷ s) ≡ int true (value 0 (c ∷ s)))
unfolding parse_int is_space
parse_int_of_IsDigits c s ((lo, hi), h) = (
  rw (not-space c lo hi, (not-sign c lo).0, (not-sign c lo).1) (read_first false c s ((lo, hi), h)),
  read_first true c s ((lo, hi), h),
)

all_digits_of_IsDigits : (s : List ℕ) → IsDigits s → all_digits s ≡ true
unfolding all_digits
all_digits_of_IsDigits [] h = refl
all_digits_of_IsDigits (c ∷ s) ((lo, hi), h) = rw (is_digit_of c lo hi) (all_digits_of_IsDigits s h)

matches_integer_of_IsDigits :
    (c : ℕ) (s : List ℕ)
    → IsDigits (c ∷ s)
    → (matches_integer (c ∷ s) ≡ true) × (matches_integer (b'-' ∷ c ∷ s) ≡ true)
unfolding matches_integer
matches_integer_of_IsDigits c [] ((lo, hi), h) =
    (is_digit_of c lo hi, rw (is_digit_of c lo hi) (ground arith))
matches_integer_of_IsDigits c (d ∷ s) ((lo, hi), h) = (
  rw (is_digit_of c lo hi) (all_digits_of_IsDigits (d ∷ s) h),
  rw (is_digit_of c lo hi, all_digits_of_IsDigits (d ∷ s) h) (ground arith),
)

-- What the rules `notEmpty`, `regexp` and `callback` of the field accept together.
abbrev pub port_valid : List ℕ → Bool
port_valid [] = false
port_valid (c ∷ s) = matches_integer (c ∷ s) && port_accepted (c ∷ s)

-- A text of digits is accepted as the monitor port exactly if it spells a number up to 65535, and
-- digits behind a minus sign are accepted always.
pub port_valid-digits :
    (c : ℕ) (s : List ℕ)
    → IsDigits (c ∷ s)
    → (port_valid (c ∷ s) ≡ leb (value 0 (c ∷ s)) 65535) × (port_valid (b'-' ∷ c ∷ s) ≡ true)
unfolding port_accepted
port_valid-digits c s h =
    let (plain, minus) = matches_integer_of_IsDigits c s h in
    let (read, read_minus) = parse_int_of_IsDigits c s h in
    (rw (plain, read), rw (minus, read_minus))
