-- ===== src/Sharding/Rotate/Int32.antt =====
-- The `int` arithmetic of the strategy. Sums of two positions in a list are taken to be below 2^31.
use elastic_job_lite.Prelude.{
  ℕ, suc, ◌+◌, ◌-◌, ◌%◌, Option, none, List, get_elem?, ltb, leb, ◌==◌, if◌then◌else◌,
}

-- `negsuc n` is -(n + 1).
pub data ℤ : Type 0 where
  pos : ℕ → ℤ
  negsuc : ℕ → ℤ

-- 32 bits as an `int`
unfoldable pub of_bits : ℕ → ℤ
of_bits n = if ltb n 2147483648 then pos n else negsuc (4294967295 - n)

-- `Math.abs`, which gives the least `int` back
unfoldable pub abs : ℤ → ℤ
abs (pos n) = pos n
abs (negsuc n) = if n == 2147483647 then negsuc n else pos (n + 1)

-- `i + offset`
unfoldable pub plus : ℕ → ℤ → ℤ
plus i (pos k) = pos (i + k)
plus i (negsuc k) = if leb (suc k) i then pos (i - suc k) else negsuc (k - i)

-- `%` has the sign of what is divided.
unfoldable pub rem : ℤ → ℕ → ℤ
rem (pos n) m = pos (n % m)
rem (negsuc n) m = if suc n % m == 0 then pos 0 else negsuc (suc n % m - 1)

-- `List.get`
unfoldable pub get {ℓ} : {A : Type ℓ} → List A → ℤ → Option A
get xs (pos n) = get_elem? xs n
get xs (negsuc n) = none
