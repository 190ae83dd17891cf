-- ===== src/Util/Formatter.antt =====
-- util/formatter.js: `Date.prototype.format` and `dateTimeFormatter`. A text is its list of code
-- units. The local calendar fields of a `Date` come from the host, so they are the record `Date`.
pub mod Clock
use elastic_job_lite.Prelude.{
  ℕ, zero, suc, ◌+◌, ◌-◌, ◌/◌, ◌%◌, List, [], ◌∷◌, ◌++◌, Option, none, some, codes, length, drop,
  ◌==◌, ltb, if◌then◌else◌,
}

-- `getFullYear()`, `getMonth()` (from 0), `getDate()`, `getHours()`, `getMinutes()`, `getSeconds()`
pub record Date : Type 0 where
  pub full_year : ℕ
  pub month : ℕ
  pub date : ℕ
  pub hours : ℕ
  pub minutes : ℕ
  pub seconds : ℕ

-- `"" + n`: the decimal numeral; `fuel` bounds the digits.
numeral_from : ℕ → ℕ → List ℕ → List ℕ
numeral_from zero n out = out
numeral_from (suc fuel) n out =
    let more = numeral_from fuel (n / 10) ((b'0' + n % 10) ∷ out) in
    if ltb n 10 then (b'0' + n) ∷ out else more

unfoldable pub numeral : ℕ → List ℕ
unfolding numeral_from
numeral n = numeral_from (suc n) n []

-- The length of the run of `c` at the front.
run_length : ℕ → List ℕ → ℕ
run_length c [] = 0
run_length c (d ∷ s) = if c == d then suc (run_length c s) else 0

-- `fmt.replace(RegExp.$1, put)`, where `$1` is the first match of `(c+)` in `fmt`: the first run of
-- `c`. The text to put may depend on the run's length; with no match the text stays.
unfoldable pub replace_run : ℕ → (ℕ → List ℕ) → List ℕ → List ℕ
unfolding run_length
replace_run c put [] = []
replace_run c put (d ∷ s) =
    let kept = d ∷ replace_run c put s in
    if c == d then put (run_length c (d ∷ s)) ++ drop (run_length c (d ∷ s)) (d ∷ s) else kept

-- `("00" + v).substr(("" + v).length)`
unfoldable pub padded : ℕ → List ℕ
padded v = drop (length (numeral v)) (codes "00" ++ numeral v)

-- the text for a run of `len`: the bare value for one letter, the padded one for more
unfoldable pub field : ℕ → ℕ → List ℕ
field v len = if len == 1 then numeral v else padded v

-- `(this.getFullYear() + "").substr(4 - len)`; a negative start counts from the end.
unfoldable pub year_field : ℕ → ℕ → List ℕ
year_field y len =
    if ltb 4 len
    then drop (length (numeral y) - (len - 4)) (numeral y)
    else drop (4 - len) (numeral y)

-- the hour on a clock of twelve
unfoldable pub hour12 : ℕ → ℕ
hour12 h = if h % 12 == 0 then 12 else h % 12

-- the fields, in the order of the literal `date`: M d h H m s
unfoldable pub format : Date → List ℕ → List ℕ
format d fmt =
    let f0 = replace_run b'y' (year_field d.full_year) fmt in
    let f1 = replace_run b'M' (field (d.month + 1)) f0 in
    let f2 = replace_run b'd' (field d.date) f1 in
    let f3 = replace_run b'h' (field (hour12 d.hours)) f2 in
    let f4 = replace_run b'H' (field d.hours) f3 in
    let f5 = replace_run b'm' (field d.minutes) f4 in replace_run b's' (field d.seconds) f5

-- `null` and `undefined` give the empty text; `local` is the host's `new Date(value)`.
unfoldable pub date_time_formatter : (ℕ → Date) → Option ℕ → List ℕ
date_time_formatter local none = []
date_time_formatter local (some value) = format (local value) (codes "yyyy-MM-dd HH:mm:ss")
