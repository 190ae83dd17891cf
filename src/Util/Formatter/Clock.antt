-- ===== src/Util/Formatter/Clock.antt =====
-- What `date_time_formatter` prints, and that it can be read back.
use mathlib.Core.Option
use elastic_job_lite.Prelude.{
  ℕ, zero, suc, ◌+◌, ◌-◌, ◌*◌, ◌/◌, ◌%◌, ◌≤◌, ◌<◌, ◌≡◌, ◌≢◌, refl, List, [], ◌∷◌, ◌++◌, Option,
  none, some, true, codes, All, arith, ◌==◌,
}
use elastic_job_lite.Util.Formatter.{
  Date, numeral_from, numeral, run_length, replace_run, padded, field, year_field, hour12, format,
  date_time_formatter,
}

-- A date whose year has four digits.
pub record IsCalendar (d : Date) : Type 0 where
  pub year_from : 1000 ≤ d.full_year
  pub year_below : d.full_year < 10000
  pub month_below : d.month < 12
  pub date_below : d.date < 32
  pub hours_below : d.hours < 24
  pub minutes_below : d.minutes < 60
  pub seconds_below : d.seconds < 60

abbrev two : ℕ → List ℕ
two v = (b'0' + v / 10) ∷ (b'0' + v % 10) ∷ []

abbrev four : ℕ → List ℕ
four y = (b'0' + y / 1000) ∷ (b'0' + y / 100 % 10) ∷ (b'0' + y / 10 % 10) ∷ (b'0' + y % 10) ∷ []

numeral_of_one : (v : ℕ) → v < 10 → numeral v ≡ (b'0' + v) ∷ []
unfolding numeral
numeral_of_one v h = ground arith

numeral_of_two : (v : ℕ) → 10 ≤ v → v < 100 → numeral v ≡ two v
unfolding numeral
numeral_of_two zero h k = elim h [ ]
numeral_of_two (suc v) h k = ground arith

padded_of_two : (v : ℕ) → v < 100 → padded v ≡ two v
unfolding padded
padded_of_two v h = ground (arith, numeral_of_one v, numeral_of_two v)

numeral_from-four :
    (f y : ℕ) → 1000 ≤ y → y < 10000 → numeral_from (suc (suc (suc (suc f)))) y [] ≡ four y
unfolding numeral_from
numeral_from-four f y h k = ground arith

numeral_of_four : (y : ℕ) → 1000 ≤ y → y < 10000 → numeral y ≡ four y
unfolding numeral
numeral_of_four (suc (suc (suc y))) h k = numeral_from-four y (suc (suc (suc y))) h k
numeral_of_four (suc (suc zero)) h k = absurd (omega arith)
numeral_of_four (suc zero) h k = absurd (omega arith)
numeral_of_four zero h k = absurd (omega arith)

module _ (c : ℕ) (put : ℕ → List ℕ) where
  -- Text before the first run is kept.
  replace_run-append :
      (p s : List ℕ) → All (λ d. d ≢ c) p → replace_run c put (p ++ s) ≡ p ++ replace_run c put s
  unfolding replace_run
  replace_run-append [] s h = refl
  replace_run-append (d ∷ p) s (h, hs) = ground (arith, replace_run-append p s hs)

test_self : (c : ℕ) → (c == c) ≡ true
test_self c = ground arith

replace_run_head :
    (c : ℕ) (put : ℕ → List ℕ) (s : List ℕ)
    → run_length c s ≡ 0
    → replace_run c put (c ∷ c ∷ s) ≡ put 2 ++ s
unfolding replace_run run_length
replace_run_head c put s h = simp (test_self, h)

field_of_two : (v : ℕ) → v < 100 → field v 2 ≡ two v
unfolding field
field_of_two v h = padded_of_two v h

-- A run of two letters behind text without them becomes two digits.
two_letters :
    (c v : ℕ) (p s : List ℕ)
    → All (λ d. d ≢ c) p
    → v < 100
    → run_length c s ≡ 0
    → replace_run c (field v) (p ++ c ∷ c ∷ s) ≡ p ++ (two v ++ s)
two_letters c v p s h k none_more = rw (
  replace_run-append c (field v) p (c ∷ c ∷ s) h,
  replace_run_head c (field v) s none_more,
  field_of_two v k,
)

no_letters : (c : ℕ) (put : ℕ → List ℕ) (s : List ℕ) → All (λ d. d ≢ c) s → replace_run c put s ≡ s
unfolding replace_run run_length
no_letters c put [] h = refl
no_letters c put (d ∷ s) (h, hs) = ground (arith, no_letters c put s hs)

year_letters :
    (y : ℕ) (s : List ℕ)
    → 1000 ≤ y
    → y < 10000
    → run_length b'y' s ≡ 0
    → replace_run b'y' (year_field y) (codes "yyyy" ++ s) ≡ four y ++ s
unfolding replace_run year_field
year_letters y s h k none_more = ground (arith, numeral_of_four y h k)

-- The text for a date: YYYY-MM-DD HH:mm:ss.
abbrev pub stamp : Date → List ℕ
stamp d =
    four d.full_year
    ++ (b'-' ∷ two (d.month + 1))
    ++ (b'-' ∷ two d.date)
    ++ (b' ' ∷ two d.hours)
    ++ (b':' ∷ two d.minutes)
    ++ (b':' ∷ two d.seconds)

module _ (d : Date) (v : IsCalendar d) where
  format-stamp : format d (codes "yyyy-MM-dd HH:mm:ss") ≡ stamp d
  unfolding format run_length
  format-stamp =
      let open_year : List ℕ = four d.full_year ++ b'-' ∷ [] in
      let open_month : List ℕ = open_year ++ two (d.month + 1) ++ b'-' ∷ [] in
      let open_date : List ℕ = open_month ++ two d.date ++ b' ' ∷ [] in
      let open_hours : List ℕ = open_date ++ two d.hours ++ b':' ∷ [] in
      let open_minutes : List ℕ = open_hours ++ two d.minutes ++ b':' ∷ [] in
      let y = v.year_below in
      let m = v.month_below in
      let h = v.date_below in
      let i = v.hours_below in
      let j = v.minutes_below in
      rw
        (
          year_letters d.full_year (codes "-MM-dd HH:mm:ss") v.year_from y refl,
          two_letters b'M' (d.month + 1) open_year (codes "-dd HH:mm:ss") (omega arith)
              (omega arith) refl,
          two_letters b'd' d.date open_month (codes " HH:mm:ss") (omega arith) (omega arith) refl,
          no_letters b'h' (field (hour12 d.hours)) (open_date ++ codes "HH:mm:ss") (omega arith),
          two_letters b'H' d.hours open_date (codes ":mm:ss") (omega arith) (omega arith) refl,
          two_letters b'm' d.minutes open_hours (codes ":ss") (omega arith) (omega arith) refl,
        )
        (two_letters b's' d.seconds open_minutes [] (omega arith) (ground (arith, v.seconds_below))
          refl)

-- A `Date` prints as its stamp, and `null` and `undefined` as the empty text.
pub date_time_formatter-stamp :
    (local : ℕ → Date) (value : Option ℕ)
    → ((t : ℕ) → value ≡ some t → IsCalendar (local t))
    → date_time_formatter local value ≡ elim value [ none ↦ [] | some t ↦ stamp (local t) ]
unfolding date_time_formatter
date_time_formatter-stamp local none h = refl
date_time_formatter-stamp local (some t) h = format-stamp (local t) (h t refl)

abbrev digit : ℕ → ℕ
digit c = c - b'0'

abbrev pair : ℕ → ℕ → ℕ
pair a b = digit a * 10 + digit b

-- The date that a stamp spells.
pub read_stamp : List ℕ → Option Date
read_stamp
      (y0 ∷ y1 ∷ y2 ∷ y3 ∷ _ ∷ m0 ∷ m1 ∷ _ ∷ d0 ∷ d1 ∷ _ ∷ h0 ∷ h1 ∷ _ ∷ i0 ∷ i1 ∷ _ ∷ s0 ∷ s1
        ∷ []) =
    some (record {
      full_year = pair y0 y1 * 100 + pair y2 y3;
      month = pair m0 m1 - 1;
      date = pair d0 d1;
      hours = pair h0 h1;
      minutes = pair i0 i1;
      seconds = pair s0 s1;
    })
read_stamp _ = none

-- The printed text determines all six fields of the date.
pub read_stamp-date_time_formatter :
    (local : ℕ → Date) (t : ℕ)
    → IsCalendar (local t)
    → read_stamp (date_time_formatter local (some t)) ≡ some (local t)
unfolding date_time_formatter read_stamp
read_stamp-date_time_formatter local t v = rw (format-stamp (local t) v) (ground arith)

-- The hour on a clock of twelve lies in 1 to 12, and names the hour with its half of the day.
pub hour12_bounds :
    (h : ℕ) → h < 24 → (1 ≤ hour12 h) × (hour12 h ≤ 12) × (h ≡ hour12 h % 12 + h / 12 * 12)
unfolding hour12
hour12_bounds h k = ground arith

-- A date with a four-digit year is printed as its stamp, YYYY-MM-DD HH:mm:ss, which determines all six
-- of its fields, and `null` and `undefined` as the empty text.
pub date_time_formatter_lem :
    (local : ℕ → Date) (value : Option ℕ)
    → ((t : ℕ) → value ≡ some t → IsCalendar (local t))
    → (date_time_formatter local value ≡ elim value [ none ↦ [] | some t ↦ stamp (local t) ])
      × (read_stamp (date_time_formatter local value) ≡ Option.map local value)
unfolding date_time_formatter read_stamp
date_time_formatter_lem local none h = (date_time_formatter-stamp local none h, refl)
date_time_formatter_lem local (some t) h =
    (date_time_formatter-stamp local (some t) h, read_stamp-date_time_formatter local t (h t refl))
