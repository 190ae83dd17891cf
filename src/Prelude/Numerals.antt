-- ===== src/Prelude/Numerals.antt =====
-- `"" + n` for a natural number.
use Prim.Native.Nat.{ℕ, zero, suc, ◌/◌, ◌%◌}
use Prim.Native.String.{String}
use elastic_job_lite.Prelude.Tests.{◌==◌, ltb, if◌then◌else◌}
use elastic_job_lite.Prelude.Text.{◌<>◌}

digit_text : ℕ → String
digit_text d =
    if d == 0
    then "0"
    else if d == 1
    then "1"
    else if d == 2
    then "2"
    else if d == 3
    then "3"
    else if d == 4
    then "4"
    else if d == 5
    then "5"
    else if d == 6
    then "6"
    else if d == 7
    then "7"
    else if d == 8
    then "8"
    else "9"

numeral_text_from : ℕ → ℕ → String → String
numeral_text_from zero n out = out
numeral_text_from (suc fuel) n out =
    let more = numeral_text_from fuel (n / 10) (digit_text (n % 10) <> out) in
    if ltb n 10 then digit_text n <> out else more

-- A number has at most as many digits as its value and one more, which is the fuel.
unfoldable pub numeral_text : ℕ → String
unfolding numeral_text_from digit_text
numeral_text n = numeral_text_from (suc n) n ""
