-- ===== src/History/Markup.antt =====
-- The replacements that both pages make in a long message. A text is its list of code units.
use elastic_job_lite.Prelude.{ℕ, Bool, List, [], ◌∷◌, ◌++◌, codes, ◌&&◌, if◌then◌else◌, ◌==◌, false}

abbrev pub newline : ℕ
newline = 10

abbrev pub carriage_return : ℕ
carriage_return = 13

abbrev pub quote : ℕ
quote = b'\''

abbrev pub backslash : ℕ
backslash = b'\\'

-- whether a text begins with a newline
abbrev pub at_newline : List ℕ → Bool
at_newline [] = false
at_newline (d ∷ s) = d == newline

-- `value.replace(/\r\n/g, put)`: the newline of a pair goes with its carriage return.
unfoldable pub replace_crlf : List ℕ → List ℕ → List ℕ
replace_crlf put [] = []
replace_crlf put (c ∷ []) = c ∷ []
replace_crlf put (c ∷ d ∷ s) =
    let pair = put ++ replace_crlf put s in
    let kept = c ∷ replace_crlf put (d ∷ s) in
    if c == carriage_return && d == newline then pair else kept

-- `value.replace(/c/g, put)` for one code unit
unfoldable pub replace_unit : ℕ → List ℕ → List ℕ → List ℕ
replace_unit u put [] = []
replace_unit u put (c ∷ s) = (if c == u then put else c ∷ []) ++ replace_unit u put s

abbrev pub line_break : List ℕ
line_break = codes "<br/>"

-- `.replace(/\r\n/g,"<br/>").replace(/\n/g,"<br/>").replace(/\'/g, "\\'")`
unfoldable pub escape : List ℕ → List ℕ
unfolding replace_crlf replace_unit
escape value =
    replace_unit quote (backslash ∷ quote ∷ [])
      (replace_unit newline line_break (replace_crlf line_break value))
