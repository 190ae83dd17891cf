-- ===== src/History/Link.antt =====
-- The argument of `showHistoryMessage('…')` in the link of a long message, and the attribute that holds
-- the call.
use elastic_job_lite.Prelude.{
  ℕ, zero, suc, ◌≤◌, ◌<◌, ◌≡◌, ◌≢◌, refl, ◌∙◌, ap, Bool, true, false, ◌||◌, Option, none, some,
  List, [], ◌∷◌, ◌++◌, All, All-append, length, length-append, take, codes, if◌then◌else◌, ◌==◌,
  arith,
}
use elastic_job_lite.History.Markup.{
  newline, carriage_return, quote, backslash, at_newline, replace_crlf, replace_unit, line_break,
  escape,
}
use elastic_job_lite.History.Trace.{max_length, replacement, detail}

abbrev pub Lacks : ℕ → List ℕ → Type 0
Lacks u = All (λ c. c ≢ u)

-- Every carriage return stands before a newline.
abbrev pub IsPaired : List ℕ → Type 0
IsPaired [] = Unit
IsPaired (c ∷ s) = (c ≡ carriage_return → at_newline s ≡ true) × IsPaired s

-- A string literal of JavaScript between single quotes, read from behind its first quote: its value
-- and the text behind its last quote. It holds no line terminator; of the escapes the two for a
-- quote and a backslash are read, and another one gives none.
abbrev prepend : ℕ → Option (List ℕ × List ℕ) → Option (List ℕ × List ℕ)
prepend c none = none
prepend c (some (value, rest)) = some (c ∷ value, rest)

-- the flag tells whether a backslash stands before
literal_from : Bool → List ℕ → Option (List ℕ × List ℕ)
literal_from _ [] = none
literal_from true (c ∷ s) =
    let more = literal_from false s in if c == quote || c == backslash then prepend c more else none
literal_from false (c ∷ s) =
    let escaped = literal_from true s in
    let plain = prepend c (literal_from false s) in
    if c == quote
    then some ([], s)
    else if c == newline || c == carriage_return
    then none
    else if c == backslash
    then escaped
    else plain

pub literal : List ℕ → Option (List ℕ × List ℕ)
unfolding literal_from
literal = literal_from false

module _ (P : ℕ → Type 0) (u : ℕ) (put : List ℕ) (hp : All P put) where
  replace_unit-All : (s : List ℕ) → All P s → All P (replace_unit u put s)
  unfolding replace_unit
  replace_unit-All [] h = tt
  replace_unit-All (c ∷ s) (h, hs) =
      All-append P (if c == u then put else c ∷ []) _ (ground (arith, hp)) (replace_unit-All s hs)

replace_unit-Lacks : (u : ℕ) (put s : List ℕ) → Lacks u put → Lacks u (replace_unit u put s)
unfolding replace_unit
replace_unit-Lacks u put [] h = tt
replace_unit-Lacks u put (c ∷ s) h =
    All-append _ (if c == u then put else c ∷ []) _ (ground (arith, h))
      (replace_unit-Lacks u put s h)

-- what a long message becomes before its quotes are escaped
abbrev pub breaks : List ℕ → List ℕ
breaks value = replace_unit newline line_break (replace_crlf line_break value)

replace_crlf-All :
    (P : ℕ → Type 0) → All P line_break → (s : List ℕ) → All P s → All P (replace_crlf line_break s)
unfolding replace_crlf
replace_crlf-All P b [] h = tt
replace_crlf-All P b (c ∷ []) h = h
replace_crlf-All P b (c ∷ d ∷ s) (hc, hs) =
    ground (arith, b, replace_crlf-All P b s hs.1, replace_crlf-All P b (d ∷ s) hs)

replace_crlf-Lacks : (s : List ℕ) → IsPaired s → Lacks carriage_return (replace_crlf line_break s)
unfolding replace_crlf
replace_crlf-Lacks [] h = tt
replace_crlf-Lacks (c ∷ []) (h, _) = (λ e. cc (h e), tt)
replace_crlf-Lacks (c ∷ d ∷ s) (hc, hs) =
    ground (arith, replace_crlf-Lacks s hs.1, replace_crlf-Lacks (d ∷ s) hs)

literal-quotes :
    (m rest : List ℕ)
    → Lacks backslash m
    → Lacks newline m
    → Lacks carriage_return m
    → literal (replace_unit quote (backslash ∷ quote ∷ []) m ++ quote ∷ rest) ≡ some (m, rest)
unfolding replace_unit literal
literal-quotes [] rest _ _ _ = refl
literal-quotes (c ∷ m) rest (b, bs) (n, ns) (k, ks) = ground (arith, literal-quotes m rest bs ns ks)

-- The escaped text of a message with no backslash, whose carriage returns all stand before a newline,
-- is a literal when a quote stands behind it, and its value is the message with `<br/>` for its line
-- ends.
pub literal-escape :
    (value rest : List ℕ)
    → Lacks backslash value
    → IsPaired value
    → literal (escape value ++ quote ∷ rest) ≡ some (breaks value, rest)
unfolding escape literal
literal-escape value rest b p =
    literal-quotes (breaks value) rest
      (replace_unit-All (λ c. c ≢ backslash) newline line_break (omega arith) _
        (replace_crlf-All (λ c. c ≢ backslash) (omega arith) value b))
      (replace_unit-Lacks newline line_break (replace_crlf line_break value) (omega arith))
      (replace_unit-All (λ c. c ≢ carriage_return) newline line_break (omega arith) _
        (replace_crlf-Lacks value p))

-- Text that none of the three replacements and no rule of the literal touches.
abbrev pub IsPlain : List ℕ → Type 0
IsPlain = All (λ c. (c ≢ quote) × (c ≢ backslash) × (c ≢ newline) × (c ≢ carriage_return))

length-take_le : (n : ℕ) (xs : List ℕ) → n ≤ length xs → length (take n xs) ≡ n
length-take_le zero xs h = refl
length-take_le (suc n) [] h = elim h [ ]
length-take_le (suc n) (x ∷ xs) h = ap suc (length-take_le n xs (omega arith))

-- The text that is shown for a long message has just the greatest length, and is a beginning of the
-- message with the three dots behind it.
pub length-detail :
    (value : List ℕ)
    → max_length < length value
    → (length (detail value) ≡ max_length) × (detail value ≡ take 47 value ++ replacement)
unfolding detail
length-detail value h = (
  length-append (take 47 value) replacement ∙ omega (arith, length-take_le 47 value (omega arith)),
  refl,
)

abbrev pub double_quote : ℕ
double_quote = b'"'

abbrev pub ampersand : ℕ
ampersand = b'&'

-- The value of an attribute of HTML between double quotes, read from behind its first quote, and the
-- text behind its last quote. A character reference, which begins with an ampersand, is not read.
pub attribute : List ℕ → Option (List ℕ × List ℕ)
attribute [] = none
attribute (c ∷ s) =
    let more = prepend c (attribute s) in
    if c == double_quote then some ([], s) else if c == ampersand then none else more

abbrev Unmarked : ℕ → Type 0
Unmarked c = (c ≢ double_quote) × (c ≢ ampersand)

-- the two parts of the link's opening
abbrev pub tag_open : List ℕ
tag_open = codes "<a href=\"javascript: void(0);\" style=\"color:#FF0000;\" onClick=\""

abbrev pub call_open : List ℕ
call_open = codes "showHistoryMessage('"
