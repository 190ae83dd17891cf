-- ===== src/Rest/Url.antt =====
-- The paths of requests, as texts and as lists of their segments.
use Prim.Native.Char.{Char, code}
use Prim.Native.String.append
use elastic_job_lite.Prelude.{
  ℕ, String, ◌≡◌, refl, sym, ap, ◌∙◌, Bool, true, false, ◌&&◌, ◌||◌, not, List, [], ◌∷◌, ◌<>◌,
  ◌===◌, ◌==◌, leb, if◌then◌else◌, arith, All,
}

-- `/a/b` of `a` and `b`
abbrev pub path : List String → String
path [] = ""
path (s ∷ ss) = "/" <> s <> path ss

abbrev pub longer : Char → List String → List String
longer c [] = []
longer c (s ∷ ss) = String.◌∷◌ c s ∷ ss

-- the texts between the slashes
unfoldable pub split : String → List String
split String.[] = "" ∷ []
split (String.◌∷◌ c s) = let rest = split s in if code c == b'/' then "" ∷ rest else longer c rest

-- letters, digits and `-` `.` `_` `~`, which a URL holds as they are
abbrev pub is_unreserved : ℕ → Bool
is_unreserved c =
    (leb b'a' c && leb c b'z')
    || (leb b'A' c && leb c b'Z')
    || (leb b'0' c && leb c b'9')
    || c == b'-'
    || c == b'.'
    || c == b'_'
    || c == b'~'

abbrev pub all_unreserved : String → Bool
all_unreserved String.[] = true
all_unreserved (String.◌∷◌ c s) = is_unreserved (code c) && all_unreserved s

-- A name that is one segment of a path as it stands.
abbrev pub is_name : String → Bool
is_name s = all_unreserved s && not (s === "") && not (s === ".") && not (s === "..")

abbrev extend : String → List String → List String
extend s [] = []
extend s (p ∷ ps) = (s <> p) ∷ ps

pub nil_append : (t : String) → "" <> t ≡ t
nil_append t = λ i. append.nil t i

cons_append : (c : Char) (s t : String) → String.◌∷◌ c s <> t ≡ String.◌∷◌ c (s <> t)
cons_append c s t = λ i. append.cons c s t i

pub append_nil : (s : String) → s <> "" ≡ s
append_nil String.[] = nil_append ""
append_nil (String.◌∷◌ c s) = cons_append c s "" ∙ ap (String.◌∷◌ c) (append_nil s)

extend_nil : (ps : List String) → extend "" ps ≡ ps
extend_nil [] = refl
extend_nil (p ∷ ps) = ap (λ q. q ∷ ps) (nil_append p)

longer-extend :
    (c : Char) (s : String) (ps : List String) → longer c (extend s ps) ≡ extend (String.◌∷◌ c s) ps
longer-extend c s [] = refl
longer-extend c s (p ∷ ps) = ap (λ q. q ∷ ps) (sym (cons_append c s p))

-- A text with no slash continues the first segment of what follows.
split_word : (s t : String) → all_unreserved s ≡ true → split (s <> t) ≡ extend s (split t)
unfolding split
split_word String.[] t h = ap split (nil_append t) ∙ sym (extend_nil (split t))
split_word (String.◌∷◌ c s) t h =
    let inside : code c == b'/' ≡ false = ground arith in
    ap split (cons_append c s t)
    ∙ rw inside (ap (longer c) (split_word s t (ground arith)) ∙ longer-extend c s (split t))

-- A name has no slash.
all_unreserved_of_name : (s : String) → is_name s ≡ true → all_unreserved s ≡ true
all_unreserved_of_name s h = ground arith

abbrev is_slash : String → Bool
is_slash (String.◌∷◌ c String.[]) = code c == b'/'
is_slash _ = false

split_first : (s t : String) → is_slash s ≡ true → split (s <> t) ≡ "" ∷ split t
unfolding split
split_first String.[] t h = cc
split_first (String.◌∷◌ c String.[]) t h =
    ap split (cons_append c "" t ∙ ap (String.◌∷◌ c) (nil_append t)) ∙ rw h refl
split_first (String.◌∷◌ c (String.◌∷◌ d s)) t h = cc

split-slash : (t : String) → split ("/" <> t) ≡ "" ∷ split t
split-slash t = split_first "/" t refl

-- The segments of a path are what it was made of.
pub split-path : (ss : List String) → All (λ s. is_name s ≡ true) ss → split (path ss) ≡ "" ∷ ss
unfolding split
split-path [] h = refl
split-path (s ∷ ss) (h, hs) =
    split-slash (s <> path ss)
    ∙ ap (λ ps. "" ∷ ps)
        (split_word s (path ss) (all_unreserved_of_name s h)
          ∙ ap (extend s) (split-path ss hs)
          ∙ ap (λ q. q ∷ ss) (append_nil s))
