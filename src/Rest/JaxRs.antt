-- ===== src/Rest/JaxRs.antt =====
-- What the annotations of JAX-RS say of a class, and what the server makes of them. The server,
-- Jersey in Jetty, is third-party code: its documented behaviour is the interface `Server`. Media types
-- are left out: the requests of the operations have no body, which `@Consumes` would be about.
use Prim.Native.String
use elastic_job_lite.Prelude.{
  ℕ, ◌+◌, String, ◌≡◌, Bool, true, false, ◌&&◌, ◌||◌, not, Option, none, some, List, [], ◌∷◌, ◌++◌,
  ◌===◌, leb, if◌then◌else◌, All,
}
use elastic_job_lite.Browser.Calls.{Method}
use elastic_job_lite.Rest.Url.{path, is_name}

-- A segment of `@Path`: a text, or a parameter in braces.
pub data Piece : Type 0 where
  lit : String → Piece
  param : Piece

-- A method of a class: its request method, its `@Path`, and what it makes of the parameters, those of
-- the class first.
pub record Route (A : Type 0) : Type 0 where
  pub method : Method
  pub pieces : List Piece
  pub call : List String → Option A

pub record Resource (A : Type 0) : Type 0 where
  pub pieces : List Piece
  pub routes : List (Route A)

abbrev pub same_method : Method → Method → Bool
same_method Method.head Method.head = true
same_method Method.get Method.get = true
same_method Method.post Method.post = true
same_method Method.put Method.put = true
same_method Method.delete Method.delete = true
same_method _ _ = false

abbrev pub add_param :
    String → Option (List String × List String) → Option (List String × List String)
add_param s none = none
add_param s (some (ps, rest)) = some (s ∷ ps, rest)

-- The parameters, and the segments that are left. A parameter is not empty.
abbrev pub fits : List Piece → List String → Option (List String × List String)
fits [] ss = some ([], ss)
fits (p ∷ ps) [] = none
fits (lit t ∷ ps) (s ∷ ss) = if t === s then fits ps ss else none
fits (param ∷ ps) (s ∷ ss) = if s === "" then none else add_param s (fits ps ss)

-- the number of literal characters
abbrev pub literals : List Piece → ℕ
literals [] = 0
literals (lit t ∷ ps) = String.len t + 1 + literals ps
literals (param ∷ ps) = 1 + literals ps

-- whether one pattern comes before another that a path fits as well
abbrev pub same_piece : Piece → Piece → Bool
same_piece (lit s) (lit t) = s === t
same_piece param param = true
same_piece _ _ = false

abbrev pub same_pieces : List Piece → List Piece → Bool
same_pieces [] [] = true
same_pieces (p ∷ ps) (q ∷ qs) = same_piece p q && same_pieces ps qs
same_pieces _ _ = false

-- A path goes to the pattern with the most literal characters; where these are as many, the order is
-- not known.
abbrev pub rivals : List Piece → List Piece → Bool
rivals ps qs = not (same_pieces ps qs) && leb (literals ps) (literals qs)

abbrev pub begins : List Piece → List String → Bool
begins ps ss = elim (fits ps ss) [ none ↦ false | some _ ↦ true ]

-- the parameters of a path that fits to its end
abbrev pub fits_all : List Piece → List String → Option (List String)
fits_all ps ss = elim (fits ps ss) [
  | none ↦ none
  | some (qs, []) ↦ some qs
  | some (qs, _ ∷ _) ↦ none
]

abbrev pub is_some : {A : Type 0} → Option A → Bool
is_some none = false
is_some (some _) = true

module _ {A : Type 0} where
  abbrev pub has_rival_class : List (Resource A) → List Piece → List String → Bool
  has_rival_class [] ps ss = false
  has_rival_class (r ∷ rs) ps ss =
      (rivals ps r.pieces && begins r.pieces ss) || has_rival_class rs ps ss

  abbrev pub has_rival : List (Route A) → List Piece → List String → Bool
  has_rival [] ps ss = false
  has_rival (rt ∷ rts) ps ss =
      (rivals ps rt.pieces && is_some (fits_all rt.pieces ss)) || has_rival rts ps ss

  -- The methods of a class that take the rest of a path, after the parameters `ps`. The pattern is
  -- chosen before the request method.
  abbrev pub called : List (Route A) → List (Route A) → Method → List String → List String → List A
  called all [] m ps rest = []
  called all (rt ∷ rts) m ps rest =
      (if same_method rt.method m && not (has_rival all rt.pieces rest)
        then elim (fits_all rt.pieces rest) [
          | none ↦ []
          | some qs ↦ elim (rt.call (ps ++ qs)) [ none ↦ [] | some a ↦ a ∷ [] ]
        ]
        else [])
      ++ called all rts m ps rest

  abbrev pub answers_of : List (Resource A) → List (Resource A) → Method → List String → List A
  answers_of all [] m ss = []
  answers_of all (r ∷ rs) m ss =
      elim (fits r.pieces ss) [
        | none ↦ []
        | some (ps, rest) ↦
            (if has_rival_class all r.pieces ss then [] else called r.routes r.routes m ps rest)
      ]
      ++ answers_of all rs m ss

  -- The methods that take a request, in the class whose path it begins with.
  abbrev pub answers : List (Resource A) → Method → List String → List A
  answers rs m ss = answers_of rs rs m ss

-- `received` is the path that the server sees for the one that a script writes.
pub record Server (A : Type 0) : Type 0 where
  pub received : String → String
  pub dispatch : List (Resource A) → Method → List String → Option A
  -- a path of unreserved characters arrives as it is
  pub received-path :
      (ss : List String) → All (λ s. is_name s ≡ true) ss → received (path ss) ≡ path ss
  -- a request that just one method takes is given to it
  pub dispatch-answers :
      (rs : List (Resource A)) (m : Method) (ss : List String) (a : A)
      → answers rs m ss ≡ a ∷ []
      → dispatch rs m ss ≡ some a
