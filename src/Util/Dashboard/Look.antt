-- ===== src/Util/Dashboard/Look.antt =====
-- The marked item of a list, and the skin.
use elastic_job_lite.Prelude.{
  String, ◌≡◌, ◌≢◌, refl, ◌∙◌, ◌↔◌, Bool, true, false, ◌||◌, Option, none, some, List, [], ◌∷◌,
  ◌===◌, arith, each, if◌then◌else◌,
}
use text.Mathlib.TextEquality.{eq_iff}
use elastic_job_lite.Browser.{Browser, class_after, names_class}
use elastic_job_lite.Browser.Closures.{Center}
use elastic_job_lite.Browser.Calls.{Call, add_class, remove_class}
use elastic_job_lite.Util.Dashboard.{
  activated_from, activated_name, is_connected, change_skin, my_skins,
}

-- The name of the last activated center.
abbrev pub last_activated : List Center → Option String
last_activated [] = none
last_activated (c ∷ cs) = elim (last_activated cs) [
  | some n ↦ some n
  | none ↦ (if c.activated then some c.name else none)
]

activated_from_lem :
    (found : Option String) (cs : List Center)
    → activated_from found cs ≡ elim (last_activated cs) [ some n ↦ some n | none ↦ found ]
unfolding activated_from
activated_from_lem found [] = refl
activated_from_lem found (c ∷ cs) =
    activated_from_lem (if c.activated then some c.name else found) cs ∙ ground arith

pub activated_name_lem : (cs : List Center) → activated_name cs ≡ last_activated cs
unfolding activated_name
activated_name_lem cs = activated_from_lem none cs ∙ ground arith

-- A name of the list is marked as connected exactly if it is the name of the last activated center,
-- and is not the empty text.
pub is_connected_iff :
    (cs : List Center) (name : String)
    → (is_connected (activated_name cs) name ≡ true)
      ↔ ((last_activated cs ≡ some name) × (name ≢ ""))
unfolding is_connected
is_connected_iff cs name = rw (activated_name_lem cs) (decide (last_activated cs))
  where
    decide : (o : Option String) → (is_connected o name ≡ true) ↔ ((o ≡ some name) × (name ≢ ""))
    decide none = (λ h. cc, λ h. cc (h.0))
    decide (some a) = ground (arith, eq_iff a "", eq_iff a name, eq_iff name "")

abbrev listed : String → List String → Bool
listed k [] = false
listed k (s ∷ ss) = s === k || listed k ss

module _ (B : Browser) where
  body_class :
      (c : Call) (w : B.World) (k : String)
      → names_class c ≡ true
      → B.has_class "body" k (B.exec c w) ≡ class_after c "body" k (B.has_class "body" k w)
  body_class c w k h = B.has_class-exec c w "body" k refl h

  each_remove :
      (ss : List String) (w : B.World) (k : String)
      → B.has_class "body" k (each (λ s. B.exec (remove_class "body" s)) ss w)
        ≡ (if listed k ss then false else B.has_class "body" k w)
  each_remove [] w k = refl
  each_remove (s ∷ ss) w k =
      each_remove ss (B.exec (remove_class "body" s) w) k
      ∙ ground (arith, body_class (remove_class "body" s) w k refl)

  -- After a change of the skin the body has the class that was picked, no other class of the list of
  -- skins, and every class that is not in the list as it was before.
  pub change_skin-has_class :
      (skin k : String) (w : B.World)
      → B.has_class "body" k (change_skin B skin w)
        ≡ (if skin === k then true else if listed k my_skins then false else B.has_class "body" k w)
  unfolding change_skin
  change_skin-has_class skin k w =
      body_class (add_class "body" skin) _ k refl ∙ ground (arith, each_remove my_skins w k)
