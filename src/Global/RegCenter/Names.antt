-- ===== src/Global/RegCenter/Names.antt =====
-- The check that the name of a new registry center or data source is new.
use elastic_job_lite.Prelude.{
  String, ◌≡◌, ◌≢◌, refl, ◌↔◌, Bool, true, false, none, some, List, [], ◌∷◌, All, arith,
}
use text.Mathlib.TextEquality.{eq_iff}
use elastic_job_lite.Browser.Closures.{Center}
use elastic_job_lite.Global.RegCenter.{new_name_from, name_is_new}

new_name_from_iff :
    (result : Bool) (name : String) (cs : List Center)
    → (new_name_from result name cs ≡ true) ↔ ((result ≡ true) × All (λ c. name ≢ c.name) cs)
unfolding new_name_from
new_name_from_iff result name [] = (λ h. (h, tt), λ h. h.0)
new_name_from_iff result name (c ∷ cs) =
    ground
      (arith, eq_iff name c.name, new_name_from_iff result name cs, new_name_from_iff false name cs)

-- A name is accepted if the request for the list fails, and otherwise exactly if no center of the
-- list has that name.
pub name_is_new_iff :
    (name : String) (cs : List Center)
    → (name_is_new name none ≡ true)
      × ((name_is_new name (some cs) ≡ true) ↔ All (λ c. name ≢ c.name) cs)
unfolding name_is_new
name_is_new_iff name cs =
    let (to, from) = new_name_from_iff true name cs in (refl, (λ h. (to h).1, λ h. from (refl, h)))
