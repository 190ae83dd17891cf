-- ===== src/Browser.antt =====
-- What the console takes from the browser and from jQuery and its plugins (console/lib, which is
-- third-party code): the calls as data, and their effect as the interface `Browser`, a parameter
-- of every module that models a page.
pub mod Closures
pub mod Calls
pub mod Form
pub mod Simple
pub mod Requests
use elastic_job_lite.Prelude.{
  ℕ, String, ◌≡◌, Bool, true, false, ◌||◌, ◌&&◌, Option, List, [], ◌∷◌, ◌++◌, ◌===◌, if◌then◌else◌,
}
use elastic_job_lite.Browser.Closures.{Handler, Center, JobConfig}
use elastic_job_lite.Browser.Calls.{Call, on_click, off_click, set_text, add_class, remove_class}

-- `.on` adds a handler behind those that are bound, `.off` takes all of the selector away, and no
-- other call touches the handlers that are bound to the document.
abbrev pub handlers_after : Call → String → List Handler → List Handler
handlers_after (on_click s h) t bound = if s === t then bound ++ h ∷ [] else bound
handlers_after (off_click s) t bound = if s === t then [] else bound
handlers_after _ t bound = bound

-- The counters of the sidebar (index.html), whose text only `.text(v)` changes.
abbrev pub is_tag : String → Bool
is_tag s =
    s === "#reg-nav-tag"
    || s === "#job-nav-tag"
    || s === "#server-nav-tag"
    || s === "#event-trace-nav-tag"

abbrev pub text_after : Call → String → String → String
text_after (set_text s v) t old = if s === t then v else old
text_after _ t old = old

abbrev pub class_after : Call → String → String → Bool → Bool
class_after (add_class s k) t j old = if s === t && k === j then true else old
class_after (remove_class s k) t j old = if s === t && k === j then false else old
class_after _ t j old = old

-- The elements of index.html that stand while pages are loaded into one of them.
abbrev pub is_shell : String → Bool
is_shell s = s === "body" || s === "#content"

abbrev pub names_class : Call → Bool
names_class (add_class s k) = true
names_class (remove_class s k) = true
names_class _ = false

-- The state of the page, what a call does to it, and what the console reads from it. An element
-- that a page names stands in its html, and a button carries the attributes that are read.
pub record Browser : Type 1 where
  pub World : Type 0
  pub exec : Call → World → World
  -- every call made so far, the oldest first
  pub calls : World → List Call
  -- the handlers for clicks that `$(document).on` has bound to a selector, in order
  pub handlers : String → World → List Handler
  pub text : String → World → String
  pub val : String → World → String
  -- `.prop("checked")`
  pub checked : String → World → Bool
  pub attr : String → String → World → String
  pub has_class : String → String → World → Bool
  -- the elements that fit, and how many
  pub elements : String → World → List String
  pub count : String → World → ℕ
  -- `$.i18n.prop`, and the language of the browser, in code units
  pub prop : String → World → String
  pub language : World → Option (List ℕ)
  -- what bootstrapValidator's `isValid` answers for a form
  pub is_valid : String → World → Bool
  -- the answers of the requests with `async: false`; none if the request fails
  pub get_activated : World → Option Bool
  pub get_centers : String → World → Option (List Center)
  pub get_config : String → World → Option JobConfig
  pub calls-exec : (c : Call) (w : World) → calls (exec c w) ≡ calls w ++ c ∷ []
  pub handlers-exec :
      (c : Call) (w : World) (s : String)
      → handlers s (exec c w) ≡ handlers_after c s (handlers s w)
  pub text-exec :
      (c : Call) (w : World) (s : String)
      → is_tag s ≡ true
      → text s (exec c w) ≡ text_after c s (text s w)
  pub has_class-exec :
      (c : Call) (w : World) (s k : String)
      → is_shell s ≡ true
      → names_class c ≡ true
      → has_class s k (exec c w) ≡ class_after c s k (has_class s k w)
