-- ===== src/Browser/Simple.antt =====
-- A small browser that meets the interface: it keeps the calls, and answers what it is told to.
use elastic_job_lite.Prelude.{ℕ, String, refl, Bool, true, false, Option, List, [], ◌∷◌}
use mathlib.Core.List.{reverse, reverse-cons}
use elastic_job_lite.Browser.{Browser, handlers_after, text_after, class_after}
use elastic_job_lite.Browser.Form.{Form, val_after, checked_after}
use elastic_job_lite.Browser.Closures.{Handler, Center, JobConfig}
use elastic_job_lite.Browser.Calls.{Call}

-- What a page holds at first and what the server answers.
pub record Answers : Type 0 where
  pub val : String → String
  pub checked : String → Bool
  pub attr : String → String → String
  pub elements : String → List String
  pub count : String → ℕ
  pub prop : String → String
  pub language : Option (List ℕ)
  pub is_valid : Bool
  pub activated : Option Bool
  pub centers : Option (List Center)
  pub config : Option JobConfig

-- the calls, the newest first
abbrev pub Past : Type 0
Past = List Call

abbrev pub bound_in : String → Past → List Handler
bound_in s [] = []
bound_in s (c ∷ past) = handlers_after c s (bound_in s past)

abbrev text_in : String → Past → String
text_in s [] = ""
text_in s (c ∷ past) = text_after c s (text_in s past)

abbrev class_in : String → String → Past → Bool
class_in s k [] = false
class_in s k (c ∷ past) = class_after c s k (class_in s k past)

abbrev val_in : Answers → String → Past → String
val_in a s [] = a.val s
val_in a s (c ∷ past) = val_after c s (val_in a s past)

abbrev checked_in : Answers → String → Past → Bool
checked_in a s [] = a.checked s
checked_in a s (c ∷ past) = checked_after c s (checked_in a s past)

abbrev pub simple : Answers → Browser
simple a = record {
  World = Past;
  exec = λ c past. c ∷ past;
  calls = reverse;
  handlers = bound_in;
  text = text_in;
  val = val_in a;
  checked = checked_in a;
  attr = λ s n _. a.attr s n;
  has_class = class_in;
  elements = λ s _. a.elements s;
  count = λ s _. a.count s;
  prop = λ k _. a.prop k;
  language = λ _. a.language;
  is_valid = λ _ _. a.is_valid;
  get_activated = λ _. a.activated;
  get_centers = λ _ _. a.centers;
  get_config = λ _ _. a.config;
  calls-exec = reverse-cons;
  handlers-exec = λ c w s. refl;
  text-exec = λ c w s h. refl;
  has_class-exec = λ c w s k h n. refl;
}

-- A form of it is fresh always, and its fields take every text.
abbrev pub simple_form : (a : Answers) → Form (simple a)
simple_form a = record {
  IsFresh = λ w. Unit;
  takes = λ s v. true;
  exec-IsFresh = λ c w f h. tt;
  val-exec = λ c w s h f q t. refl;
  checked-exec = λ c w s h f q. refl;
}
