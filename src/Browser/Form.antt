-- ===== src/Browser/Form.antt =====
-- The fields of a form that the user has not touched since the page was loaded.
use elastic_job_lite.Prelude.{
  String, ◌≡◌, refl, ◌∙◌, ap, Bool, true, false, ◌||◌, ◌&&◌, List, [], ◌∷◌, ◌===◌, if◌then◌else◌,
  All, each,
}
use elastic_job_lite.Browser.{Browser}
use elastic_job_lite.Browser.Closures.{text_or_empty}
use elastic_job_lite.Browser.Calls.{Call, set_attr, set_text, set_checked, show}

-- html/status/job/job_config.html: its two text areas; its other texts are inputs.
abbrev pub is_area : String → Bool
is_area s = s === "#sharding-item-parameters" || s === "#description"

abbrev pub is_input : String → Bool
is_input s =
    s === "#job-name"
    || s === "#job-type"
    || s === "#job-class"
    || s === "#sharding-total-count"
    || s === "#cron"
    || s === "#job-parameter"
    || s === "#max-time-diff-seconds"
    || s === "#monitor-port"
    || s === "#job-sharding-strategy-class"
    || s === "#executor-service-handler"
    || s === "#job-exception-handler"
    || s === "#reconcile-interval-minutes"
    || s === "#script-command-line"

abbrev pub is_box : String → Bool
is_box s =
    s === "#monitor-execution"
    || s === "#failover"
    || s === "#misfire"
    || s === "#streaming-process"

-- An input shows its attribute `value`, and a text area its text.
abbrev pub val_after : Call → String → String → String
val_after (set_attr t n v) s old =
    if t === s && n === "value" && is_input s then text_or_empty v else old
val_after (set_text t v) s old = if t === s && is_area s then v else old
val_after _ s old = old

abbrev pub checked_after : Call → String → Bool → Bool
checked_after (set_checked t b) s old = if t === s && is_box s then b else old
checked_after _ s old = old

-- the calls that fill a form
abbrev pub fills : Call → Bool
fills (set_attr _ _ _) = true
fills (set_text _ _) = true
fills (set_checked _ _) = true
fills (show _) = true
fills _ = false

-- whether the field takes the text of the call
abbrev pub taken : (String → String → Bool) → Call → Bool
taken takes (set_attr s _ v) = takes s (text_or_empty v)
taken takes (set_text s v) = takes s v
taken takes _ = true

-- `IsFresh`: no field was touched. A field takes a text as it is if the text fits its type: a number
-- in a field for numbers, one line in an input.
pub record Form (B : Browser) : Type 1 where
  pub IsFresh : B.World → Type 0
  pub takes : String → String → Bool
  pub exec-IsFresh : (c : Call) (w : B.World) → fills c ≡ true → IsFresh w → IsFresh (B.exec c w)
  pub val-exec :
      (c : Call) (w : B.World) (s : String)
      → IsFresh w
      → fills c ≡ true
      → (is_input s || is_area s) ≡ true
      → taken takes c ≡ true
      → B.val s (B.exec c w) ≡ val_after c s (B.val s w)
  pub checked-exec :
      (c : Call) (w : B.World) (s : String)
      → IsFresh w
      → fills c ≡ true
      → is_box s ≡ true
      → B.checked s (B.exec c w) ≡ checked_after c s (B.checked s w)

module _ {B : Browser} (F : Form B) where
  -- what a list of calls leaves in a field
  abbrev pub val_in : List Call → String → String → String
  val_in [] s old = old
  val_in (c ∷ cs) s old = val_in cs s (val_after c s old)

  abbrev pub checked_in : List Call → String → Bool → Bool
  checked_in [] s old = old
  checked_in (c ∷ cs) s old = checked_in cs s (checked_after c s old)

  pub each-exec-val :
      (cs : List Call) (w : B.World) (s : String)
      → F.IsFresh w
      → All (λ c. fills c ≡ true) cs
      → All (λ c. taken F.takes c ≡ true) cs
      → (is_input s || is_area s) ≡ true
      → B.val s (each B.exec cs w) ≡ val_in cs s (B.val s w)
  each-exec-val [] w s h _ _ q = refl
  each-exec-val (c ∷ cs) w s h (f, fs) (t, ts) q =
      each-exec-val cs (B.exec c w) s (F.exec-IsFresh c w f h) fs ts q
      ∙ ap (val_in cs s) (F.val-exec c w s h f q t)

  pub each-exec-checked :
      (cs : List Call) (w : B.World) (s : String)
      → F.IsFresh w
      → All (λ c. fills c ≡ true) cs
      → is_box s ≡ true
      → B.checked s (each B.exec cs w) ≡ checked_in cs s (B.checked s w)
  each-exec-checked [] w s h _ q = refl
  each-exec-checked (c ∷ cs) w s h (f, fs) q =
      each-exec-checked cs (B.exec c w) s (F.exec-IsFresh c w f h) fs q
      ∙ ap (checked_in cs s) (F.checked-exec c w s h f q)

  pub each-exec-IsFresh :
      (cs : List Call) (w : B.World)
      → F.IsFresh w
      → All (λ c. fills c ≡ true) cs
      → F.IsFresh (each B.exec cs w)
  each-exec-IsFresh [] w h _ = h
  each-exec-IsFresh (c ∷ cs) w h (f, fs) =
      each-exec-IsFresh cs (B.exec c w) (F.exec-IsFresh c w f h) fs
