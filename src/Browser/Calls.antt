-- ===== src/Browser/Calls.antt =====
-- The calls of jQuery, of its plugins and of the browser that the console makes.
use elastic_job_lite.Prelude.{ℕ, String, Bool, Option, List}
use elastic_job_lite.Browser.Closures.{Handler, Success, JobConfig}

pub data Method : Type 0 where
  head get post put delete : Method

pub data Body : Type 0 where
  no_body : Body
  -- `JSON.stringify` of an object of texts
  fields : List (String × String) → Body
  job : JobConfig → Body

pub record Request : Type 0 where
  pub method : Method
  pub url : String
  pub body : Body

pub data Modal : Type 0 where
  modal_show modal_hide modal_static : Modal

-- A rule of a field of bootstrapValidator.
pub data Rule : Type 0 where
  not_empty : Rule
  max_length : ℕ → Rule
  -- `/^(-?\d+)?$/`
  is_integer : Rule
  -- the callbacks: the name is new to the list at the url, or the port is in range
  is_new : String → String → Rule
  port_in_range : Rule

-- An element is named by its selector; `s::parent` is `$(s).parent()`, `s>*` its children.
pub data Call : Type 0 where
  on_click : String → Handler → Call
  off_click : String → Call
  -- an event of the elements themselves: selector, event, handler
  bind : String → String → Handler → Call
  set_text set_html append : String → String → Call
  set_val : String → String → Call
  -- none for `null`, which takes the attribute away
  set_attr : String → String → Option String → Call
  -- `.attr("checked", b)`
  set_checked : String → Bool → Call
  set_css : String → String → String → Call
  show hide remove empty : String → Call
  add_class remove_class : String → String → Call
  -- `removeClass()` with no argument
  remove_classes : String → Call
  disable : String → Call
  click : String → Call
  -- `event.preventDefault()` of a click on the element
  prevent_default : String → Call
  tooltip : String → Call
  fix_title : String → Call
  button : String → String → Call
  modal : String → Modal → Call
  -- `setTimeout` that hides the dialog
  hide_later : String → ℕ → Call
  load : String → String → Option Handler → Call
  -- the table's selector and its url
  table : String → Option String → Call
  refresh refresh_silently : String → Call
  ajax : Request → Success → Call
  -- a GET with `async: false`
  get_sync : String → Call
  i18n_properties : String → Call
  -- bootstrapValidator
  validator : String → List (String × List Rule) → Call
  validate reset_validator reset_form : String → Call
  enable_field : String → String → Bool → Call
  update_status : String → String → String → Call
  datepicker : String → Call
  input_mask : String → Call
