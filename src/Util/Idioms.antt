-- ===== src/Util/Idioms.antt =====
-- Call sequences that many pages write out.
pub mod Bindings
use elastic_job_lite.Prelude.{String, Bool, true, false, Option, none, some, ◌<>◌, ◌>>◌}
use elastic_job_lite.Browser.{Browser}
use elastic_job_lite.Browser.Closures.{Handler, Success}
use elastic_job_lite.Browser.Calls.{
  Method, Request, no_body, on_click, off_click, modal, modal_hide, remove, remove_class, ajax,
}

-- `button[operation='…']`, and with `[data-toggle!='modal']`
abbrev pub operation : String → String
operation name = "button[operation='" <> name <> "']"

abbrev pub plain_operation : String → String
plain_operation name = "button[operation='" <> name <> "'][data-toggle!='modal']"

abbrev pub bodiless : Method → String → Request
bodiless m url = record { method = m; url = url; body = no_body }

-- `if (activated) jsonData.url = url`, where a request that fails leaves `activated` false
abbrev pub url_if_activated : String → Option Bool → Option String
url_if_activated url (some true) = some url
url_if_activated url (some false) = none
url_if_activated url none = none

module _ (B : Browser) where
  open B use {World, exec}

  -- `$(document).off("click", s); $(document).on("click", s, h)`
  unfoldable pub rebind : String → Handler → World → World
  rebind s h = do exec (off_click s); exec (on_click s h)

  unfoldable pub rebind_confirm : Handler → World → World
  unfolding rebind
  rebind_confirm = rebind "#confirm-btn"

  unfoldable pub close_confirm : World → World
  close_confirm = do
    exec (modal "#confirm-dialog" modal_hide)
    exec (remove ".modal-backdrop")
    exec (remove_class "body" "modal-open")

  -- a request with no body
  unfoldable pub send : Method → String → Success → World → World
  send m url k = exec (ajax (bodiless m url) k)
