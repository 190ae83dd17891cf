-- ===== src/Util/Common.antt =====
-- util/common.js: dialogs, the guest's restrictions and the language.
pub mod Bindings
pub mod Language
use elastic_job_lite.Prelude.{
  ℕ, ◌+◌, String, Bool, false, ◌||◌, ◌&&◌, Option, none, some, List, [], ◌∷◌, ◌===◌, ◌<>◌,
  if◌then◌else◌, ◌>>=◌, ◌>>◌, skip, each, leb, ◌==◌,
}
use elastic_job_lite.Browser.{Browser}
use elastic_job_lite.Browser.Closures.{Handler, Success}
use elastic_job_lite.Browser.Calls.{
  Method, no_body, set_text, set_html, modal, modal_show, modal_static, hide_later, tooltip, ajax,
  bind, disable, remove_classes, add_class, remove_class, i18n_properties, click,
}

-- `lan.toLowerCase()` on the ASCII letters
lower : ℕ → ℕ
lower c = if leb b'A' c && leb c b'Z' then c + 32 else c

-- `.indexOf('zh') > -1`
unfoldable pub has_zh : List ℕ → Bool
unfolding lower
has_zh [] = false
has_zh (c ∷ []) = false
has_zh (c ∷ d ∷ s) = (lower c == b'z' && lower d == b'h') || has_zh (d ∷ s)

abbrev guest_buttons : String
guest_buttons = ".index-content .btn-xs:not(.btn-info)"

module _ (B : Browser) where
  open B use {World, exec, text, has_class, prop, language}

  -- the function that runs when the document is ready
  unfoldable pub ready : World → World
  ready = exec (tooltip "[data-toggle='tooltip']")

  unfoldable pub show_dialog : String → Option ℕ → World → World
  show_dialog msg timeout = do
    exec (set_text "#message-info" msg)
    exec (modal "#message-dialog" modal_show)
    elim timeout [ none ↦ skip | some t ↦ exec (hide_later "#message-dialog" t) ]

  unfoldable pub show_info_dialog : String → World → World
  unfolding show_dialog
  show_info_dialog msg = show_dialog msg (some 2000)

  unfoldable pub show_success_dialog : World → World
  unfolding show_info_dialog
  show_success_dialog = do msg ← prop "operation-succeed"; show_info_dialog msg

  unfoldable pub show_failure_dialog : String → World → World
  unfolding show_dialog
  show_failure_dialog msg = show_dialog msg none

  -- the `HEAD` request, whose `complete` gets the header `identify`
  unfoldable pub authority_control : World → World
  authority_control =
      exec (ajax (record { method = Method.head; url = "/"; body = no_body }) Success.got_authority)

  unfoldable pub got_authority : String → World → World
  got_authority identify = do
    if "guest" === identify then exec (bind "table" "all.bs.table" Handler.guest_table) else skip
    shown ← text "#authority"
    if "" === shown then exec (set_text "#authority" identify) else skip

  unfoldable pub guest_table : World → World
  guest_table = do
    exec (disable guest_buttons)
    exec (remove_classes guest_buttons)
    exec (add_class guest_buttons "btn-xs")

  -- the three dialogs that ask for a confirmation differ in their text
  abbrev ask : String → World → World
  ask key = do
    msg ← prop key
    exec (set_text "#confirm-info" msg)
    exec (modal "#confirm-dialog" modal_static)

  unfoldable pub show_delete_confirm_modal : World → World
  show_delete_confirm_modal = ask "confirm-to-delete"

  unfoldable pub show_shutdown_confirm_modal : World → World
  show_shutdown_confirm_modal = ask "confirm-to-close"

  unfoldable pub show_update_confirm_modal : World → World
  show_update_confirm_modal = ask "update-job-confirm-info"

  unfoldable pub show_data_source_failure_dialog : World → World
  unfolding show_failure_dialog
  show_data_source_failure_dialog = do
    msg ← prop "event-trace-data-source-connect-failed"
    show_failure_dialog msg

  unfoldable pub show_reg_center_failure_dialog : World → World
  unfolding show_failure_dialog
  show_reg_center_failure_dialog = do
    msg ← prop "registry-center-connect-failed"
    show_failure_dialog msg

  unfoldable pub show_test_success_dialog : World → World
  unfolding show_info_dialog
  show_test_success_dialog = do
    msg ← prop "event-trace-data-source-test-succeed"
    show_info_dialog msg

  unfoldable pub show_test_failure_dialog : World → World
  unfolding show_info_dialog
  show_test_failure_dialog = do msg ← prop "event-trace-data-source-test-fail"; show_info_dialog msg

  unfoldable pub i18n : String → World → World
  i18n lang = exec (i18n_properties lang)

  -- the callback, with the keys of `$.i18n.map`
  unfoldable pub i18n_loaded : List String → World → World
  i18n_loaded = each λ key. do msg ← prop key; exec (set_html ("[data-lang=\"" <> key <> "\"]") msg)

  unfoldable pub do_locale : World → World
  unfolding i18n
  do_locale = do english ← has_class "#content" "lang-en"; i18n (if english then "en" else "zh")

  unfoldable pub switch_language : World → World
  switch_language = do
    exec (bind "#lang-zh" "click" Handler.lang_zh)
    exec (bind "#lang-en" "click" Handler.lang_en)

  unfoldable pub lang_zh : World → World
  unfolding do_locale
  lang_zh = do
    exec (remove_class "#content" "lang-en")
    exec (add_class "#content" "lang-zh")
    do_locale

  unfoldable pub lang_en : World → World
  unfolding do_locale
  lang_en = do
    exec (remove_class "#content" "lang-zh")
    exec (add_class "#content" "lang-en")
    do_locale

  -- the choice by the language of the browser
  unfoldable pub choose_language : Option (List ℕ) → World → World
  choose_language none = skip
  choose_language (some lan) = if has_zh lan then exec (click "#lang-zh") else skip

  unfoldable pub init_language : World → World
  unfolding choose_language
  init_language = do lan ← language; choose_language lan
