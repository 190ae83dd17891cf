-- ===== src/Util/Pickers.antt =====
-- util/formatter.js: the date pickers and the dialog of a message.
use elastic_job_lite.Prelude.{String, ◌>>◌}
use elastic_job_lite.Browser.{Browser}
use elastic_job_lite.Browser.Closures.{Handler}
use elastic_job_lite.Browser.Calls.{bind, datepicker, set_val, set_html, modal, modal_show}

module _ (B : Browser) where
  open B use {World, exec}

  unfoldable pub ready : World → World
  ready = do
    exec (datepicker ".custom-datepicker")
    exec (bind ".custom-datepicker" "apply.daterangepicker" Handler.apply_date)
    exec (bind ".custom-datepicker" "cancel.daterangepicker" Handler.cancel_date)

  -- `picked` is the picker's start date in the format `YYYY-MM-DD HH:mm:ss`
  unfoldable pub apply_date : String → String → World → World
  apply_date this picked = exec (set_val this picked)

  unfoldable pub cancel_date : String → World → World
  cancel_date this = exec (set_val this "")

  unfoldable pub show_history_message : String → World → World
  show_history_message value = do
    exec (set_html "#history-message" value)
    exec (modal "#history-message-modal" modal_show)
