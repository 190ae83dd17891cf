-- ===== src/Global/DataSource.antt =====
-- global/event_trace_data_source.js
use elastic_job_lite.Prelude.{
  String, Bool, true, false, Option, none, some, List, [], ◌∷◌, ◌<>◌, ◌===◌, if◌then◌else◌, ◌>>=◌,
  ◌>>◌, skip,
}
use elastic_job_lite.Browser.{Browser}
use elastic_job_lite.Browser.Closures.{Handler, Success, Center}
use elastic_job_lite.Browser.Calls.{
  Method, fields, not_empty, max_length, is_new, bind, modal, modal_static, modal_hide, table,
  refresh, button, ajax, remove, remove_class, validator, validate, reset_validator,
}
use elastic_job_lite.Util.Idioms.{operation, rebind, rebind_confirm, close_confirm}
use elastic_job_lite.Util.Common.{
  do_locale, authority_control, show_success_dialog, show_delete_confirm_modal,
  show_data_source_failure_dialog, show_test_success_dialog, show_test_failure_dialog,
}
use elastic_job_lite.Global.RegCenter.{skip_empty}
use elastic_job_lite.Util.Dashboard.{
  post_name, render_data_source_for_dashboard_nav, refresh_event_trace_nav_tag,
}

unfoldable pub generate_operation_buttons : Center → String
generate_operation_buttons row =
    if row.activated
    then "<button disabled operation='connect-datasource' class='btn-xs' dataSourceName='"
      <> row.name
      <> "' data-lang='status-connected'></button>&nbsp;<button operation='delete-datasource' class='btn-xs btn-danger' data-toggle='modal' id='delete-dialog' dataSourceName='"
      <> row.name <> "' data-lang='operation-delete'></button>"
    else "<button operation='connect-datasource' class='btn-xs btn-info' dataSourceName='"
      <> row.name
      <> "' data-loading-text='loading...' data-lang='operation-connect'></button>&nbsp;<button operation='delete-datasource' class='btn-xs btn-danger' data-toggle='modal' id='delete-dialog' dataSourceName='"
      <> row.name <> "' data-lang='operation-delete'></button>"

-- The loop of the callback of `name`, from the value of `result` before it.
unfoldable pub new_name_from : Bool → String → List Center → Bool
new_name_from result name [] = result
new_name_from result name (c ∷ cs) =
    new_name_from (if name === c.name then false else result) name cs

-- The answer of the callback; a request that fails leaves `result` true.
unfoldable pub name_is_new : String → Option (List Center) → Bool
unfolding new_name_from
name_is_new name none = true
name_is_new name (some data') = new_name_from true name data'

module _ (B : Browser) where
  open B use {World, exec, val, attr, is_valid, get_centers}

  unfoldable pub render_data_sources : World → World
  unfolding render_data_source_for_dashboard_nav
  render_data_sources = do
    exec (table "#data-sources" (some "api/data-source"))
    exec (bind "#data-sources" "all.bs.table" Handler.relocate)
    render_data_source_for_dashboard_nav B

  unfoldable pub bind_connect_buttons : World → World
  bind_connect_buttons = rebind B (operation "connect-datasource") Handler.connect_data_source

  unfoldable pub connect_data_source : String → World → World
  connect_data_source this = do
    exec (button this "loading")
    name ← attr this "dataSourceName"
    exec (ajax (post_name "api/data-source/connect" name) (Success.data_source_connected this))

  unfoldable pub data_source_connected : String → Bool → World → World
  data_source_connected btn true = do
    exec (refresh "#data-sources")
    render_data_source_for_dashboard_nav B
    show_success_dialog B
    exec (button btn "reset")
  data_source_connected btn false = do show_data_source_failure_dialog B; exec (button btn "reset")

  unfoldable pub bind_delete_buttons : World → World
  bind_delete_buttons = rebind B (operation "delete-datasource") Handler.delete_data_source

  unfoldable pub delete_data_source : String → World → World
  delete_data_source this = do
    show_delete_confirm_modal B
    name ← attr this "dataSourceName"
    rebind_confirm B (Handler.confirm_delete_data_source name)

  unfoldable pub confirm_delete_data_source : String → World → World
  confirm_delete_data_source name = exec (
      ajax
        (record {
          method = Method.delete;
          url = "api/data-source";
          body = fields (("name", name) ∷ []);
        })
        Success.data_source_deleted)

  unfoldable pub data_source_deleted : World → World
  unfolding close_confirm
  data_source_deleted = do
    exec (refresh "#data-sources")
    close_confirm B
    render_data_source_for_dashboard_nav B
    refresh_event_trace_nav_tag B

  unfoldable pub bind_buttons : World → World
  unfolding bind_connect_buttons bind_delete_buttons
  bind_buttons = do bind_connect_buttons; bind_delete_buttons

  unfoldable pub deal_data_source_modal : World → World
  deal_data_source_modal = do
    exec (bind "#add-data-source" "click" Handler.open_source_modal)
    exec (bind "#close-add-data-source-form" "click" Handler.close_source_modal)

  unfoldable pub open_source_modal : World → World
  open_source_modal = exec (modal "#add-data-source-center" modal_static)

  unfoldable pub close_source_modal : World → World
  close_source_modal = do
    exec (
        bind "#add-data-source-center" "hide.bs.modal"
          (Handler.reset_form_fields "#data-source-form"))
    exec (reset_validator "#data-source-form")

  unfoldable pub handle_field_validator : World → World
  handle_field_validator = do
    exec (bind "#password" "focus" (Handler.focus_field "#data-source-form" "password"))
    exec (bind "#password" "blur" (Handler.blur_field "#data-source-form" "password"))

  -- the form's texts, and the request that carries them
  post_form : String → Success → World → World
  post_form url k = do
    name ← val "#name"
    driver ← val "#driver"
    address ← val "#url"
    username ← val "#username"
    password ← val "#password"
    exec (
        ajax
          (record {
            method = Method.post;
            url = url;
            body = fields (
                ("name", name)
                ∷ ("driver", driver)
                ∷ ("url", address)
                ∷ ("username", username)
                ∷ ("password", password)
                ∷ []);
          })
          k)

  unfoldable pub submit_data_source : World → World
  submit_data_source = exec (bind "#add-data-source-btn" "click" Handler.submit_data_source)

  unfoldable pub submit_data_source_clicked : World → World
  unfolding skip_empty post_form
  submit_data_source_clicked = do
    skip_empty B "#data-source-form" "password"
    exec (validate "#data-source-form")
    valid ← is_valid "#data-source-form"
    if valid then post_form "api/data-source" Success.data_source_added else skip

  unfoldable pub data_source_added : Bool → World → World
  data_source_added false = skip
  data_source_added true = do
    exec (
        bind "#add-data-source-center" "hide.bs.modal"
          (Handler.reset_form_fields "#data-source-form"))
    exec (reset_validator "#data-source-form")
    exec (modal "#add-data-source-center" modal_hide)
    exec (refresh "#data-sources")
    exec (remove ".modal-backdrop")
    exec (remove_class "body" "modal-open")
    render_data_source_for_dashboard_nav B
    refresh_event_trace_nav_tag B

  unfoldable pub validate_form : World → World
  validate_form = do
    exec (
        validator "#data-source-form" (
          ("name", not_empty ∷ max_length 50 ∷ is_new "#name" "api/data-source" ∷ [])
          ∷ ("url", not_empty ∷ max_length 200 ∷ [])
          ∷ ("username", not_empty ∷ max_length 50 ∷ [])
          ∷ ("password", max_length 50 ∷ [])
          ∷ []))
    exec (bind "#data-source-form" "submit" Handler.prevent_default)

  -- the callback of the rule `is_new`
  unfoldable pub check_name : World → Bool
  unfolding name_is_new
  check_name w = name_is_new (val "#name" w) (get_centers "api/data-source" w)

  unfoldable pub bind_connection_test : World → World
  bind_connection_test = exec (bind "#connect-test" "click" Handler.test_connection)

  unfoldable pub test_connection : World → World
  unfolding post_form
  test_connection = post_form "api/data-source/connectTest" Success.connection_tested

  unfoldable pub connection_tested : Bool → World → World
  connection_tested true = show_test_success_dialog B
  connection_tested false = show_test_failure_dialog B

  unfoldable pub ready : World → World
  unfolding authority_control render_data_sources validate_form deal_data_source_modal
      handle_field_validator submit_data_source bind_buttons bind_connection_test
  ready = do
    do_locale B
    authority_control B
    render_data_sources
    validate_form
    deal_data_source_modal
    handle_field_validator
    submit_data_source
    bind_buttons
    bind_connection_test
