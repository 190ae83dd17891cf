-- ===== src/Global/RegCenter.antt =====
-- global/registry_center.js
pub mod Names
use elastic_job_lite.Prelude.{
  String, Bool, true, false, not, Option, none, some, List, [], ◌∷◌, ◌<>◌, ◌===◌, if◌then◌else◌,
  ◌>>=◌, ◌>>◌, skip,
}
use elastic_job_lite.Browser.{Browser}
use elastic_job_lite.Browser.Closures.{Handler, Success, Center}
use elastic_job_lite.Browser.Calls.{
  Method, fields, not_empty, max_length, is_new, bind, modal, modal_static, modal_hide, table,
  refresh, button, ajax, remove, remove_class, validator, validate, reset_validator, reset_form,
  enable_field,
}
use elastic_job_lite.Util.Idioms.{operation, rebind, rebind_confirm, close_confirm}
use elastic_job_lite.Util.Common.{
  do_locale, authority_control, show_success_dialog, show_delete_confirm_modal,
  show_reg_center_failure_dialog,
}
use elastic_job_lite.Util.Dashboard.{
  post_name, render_reg_center_for_dashboard_nav, refresh_job_nav_tag, refresh_server_nav_tag,
  refresh_reg_center_nav_tag,
}

unfoldable pub generate_operation_buttons : Center → String
generate_operation_buttons row =
    if row.activated
    then "<button disabled operation='connect-reg-center' class='btn-xs' regName='" <> row.name
      <> "' data-lang='status-connected'></button>&nbsp;<button operation='delete-reg-center' class='btn-xs btn-danger' data-toggle='modal' id='delete-dialog' regName='"
      <> row.name <> "' data-lang='operation-delete'></button>"
    else "<button operation='connect-reg-center' class='btn-xs btn-info' regName='" <> row.name
      <> "' data-loading-text='loading...' data-lang='operation-connect'></button>&nbsp;<button operation='delete-reg-center' class='btn-xs btn-danger' data-toggle='modal' id='delete-dialog' regName='"
      <> row.name <> "' data-lang='operation-delete'></button>"

-- The loop of the callback of `name`, from the value of `result` before it.
unfoldable pub new_name_from : Bool → String → List Center → Bool
new_name_from result name [] = result
new_name_from result name (c ∷ cs) =
    new_name_from (if name === c.name then false else result) name cs

-- The answer of the callback; a request that fails leaves `result` true.
unfoldable pub name_is_new : String → Option (List Center) → Bool
unfolding new_name_from
name_is_new name none = true
name_is_new name (some data') = new_name_from true name data'

module _ (B : Browser) where
  open B use {World, exec, val, attr, is_valid, get_centers}

  unfoldable pub render_reg_centers : World → World
  unfolding render_reg_center_for_dashboard_nav
  render_reg_centers = do
    exec (table "#reg-centers" (some "api/registry-center"))
    exec (bind "#reg-centers" "all.bs.table" Handler.relocate)
    render_reg_center_for_dashboard_nav B

  unfoldable pub bind_connect_buttons : World → World
  bind_connect_buttons = rebind B (operation "connect-reg-center") Handler.connect_reg_center

  unfoldable pub connect_reg_center : String → World → World
  connect_reg_center this = do
    exec (button this "loading")
    name ← attr this "regName"
    exec (ajax (post_name "api/registry-center/connect" name) (Success.reg_center_connected this))

  unfoldable pub reg_center_connected : String → Bool → World → World
  reg_center_connected btn true = do
    exec (refresh "#reg-centers")
    render_reg_center_for_dashboard_nav B
    refresh_job_nav_tag B
    refresh_server_nav_tag B
    show_success_dialog B
    exec (button btn "reset")
  reg_center_connected btn false = do show_reg_center_failure_dialog B; exec (button btn "reset")

  unfoldable pub bind_delete_buttons : World → World
  bind_delete_buttons = rebind B (operation "delete-reg-center") Handler.delete_reg_center

  unfoldable pub delete_reg_center : String → World → World
  delete_reg_center this = do
    show_delete_confirm_modal B
    name ← attr this "regName"
    rebind_confirm B (Handler.confirm_delete_reg_center name)

  unfoldable pub confirm_delete_reg_center : String → World → World
  confirm_delete_reg_center name = exec (
      ajax
        (record {
          method = Method.delete;
          url = "api/registry-center";
          body = fields (("name", name) ∷ []);
        })
        Success.reg_center_deleted)

  unfoldable pub reg_center_deleted : World → World
  unfolding close_confirm
  reg_center_deleted = do
    exec (refresh "#reg-centers")
    close_confirm B
    render_reg_center_for_dashboard_nav B
    refresh_reg_center_nav_tag B

  unfoldable pub bind_buttons : World → World
  unfolding bind_connect_buttons bind_delete_buttons
  bind_buttons = do bind_connect_buttons; bind_delete_buttons

  unfoldable pub deal_reg_center_modal : World → World
  deal_reg_center_modal = do
    exec (bind "#add-register" "click" Handler.open_reg_modal)
    exec (bind "#close-add-reg-form" "click" Handler.close_reg_modal)

  unfoldable pub open_reg_modal : World → World
  open_reg_modal = exec (modal "#add-reg-center" modal_static)

  unfoldable pub close_reg_modal : World → World
  close_reg_modal = do
    exec (bind "#add-reg-center" "hide.bs.modal" (Handler.reset_form_fields "#reg-center-form"))
    exec (reset_validator "#reg-center-form")

  unfoldable pub handle_field_validator : World → World
  handle_field_validator = do
    exec (bind "#digest" "focus" (Handler.focus_field "#reg-center-form" "digest"))
    exec (bind "#digest" "blur" (Handler.blur_field "#reg-center-form" "digest"))
    exec (bind "#namespace" "focus" (Handler.focus_field "#reg-center-form" "namespace"))
    exec (bind "#namespace" "blur" (Handler.blur_field "#reg-center-form" "namespace"))

  unfoldable pub focus_field : String → String → World → World
  focus_field form field = exec (enable_field form field true)

  unfoldable pub blur_field : String → String → World → World
  blur_field form field = do
    value ← val ("#" <> field)
    exec (enable_field form field (not ("" === value)))

  -- a field that is left empty is not validated
  unfoldable pub skip_empty : String → String → World → World
  skip_empty form field = do
    value ← val ("#" <> field)
    if "" === value then exec (enable_field form field false) else skip

  unfoldable pub post_reg_center : World → World
  post_reg_center = do
    name ← val "#name"
    zk_address_list ← val "#zk-address-list"
    namespace ← val "#namespace"
    digest ← val "#digest"
    exec (
        ajax
          (record {
            method = Method.post;
            url = "api/registry-center";
            body = fields (
                ("name", name)
                ∷ ("zkAddressList", zk_address_list)
                ∷ ("namespace", namespace)
                ∷ ("digest", digest)
                ∷ []);
          })
          Success.reg_center_added)

  unfoldable pub submit_reg_center : World → World
  submit_reg_center = exec (bind "#add-reg-center-btn" "click" Handler.submit_reg_center)

  unfoldable pub submit_reg_center_clicked : World → World
  unfolding skip_empty post_reg_center
  submit_reg_center_clicked = do
    skip_empty "#reg-center-form" "digest"
    skip_empty "#reg-center-form" "namespace"
    exec (validate "#reg-center-form")
    valid ← is_valid "#reg-center-form"
    if valid then post_reg_center else skip

  unfoldable pub reg_center_added : Bool → World → World
  reg_center_added false = skip
  reg_center_added true = do
    exec (bind "#add-reg-center" "hide.bs.modal" (Handler.reset_form_fields "#reg-center-form"))
    exec (reset_validator "#reg-center-form")
    exec (modal "#add-reg-center" modal_hide)
    exec (refresh "#reg-centers")
    exec (remove ".modal-backdrop")
    exec (remove_class "body" "modal-open")
    render_reg_center_for_dashboard_nav B
    refresh_reg_center_nav_tag B

  -- `$("#reg-center-form")[0].reset()`
  unfoldable pub reset_form_fields : String → World → World
  reset_form_fields form = exec (reset_form form)

  unfoldable pub validate_form : World → World
  validate_form = do
    exec (
        validator "#reg-center-form" (
          ("name", not_empty ∷ max_length 50 ∷ is_new "#name" "api/registry-center" ∷ [])
          ∷ ("zkAddressList", not_empty ∷ max_length 100 ∷ [])
          ∷ ("namespace", max_length 50 ∷ [])
          ∷ ("digest", max_length 20 ∷ [])
          ∷ []))
    exec (bind "#reg-center-form" "submit" Handler.prevent_default)

  -- the callback of the rule `is_new`
  unfoldable pub check_name : World → Bool
  unfolding name_is_new
  check_name w = name_is_new (val "#name" w) (get_centers "api/registry-center" w)

  unfoldable pub ready : World → World
  unfolding authority_control render_reg_centers validate_form deal_reg_center_modal
      handle_field_validator submit_reg_center bind_buttons
  ready = do
    do_locale B
    authority_control B
    render_reg_centers
    validate_form
    deal_reg_center_modal
    handle_field_validator
    submit_reg_center
    bind_buttons
