-- ===== src/Status/Server.antt =====
-- status/server/server_status_detail.js
use elastic_job_lite.Prelude.{
  ℕ, String, Option, none, some, ◌<>◌, ◌===◌, if◌then◌else◌, ◌>>=◌, ◌>>◌, ◌==◌,
}
use elastic_job_lite.Browser.{Browser}
use elastic_job_lite.Browser.Closures.{Handler, Success}
use elastic_job_lite.Browser.Calls.{Method, set_text, bind, load, table, refresh}
use elastic_job_lite.Util.Idioms.{plain_operation, rebind, rebind_confirm, close_confirm, send}
use elastic_job_lite.Util.Common.{
  authority_control, show_success_dialog, show_delete_confirm_modal, show_shutdown_confirm_modal,
}
use elastic_job_lite.Util.Dashboard.{refresh_server_nav_tag}

pub record Row : Type 0 where
  pub job_name : String
  pub ip : String
  pub status : String
  pub instance_count : ℕ

-- none for `undefined`
unfoldable pub status_formatter : String → Row → Option String
status_formatter val row =
    if row.instance_count == 0
    then some "<span class='label label-default' data-lang='status-offline'></span>"
    else if val === "OK"
    then some "<span class='label label-success' data-lang='status-enabled'></span>"
    else if val === "DISABLED"
    then some "<span class='label label-warning' data-lang='status-disabled'></span>"
    else none

unfoldable pub generate_operation_buttons : Row → String
generate_operation_buttons row =
    let remove =
      "<button operation='remove-server-job' class='btn-xs btn-danger' job-name='" <> row.job_name
      <> "' data-lang='operation-remove'></button>" in
    let disable =
      "<button operation='disable-server-job' class='btn-xs btn-warning' ip='" <> row.ip
      <> "' job-name='" <> row.job_name <> "' data-lang='operation-disable'></button>" in
    let enable =
      "<button operation='enable-server-job' class='btn-xs btn-success' ip='" <> row.ip
      <> "' job-name='" <> row.job_name <> "' data-lang='operation-enable'></button>" in
    let shutdown =
      "<button operation='shutdown-server-job' class='btn-xs btn-danger' job-name='" <> row.job_name
      <> "' data-lang='operation-shutdown'></button>" in
    if row.instance_count == 0
    then remove
    else if "DISABLED" === row.status
    then enable <> "&nbsp;" <> shutdown
    else disable <> "&nbsp;" <> shutdown

module _ (B : Browser) where
  open B use {World, exec, text, attr}

  unfoldable pub render_jobs : World → World
  render_jobs = do
    ip ← text "#server-ip"
    exec (table "#server-jobs-tbl" (some ("/api/servers/" <> ip <> "/jobs")))
    exec (bind "#server-jobs-tbl" "all.bs.table" Handler.relocate)

  unfoldable pub bind_disable_button : World → World
  bind_disable_button = rebind B (plain_operation "disable-server-job") Handler.disable_server_job

  unfoldable pub disable_server_job : String → World → World
  unfolding send
  disable_server_job this = do
    ip ← text "#server-ip"
    job ← attr this "job-name"
    send B Method.post ("/api/servers/" <> ip <> "/jobs/" <> job <> "/disable")
        Success.server_job_changed

  unfoldable pub bind_enable_button : World → World
  bind_enable_button = rebind B (plain_operation "enable-server-job") Handler.enable_server_job

  unfoldable pub enable_server_job : String → World → World
  unfolding send
  enable_server_job this = do
    ip ← text "#server-ip"
    job ← attr this "job-name"
    send B Method.delete ("/api/servers/" <> ip <> "/jobs/" <> job <> "/disable")
        Success.server_job_changed

  -- the answer to both
  unfoldable pub server_job_changed : World → World
  server_job_changed = do exec (refresh "#server-jobs-tbl"); show_success_dialog B

  unfoldable pub bind_shutdown_button : World → World
  bind_shutdown_button =
      rebind B (plain_operation "shutdown-server-job") Handler.shutdown_server_job

  unfoldable pub shutdown_server_job : String → World → World
  shutdown_server_job this = do
    show_shutdown_confirm_modal B
    ip ← text "#server-ip"
    job ← attr this "job-name"
    rebind_confirm B (Handler.confirm_shutdown_server_job ip job)

  unfoldable pub confirm_shutdown_server_job : String → String → World → World
  unfolding send
  confirm_shutdown_server_job ip job =
      send B Method.post ("/api/servers/" <> ip <> "/jobs/" <> job <> "/shutdown")
        Success.server_job_shut

  unfoldable pub server_job_shut : World → World
  unfolding close_confirm
  server_job_shut = do close_confirm B; exec (refresh "#server-jobs-tbl")

  unfoldable pub bind_remove_button : World → World
  bind_remove_button = rebind B (plain_operation "remove-server-job") Handler.remove_server_job

  unfoldable pub remove_server_job : String → World → World
  remove_server_job this = do
    show_delete_confirm_modal B
    ip ← text "#server-ip"
    job ← attr this "job-name"
    rebind_confirm B (Handler.confirm_remove_server_job ip job)

  unfoldable pub confirm_remove_server_job : String → String → World → World
  unfolding send
  confirm_remove_server_job ip job =
      send B Method.delete ("/api/servers/" <> ip <> "/jobs/" <> job) Success.server_job_removed

  unfoldable pub server_job_removed : World → World
  unfolding close_confirm
  server_job_removed = do
    close_confirm B
    refresh_server_nav_tag B
    exec (refresh "#server-jobs-tbl")

  unfoldable pub bind_buttons : World → World
  unfolding bind_disable_button bind_enable_button bind_shutdown_button bind_remove_button
  bind_buttons = do
    bind_disable_button
    bind_enable_button
    bind_shutdown_button
    bind_remove_button

  unfoldable pub render_bread_crumb_menu : World → World
  render_bread_crumb_menu = exec (bind "#breadcrumb-server" "click" Handler.to_servers)

  unfoldable pub to_servers : World → World
  to_servers =
      exec
        (load "#content" "html/status/server/servers_status_overview.html" (some Handler.relocate))

  unfoldable pub ready : World → World
  unfolding authority_control render_jobs render_bread_crumb_menu bind_buttons
  ready = do
    ip ← text "#index-server-ip"
    exec (set_text "#server-ip" ip)
    authority_control B
    render_jobs
    render_bread_crumb_menu
    bind_buttons
