-- ===== src/Status/Servers.antt =====
-- status/server/servers_status_overview.js
use elastic_job_lite.Prelude.{ℕ, String, some, ◌<>◌, if◌then◌else◌, ◌>>=◌, ◌>>◌, ltb, ◌==◌}
use elastic_job_lite.Browser.{Browser}
use elastic_job_lite.Browser.Closures.{Handler, Success}
use elastic_job_lite.Browser.Calls.{get_sync, Method, set_text, bind, load, table, refresh}
use elastic_job_lite.Util.Idioms.{
  plain_operation, url_if_activated, rebind, rebind_confirm, close_confirm, send,
}
use elastic_job_lite.Util.Common.{
  authority_control, show_success_dialog, show_delete_confirm_modal, show_shutdown_confirm_modal,
}
use elastic_job_lite.Util.Dashboard.{refresh_server_nav_tag}

pub record Row : Type 0 where
  pub server_ip : String
  pub instances_num : ℕ
  pub disabled_jobs_num : ℕ

unfoldable pub generate_operation_buttons : Row → String
generate_operation_buttons row =
    let detail =
      "<button operation='server-detail' class='btn-xs btn-info' server-ip='" <> row.server_ip
      <> "' data-lang='operation-detail'></button>" in
    let disable =
      "<button operation='disable-server' class='btn-xs btn-warning' server-ip='" <> row.server_ip
      <> "' data-lang='operation-disable'></button>" in
    let enable =
      "<button operation='enable-server' class='btn-xs btn-success' server-ip='" <> row.server_ip
      <> "' data-lang='operation-enable'></button>" in
    let shutdown =
      "<button operation='shutdown-server' class='btn-xs btn-danger' server-ip='" <> row.server_ip
      <> "' data-lang='operation-shutdown'></button>" in
    let remove =
      "<button operation='remove-server' class='btn-xs btn-danger' server-ip='" <> row.server_ip
      <> "' data-lang='operation-remove'></button>" in
    if row.instances_num == 0
    then remove
    else if ltb 0 row.disabled_jobs_num
    then detail <> "&nbsp;" <> enable <> "&nbsp;" <> shutdown
    else if ltb 0 row.instances_num
    then detail <> "&nbsp;" <> disable <> "&nbsp;" <> shutdown
    else ""

module _ (B : Browser) where
  open B use {World, exec, attr, get_activated}

  unfoldable pub render_servers_overview : World → World
  render_servers_overview = do
    exec (get_sync "/api/registry-center/activated")
    activated ← get_activated
    exec (table "#servers-overview-tbl" (url_if_activated "/api/servers" activated))
    exec (bind "#servers-overview-tbl" "all.bs.table" Handler.relocate)

  unfoldable pub bind_server_status_detail_button : World → World
  bind_server_status_detail_button =
      rebind B (plain_operation "server-detail") Handler.server_detail

  unfoldable pub server_detail : String → World → World
  server_detail this = do
    ip ← attr this "server-ip"
    exec (set_text "#index-server-ip" ip)
    exec (load "#content" "html/status/server/server_status_detail.html" (some Handler.relocate))

  unfoldable pub bind_disable_server_button : World → World
  bind_disable_server_button = rebind B (plain_operation "disable-server") Handler.disable_server

  unfoldable pub disable_server : String → World → World
  unfolding send
  disable_server this = do
    ip ← attr this "server-ip"
    send B Method.post ("/api/servers/" <> ip <> "/disable") Success.server_changed

  unfoldable pub bind_enable_server_button : World → World
  bind_enable_server_button = rebind B (plain_operation "enable-server") Handler.enable_server

  unfoldable pub enable_server : String → World → World
  unfolding send
  enable_server this = do
    ip ← attr this "server-ip"
    send B Method.delete ("/api/servers/" <> ip <> "/disable") Success.server_changed

  -- the answer to both
  unfoldable pub server_changed : World → World
  server_changed = do show_success_dialog B; exec (refresh "#servers-overview-tbl")

  unfoldable pub bind_shutdown_server_button : World → World
  bind_shutdown_server_button = rebind B (plain_operation "shutdown-server") Handler.shutdown_server

  unfoldable pub shutdown_server : String → World → World
  shutdown_server this = do
    show_shutdown_confirm_modal B
    ip ← attr this "server-ip"
    rebind_confirm B (Handler.confirm_shutdown_server ip)

  unfoldable pub confirm_shutdown_server : String → World → World
  unfolding send
  confirm_shutdown_server ip =
      send B Method.post ("/api/servers/" <> ip <> "/shutdown") Success.server_shut

  unfoldable pub server_shut : World → World
  unfolding close_confirm
  server_shut = do close_confirm B; exec (refresh "#servers-overview-tbl")

  unfoldable pub bind_remove_server_button : World → World
  bind_remove_server_button = rebind B (plain_operation "remove-server") Handler.remove_server

  unfoldable pub remove_server : String → World → World
  remove_server this = do
    show_delete_confirm_modal B
    ip ← attr this "server-ip"
    rebind_confirm B (Handler.confirm_remove_server ip)

  unfoldable pub confirm_remove_server : String → World → World
  unfolding send
  confirm_remove_server ip = send B Method.delete ("/api/servers/" <> ip) Success.server_removed

  unfoldable pub server_removed : World → World
  unfolding close_confirm
  server_removed = do
    close_confirm B
    refresh_server_nav_tag B
    exec (refresh "#servers-overview-tbl")

  unfoldable pub bind_buttons : World → World
  unfolding bind_server_status_detail_button bind_disable_server_button bind_enable_server_button
      bind_shutdown_server_button bind_remove_server_button
  bind_buttons = do
    bind_server_status_detail_button
    bind_disable_server_button
    bind_enable_server_button
    bind_shutdown_server_button
    bind_remove_server_button

  unfoldable pub ready : World → World
  unfolding authority_control render_servers_overview bind_buttons
  ready = do authority_control B; render_servers_overview; bind_buttons
