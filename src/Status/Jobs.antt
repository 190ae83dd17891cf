-- ===== src/Status/Jobs.antt =====
-- status/job/jobs_status_overview.js
use elastic_job_lite.Prelude.{
  String, Option, none, some, ◌<>◌, ◌===◌, if◌then◌else◌, ◌>>=◌, ◌>>◌, skip,
}
use elastic_job_lite.Browser.{Browser}
use elastic_job_lite.Browser.Closures.{Handler, Success, JobConfig, text_or_empty}
use elastic_job_lite.Browser.Calls.{
  Method, set_text, set_attr, set_checked, bind, get_sync, load, table, refresh, show, remove,
  modal, modal_static,
}
use elastic_job_lite.Util.Idioms.{
  plain_operation, url_if_activated, rebind, rebind_confirm, close_confirm, send,
}
use elastic_job_lite.Util.Common.{
  authority_control, show_success_dialog, show_delete_confirm_modal, show_shutdown_confirm_modal,
  do_locale,
}
use elastic_job_lite.Util.Dashboard.{refresh_job_nav_tag, refresh_server_nav_tag}

pub record Row : Type 0 where
  pub job_name : String
  pub status : String

-- none for `undefined`
unfoldable pub status_formatter : String → Option String
status_formatter value =
    if value === "OK"
    then some "<span class='label label-success' data-lang='status-ok'></span>"
    else if value === "DISABLED"
    then some "<span class='label label-warning' data-lang='status-disabled'></span>"
    else if value === "SHARDING_FLAG"
    then some "<span class='label label-info' data-lang='status-sharding-flag'></span>"
    else if value === "CRASHED"
    then some "<span class='label label-default' data-lang='status-crashed'></span>"
    else none

unfoldable pub generate_operation_buttons : Row → String
generate_operation_buttons row =
    let modify =
      "<button operation='modify-job' class='btn-xs btn-primary' job-name='" <> row.job_name
      <> "' data-lang='operation-update'></button>" in
    let detail =
      "<button operation='job-detail' class='btn-xs btn-info' job-name='" <> row.job_name
      <> "' data-lang='operation-detail'></button>" in
    let trigger =
      "<button operation='trigger-job' class='btn-xs btn-success' job-name='" <> row.job_name
      <> "' data-lang='operation-trigger'></button>" in
    let disable =
      "<button operation='disable-job' class='btn-xs btn-warning' job-name='" <> row.job_name
      <> "' data-lang='operation-disable'></button>" in
    let enable =
      "<button operation='enable-job' class='btn-xs btn-success' job-name='" <> row.job_name
      <> "' data-lang='operation-enable'></button>" in
    let shutdown =
      "<button operation='shutdown-job' class='btn-xs btn-danger' job-name='" <> row.job_name
      <> "' data-lang='operation-shutdown'></button>" in
    let remove_button =
      "<button operation='remove-job' class='btn-xs btn-danger' job-name='" <> row.job_name
      <> "' data-lang='operation-remove'></button>" in
    let td0 = modify <> "&nbsp;" <> detail <> "&nbsp;" in
    let td1 =
      if "OK" === row.status
      then td0 <> trigger <> "&nbsp;" <> disable <> "&nbsp;" <> shutdown
      else td0 in
    let td2 = if "DISABLED" === row.status then td1 <> enable <> "&nbsp;" <> shutdown else td1 in
    let td3 = if "SHARDING_FLAG" === row.status then td2 <> "&nbsp;" <> shutdown else td2 in
    if "CRASHED" === row.status then modify <> "&nbsp;" <> remove_button else td3

module _ (B : Browser) where
  open B use {World, exec, attr, val, get_activated}

  unfoldable pub render_jobs_overview : World → World
  render_jobs_overview = do
    exec (get_sync "/api/registry-center/activated")
    activated ← get_activated
    exec (table "#jobs-status-overview-tbl" (url_if_activated "/api/jobs" activated))
    exec (bind "#jobs-status-overview-tbl" "all.bs.table" Handler.relocate)

  unfoldable pub bind_modify_button : World → World
  bind_modify_button = rebind B (plain_operation "modify-job") Handler.modify_job

  unfoldable pub modify_job : String → World → World
  unfolding send
  modify_job this = do
    job ← attr this "job-name"
    send B Method.get ("/api/jobs/config/" <> job) (Success.got_config job)

  unfoldable pub got_config : String → Option JobConfig → World → World
  got_config job none = skip
  got_config job (some data') = do
    exec (remove ".box-body")
    exec (
        load "#update-job-body" "html/status/job/job_config.html"
          (some (Handler.job_config_loaded job data')))

  -- `.text(null)` leaves no text
  unfoldable pub render_job : JobConfig → World → World
  render_job data' = do
    exec (set_attr "#job-name" "value" data'.job_name)
    exec (set_attr "#job-type" "value" data'.job_type)
    exec (set_attr "#job-class" "value" data'.job_class)
    exec (set_attr "#sharding-total-count" "value" (some data'.sharding_total_count))
    exec (set_attr "#cron" "value" data'.cron)
    exec (set_text "#sharding-item-parameters" (text_or_empty data'.sharding_item_parameters))
    exec (set_attr "#job-parameter" "value" data'.job_parameter)
    exec (set_checked "#monitor-execution" data'.monitor_execution)
    exec (set_checked "#failover" data'.failover)
    exec (set_checked "#misfire" data'.misfire)
    exec (set_checked "#streaming-process" data'.streaming_process)
    exec (set_attr "#max-time-diff-seconds" "value" (some data'.max_time_diff_seconds))
    exec (set_attr "#monitor-port" "value" (some data'.monitor_port))
    exec (set_attr "#job-sharding-strategy-class" "value" data'.job_sharding_strategy_class)
    exec (set_attr "#executor-service-handler" "value" data'.executor_service_handler)
    exec (set_attr "#job-exception-handler" "value" data'.job_exception_handler)
    exec (set_attr "#reconcile-interval-minutes" "value" (some data'.reconcile_interval_minutes))
    exec (set_text "#description" (text_or_empty data'.description))
    exec (set_attr "#script-command-line" "value" data'.script_command_line)
    type ← val "#job-type"
    if "DATAFLOW" === type then exec (show "#streaming-process-group") else skip
    type' ← val "#job-type"
    if "SCRIPT" === type' then exec (show "#script-commandLine-group") else skip

  unfoldable pub job_config_loaded : String → JobConfig → World → World
  unfolding render_job
  job_config_loaded job data' = do
    do_locale B
    exec (modal "#data-update-job" modal_static)
    render_job data'
    exec (set_text "#job-overviews-name" job)

  unfoldable pub bind_sharding_status_button : World → World
  bind_sharding_status_button = rebind B (plain_operation "job-detail") Handler.job_detail

  unfoldable pub job_detail : String → World → World
  job_detail this = do
    job ← attr this "job-name"
    exec (set_text "#index-job-name" job)
    exec (load "#content" "html/status/job/job_status_detail.html" (some Handler.relocate))

  unfoldable pub bind_trigger_button : World → World
  bind_trigger_button = rebind B (plain_operation "trigger-job") Handler.trigger_job

  unfoldable pub trigger_job : String → World → World
  unfolding send
  trigger_job this = do
    job ← attr this "job-name"
    send B Method.post ("/api/jobs/" <> job <> "/trigger") Success.job_changed

  -- the answer to triggering, disabling and enabling
  unfoldable pub job_changed : World → World
  job_changed = do show_success_dialog B; exec (refresh "#jobs-status-overview-tbl")

  unfoldable pub bind_disable_button : World → World
  bind_disable_button = rebind B (plain_operation "disable-job") Handler.disable_job

  unfoldable pub disable_job : String → World → World
  unfolding send
  disable_job this = do
    job ← attr this "job-name"
    send B Method.post ("/api/jobs/" <> job <> "/disable") Success.job_changed

  unfoldable pub bind_enable_button : World → World
  bind_enable_button = rebind B (plain_operation "enable-job") Handler.enable_job

  unfoldable pub enable_job : String → World → World
  unfolding send
  enable_job this = do
    job ← attr this "job-name"
    send B Method.delete ("/api/jobs/" <> job <> "/disable") Success.job_changed

  unfoldable pub bind_shutdown_button : World → World
  bind_shutdown_button = rebind B (plain_operation "shutdown-job") Handler.shutdown_job

  unfoldable pub shutdown_job : String → World → World
  shutdown_job this = do
    show_shutdown_confirm_modal B
    job ← attr this "job-name"
    rebind_confirm B (Handler.confirm_shutdown_job job)

  unfoldable pub confirm_shutdown_job : String → World → World
  unfolding send
  confirm_shutdown_job job =
      send B Method.post ("/api/jobs/" <> job <> "/shutdown") Success.job_shut

  unfoldable pub job_shut : World → World
  unfolding close_confirm
  job_shut = do close_confirm B; exec (refresh "#jobs-status-overview-tbl")

  unfoldable pub bind_remove_button : World → World
  bind_remove_button = rebind B (plain_operation "remove-job") Handler.remove_job

  unfoldable pub remove_job : String → World → World
  remove_job this = do
    job ← attr this "job-name"
    show_delete_confirm_modal B
    rebind_confirm B (Handler.confirm_remove_job job)

  unfoldable pub confirm_remove_job : String → World → World
  unfolding send
  confirm_remove_job job = send B Method.delete ("/api/jobs/config/" <> job) Success.job_removed

  unfoldable pub job_removed : World → World
  unfolding close_confirm
  job_removed = do
    close_confirm B
    refresh_job_nav_tag B
    refresh_server_nav_tag B
    exec (refresh "#jobs-status-overview-tbl")

  unfoldable pub bind_buttons : World → World
  unfolding bind_modify_button bind_sharding_status_button bind_trigger_button bind_shutdown_button
      bind_disable_button bind_enable_button bind_remove_button
  bind_buttons = do
    bind_modify_button
    bind_sharding_status_button
    bind_trigger_button
    bind_shutdown_button
    bind_disable_button
    bind_enable_button
    bind_remove_button

  unfoldable pub ready : World → World
  unfolding authority_control render_jobs_overview bind_buttons
  ready = do authority_control B; render_jobs_overview; bind_buttons
