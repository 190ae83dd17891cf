-- ===== src/Status/Job.antt =====
-- status/job/job_status_detail.js
use elastic_job_lite.Prelude.{String, Bool, some, ◌<>◌, ◌===◌, if◌then◌else◌, ◌>>=◌, ◌>>◌}
use elastic_job_lite.Browser.{Browser}
use elastic_job_lite.Browser.Closures.{Handler, Success}
use elastic_job_lite.Browser.Calls.{Method, set_text, bind, load, table, refresh}
use elastic_job_lite.Util.Idioms.{operation, rebind, send}
use elastic_job_lite.Util.Common.{authority_control, show_success_dialog}

-- `item` is a number of the answer, as its text
pub record Row : Type 0 where
  pub job_name : String
  pub item : String
  pub status : String

unfoldable pub sharding_status_formatter : String → String
sharding_status_formatter value =
    if value === "DISABLED"
    then "<span class='label label-warning' data-lang='status-disabled'></span>"
    else if value === "RUNNING"
    then "<span class='label label-primary' data-lang='status-running'></span>"
    else if value === "SHARDING_FLAG"
    then "<span class='label label-info' data-lang='' data-lang='status-sharding-flag'></span>"
    else "<span class='label label-default' data-lang='status-staging'></span>"

unfoldable pub failover_formatter : Bool → String
failover_formatter value = if value then "Y" else "-"

unfoldable pub generate_operation_buttons : Row → String
generate_operation_buttons row =
    let disable =
      "<button operation='disable-sharding' class='btn-xs btn-warning' job-name='" <> row.job_name
      <> "' item='" <> row.item <> "' data-lang='operation-disable'></button>" in
    let enable =
      "<button operation='enable-sharding' class='btn-xs btn-success' job-name='" <> row.job_name
      <> "' item='" <> row.item <> "' data-lang='operation-enable'></button>" in
    if "DISABLED" === row.status then enable else disable

module _ (B : Browser) where
  open B use {World, exec, text, attr}

  unfoldable pub render_sharding_table : World → World
  render_sharding_table = do
    job ← text "#job-name"
    exec (table "#sharding" (some ("/api/jobs/" <> job <> "/sharding")))
    exec (bind "#sharding" "all.bs.table" Handler.relocate)

  unfoldable pub bind_disable_button : World → World
  bind_disable_button = rebind B (operation "disable-sharding") Handler.disable_sharding

  unfoldable pub disable_sharding : String → World → World
  unfolding send
  disable_sharding this = do
    job ← text "#index-job-name"
    item ← attr this "item"
    send B Method.post ("/api/jobs/" <> job <> "/sharding/" <> item <> "/disable")
        Success.sharding_changed

  unfoldable pub bind_enable_button : World → World
  bind_enable_button = rebind B (operation "enable-sharding") Handler.enable_sharding

  unfoldable pub enable_sharding : String → World → World
  unfolding send
  enable_sharding this = do
    job ← text "#index-job-name"
    item ← attr this "item"
    send B Method.delete ("/api/jobs/" <> job <> "/sharding/" <> item <> "/disable")
        Success.sharding_changed

  -- the answer to both
  unfoldable pub sharding_changed : World → World
  sharding_changed = do show_success_dialog B; exec (refresh "#sharding")

  unfoldable pub bind_buttons : World → World
  unfolding bind_disable_button bind_enable_button
  bind_buttons = do bind_disable_button; bind_enable_button

  unfoldable pub render_bread_crumb_menu : World → World
  render_bread_crumb_menu = exec (bind "#breadcrumb-job" "click" Handler.to_jobs)

  unfoldable pub to_jobs : World → World
  to_jobs =
      exec (load "#content" "html/status/job/jobs_status_overview.html" (some Handler.relocate))

  unfoldable pub ready : World → World
  unfolding authority_control render_sharding_table render_bread_crumb_menu bind_buttons
  ready = do
    job ← text "#index-job-name"
    exec (set_text "#job-name" job)
    authority_control B
    render_sharding_table
    render_bread_crumb_menu
    bind_buttons
