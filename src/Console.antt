-- ===== src/Console.antt =====
-- The whole console: which function runs for which event, answer or page.
pub mod Bindings
pub mod Answers
pub mod Scripts
pub mod Requests
pub mod Steps
pub mod Confirmed
pub mod Asked
pub mod Filled
pub mod Links
use elastic_job_lite.Prelude.{ℕ, String, Bool, Option, List, skip}
use elastic_job_lite.Browser.{Browser}
use elastic_job_lite.Browser.Closures.{Handler, Success, Reply, JobConfig}
use elastic_job_lite.Browser.Calls.{prevent_default}
use elastic_job_lite.Util.Common
use elastic_job_lite.Util.Dashboard
use elastic_job_lite.Util.Pickers
use elastic_job_lite.Status.Servers
use elastic_job_lite.Status.Server
use elastic_job_lite.Status.Jobs
use elastic_job_lite.Status.Job
use elastic_job_lite.Status.Config
use elastic_job_lite.Global.RegCenter
use elastic_job_lite.Global.DataSource
use elastic_job_lite.History.Trace
use elastic_job_lite.History.Status as StatusHistory
use elastic_job_lite.Index

-- The element that the event is for, the key that was pressed, and the date that was picked.
pub record Event : Type 0 where
  pub this : String
  pub key_code : ℕ
  pub picked : String

-- The scripts that have a function for the ready document.
pub data Page : Type 0 where
  index common dashboard pickers : Page
  servers server jobs job config : Page
  reg_center data_source : Page
  trace status : Page

module _ (B : Browser) where
  open B use {World, exec}

  unfoldable pub run : Handler → Event → World → World
  run (Handler.load_page url) e = Index.load_page B url
  run Handler.load_help e = Index.load_help B
  run Handler.lang_zh e = Common.lang_zh B
  run Handler.lang_en e = Common.lang_en B
  run Handler.relocate e = Common.do_locale B
  run Handler.guest_table e = Common.guest_table B
  run Handler.show_reg_centers e = Dashboard.show_reg_centers B
  run Handler.show_data_sources e = Dashboard.show_data_sources B
  run Handler.switch_reg_center e = Dashboard.switch_reg_center_clicked B e.this
  run Handler.switch_data_source e = Dashboard.switch_data_source_clicked B e.this
  run Handler.pick_skin e = Dashboard.pick_skin B e.this
  run Handler.open_sub_menu e = Dashboard.open_sub_menu B e.this
  run Handler.apply_date e = Pickers.apply_date B e.this e.picked
  run Handler.cancel_date e = Pickers.cancel_date B e.this
  run Handler.server_detail e = Servers.server_detail B e.this
  run Handler.disable_server e = Servers.disable_server B e.this
  run Handler.enable_server e = Servers.enable_server B e.this
  run Handler.shutdown_server e = Servers.shutdown_server B e.this
  run Handler.remove_server e = Servers.remove_server B e.this
  run (Handler.confirm_shutdown_server ip) e = Servers.confirm_shutdown_server B ip
  run (Handler.confirm_remove_server ip) e = Servers.confirm_remove_server B ip
  run Handler.disable_server_job e = Server.disable_server_job B e.this
  run Handler.enable_server_job e = Server.enable_server_job B e.this
  run Handler.shutdown_server_job e = Server.shutdown_server_job B e.this
  run Handler.remove_server_job e = Server.remove_server_job B e.this
  run (Handler.confirm_shutdown_server_job ip j) e = Server.confirm_shutdown_server_job B ip j
  run (Handler.confirm_remove_server_job ip j) e = Server.confirm_remove_server_job B ip j
  run Handler.to_servers e = Server.to_servers B
  run Handler.modify_job e = Jobs.modify_job B e.this
  run Handler.job_detail e = Jobs.job_detail B e.this
  run Handler.trigger_job e = Jobs.trigger_job B e.this
  run Handler.disable_job e = Jobs.disable_job B e.this
  run Handler.enable_job e = Jobs.enable_job B e.this
  run Handler.shutdown_job e = Jobs.shutdown_job B e.this
  run Handler.remove_job e = Jobs.remove_job B e.this
  run (Handler.confirm_shutdown_job j) e = Jobs.confirm_shutdown_job B j
  run (Handler.confirm_remove_job j) e = Jobs.confirm_remove_job B j
  run (Handler.job_config_loaded j c) e = Jobs.job_config_loaded B j c
  run Handler.disable_sharding e = Job.disable_sharding B e.this
  run Handler.enable_sharding e = Job.enable_sharding B e.this
  run Handler.to_jobs e = Job.to_jobs B
  run Handler.submit_settings e = Config.submit_settings B
  run (Handler.confirm_settings c) e = Config.confirm_settings B c
  run Handler.reset_settings e = Config.reset_settings B
  run Handler.connect_reg_center e = RegCenter.connect_reg_center B e.this
  run Handler.delete_reg_center e = RegCenter.delete_reg_center B e.this
  run (Handler.confirm_delete_reg_center n) e = RegCenter.confirm_delete_reg_center B n
  run Handler.open_reg_modal e = RegCenter.open_reg_modal B
  run Handler.close_reg_modal e = RegCenter.close_reg_modal B
  run Handler.submit_reg_center e = RegCenter.submit_reg_center_clicked B
  run (Handler.focus_field form f) e = RegCenter.focus_field B form f
  run (Handler.blur_field form f) e = RegCenter.blur_field B form f
  run Handler.connect_data_source e = DataSource.connect_data_source B e.this
  run Handler.delete_data_source e = DataSource.delete_data_source B e.this
  run (Handler.confirm_delete_data_source n) e = DataSource.confirm_delete_data_source B n
  run Handler.open_source_modal e = DataSource.open_source_modal B
  run Handler.close_source_modal e = DataSource.close_source_modal B
  run Handler.submit_data_source e = DataSource.submit_data_source_clicked B
  run Handler.test_connection e = DataSource.test_connection B
  run (Handler.reset_form_fields form) e = RegCenter.reset_form_fields B form
  run Handler.prevent_default e = exec (prevent_default e.this)
  run (Handler.refresh_on_enter tbl) e = Trace.refresh_on_enter B tbl e.key_code

  unfoldable pub answer : (k : Success) → Reply k → World → World
  answer Success.got_authority r = Common.got_authority B r
  answer Success.got_nav_reg_centers r = Dashboard.got_nav_reg_centers B r
  answer Success.got_nav_data_sources r = Dashboard.got_nav_data_sources B r
  answer (Success.switched_reg_center link) r = Dashboard.switched_reg_center B link r
  answer (Success.switched_data_source link) r = Dashboard.switched_data_source B link r
  answer Success.got_reg_centers_tag r = Dashboard.got_reg_centers_tag B r
  answer Success.got_event_trace_tag r = Dashboard.got_event_trace_tag B r
  answer Success.got_job_tag r = Dashboard.got_job_tag B r
  answer Success.got_server_tag r = Dashboard.got_server_tag B r
  answer Success.server_changed r = Servers.server_changed B
  answer Success.server_shut r = Servers.server_shut B
  answer Success.server_removed r = Servers.server_removed B
  answer Success.server_job_changed r = Server.server_job_changed B
  answer Success.server_job_shut r = Server.server_job_shut B
  answer Success.server_job_removed r = Server.server_job_removed B
  answer Success.job_changed r = Jobs.job_changed B
  answer Success.job_shut r = Jobs.job_shut B
  answer Success.job_removed r = Jobs.job_removed B
  answer (Success.got_config j) r = Jobs.got_config B j r
  answer Success.sharding_changed r = Job.sharding_changed B
  answer Success.settings_saved r = Config.settings_saved B
  answer (Success.reg_center_connected btn) r = RegCenter.reg_center_connected B btn r
  answer Success.reg_center_deleted r = RegCenter.reg_center_deleted B
  answer Success.reg_center_added r = RegCenter.reg_center_added B r
  answer (Success.data_source_connected btn) r = DataSource.data_source_connected B btn r
  answer Success.data_source_deleted r = DataSource.data_source_deleted B
  answer Success.data_source_added r = DataSource.data_source_added B r
  answer Success.connection_tested r = DataSource.connection_tested B r

  unfoldable pub load_script : Page → World → World
  load_script Page.index = Index.ready B
  load_script Page.common = Common.ready B
  load_script Page.dashboard = Dashboard.ready B
  load_script Page.pickers = Pickers.ready B
  load_script Page.servers = Servers.ready B
  load_script Page.server = Server.ready B
  load_script Page.jobs = Jobs.ready B
  load_script Page.job = Job.ready B
  load_script Page.config = Config.ready B
  load_script Page.reg_center = RegCenter.ready B
  load_script Page.data_source = DataSource.ready B
  load_script Page.trace = Trace.ready B
  load_script Page.status = StatusHistory.ready B
