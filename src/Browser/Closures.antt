-- ===== src/Browser/Closures.antt =====
-- The functions that the console hands to jQuery, with the variables that they close over, and the
-- data that the server answers.
use elastic_job_lite.Prelude.{String, Bool, Option, none, some, List}

-- A registry center or an event trace data source, as the lists of the server show it.
pub record Center : Type 0 where
  pub name : String
  pub activated : Bool

-- `/api/jobs/config/…`; numbers are kept as the text that the form shows, and a text of the server
-- may be null, which is none: it has a command line for a script only.
pub record JobConfig : Type 0 where
  pub job_name : Option String
  pub job_type : Option String
  pub job_class : Option String
  pub sharding_total_count : String
  pub cron : Option String
  pub sharding_item_parameters : Option String
  pub job_parameter : Option String
  pub monitor_execution : Bool
  pub failover : Bool
  pub misfire : Bool
  pub streaming_process : Bool
  pub max_time_diff_seconds : String
  pub monitor_port : String
  pub job_sharding_strategy_class : Option String
  pub executor_service_handler : Option String
  pub job_exception_handler : Option String
  pub reconcile_interval_minutes : String
  pub description : Option String
  pub script_command_line : Option String

-- What an element shows for a text that may be null.
abbrev pub text_or_empty : Option String → String
text_or_empty none = ""
text_or_empty (some s) = s

-- Event handlers, and the functions that run when a page or a table is loaded.
pub data Handler : Type 0 where
  -- index.js and util/common.js
  load_page : String → Handler
  load_help : Handler
  lang_zh lang_en : Handler
  relocate : Handler
  guest_table : Handler
  -- util/dashboard.js
  show_reg_centers show_data_sources : Handler
  switch_reg_center switch_data_source : Handler
  pick_skin : Handler
  open_sub_menu : Handler
  -- util/formatter.js
  apply_date cancel_date : Handler
  -- status/server
  server_detail disable_server enable_server shutdown_server remove_server : Handler
  confirm_shutdown_server confirm_remove_server : String → Handler
  disable_server_job enable_server_job shutdown_server_job remove_server_job : Handler
  confirm_shutdown_server_job confirm_remove_server_job : String → String → Handler
  to_servers : Handler
  -- status/job
  modify_job job_detail trigger_job disable_job enable_job shutdown_job remove_job : Handler
  confirm_shutdown_job confirm_remove_job : String → Handler
  job_config_loaded : String → JobConfig → Handler
  disable_sharding enable_sharding : Handler
  to_jobs : Handler
  submit_settings : Handler
  confirm_settings : JobConfig → Handler
  reset_settings : Handler
  -- global
  connect_reg_center delete_reg_center : Handler
  confirm_delete_reg_center : String → Handler
  open_reg_modal close_reg_modal submit_reg_center : Handler
  focus_field blur_field : String → String → Handler
  connect_data_source delete_data_source : Handler
  confirm_delete_data_source : String → Handler
  open_source_modal close_source_modal submit_data_source test_connection : Handler
  reset_form_fields : String → Handler
  prevent_default : Handler
  -- history
  refresh_on_enter : String → Handler

-- What runs when a request succeeds.
pub data Success : Type 0 where
  got_authority : Success
  got_nav_reg_centers got_nav_data_sources : Success
  switched_reg_center switched_data_source : String → Success
  got_reg_centers_tag got_event_trace_tag got_job_tag got_server_tag : Success
  -- a plain operation: the tables to refresh and the dialogs, in the order of the source
  server_changed server_shut server_removed : Success
  server_job_changed server_job_shut server_job_removed : Success
  job_changed job_shut job_removed : Success
  got_config : String → Success
  sharding_changed : Success
  settings_saved : Success
  reg_center_connected : String → Success
  reg_center_deleted reg_center_added : Success
  data_source_connected : String → Success
  data_source_deleted data_source_added : Success
  connection_tested : Success

-- The data that each of them is called with.
abbrev pub Reply : Success → Type 0
Reply got_authority = String
Reply got_nav_reg_centers = List Center
Reply got_nav_data_sources = List Center
Reply (switched_reg_center _) = Bool
Reply (switched_data_source _) = Bool
Reply got_reg_centers_tag = List Center
Reply got_event_trace_tag = List Center
Reply got_job_tag = String
Reply got_server_tag = String
Reply (got_config _) = Option JobConfig
Reply (reg_center_connected _) = Bool
Reply (data_source_connected _) = Bool
Reply reg_center_added = Bool
Reply data_source_added = Bool
Reply connection_tested = Bool
Reply _ = Unit {0}
