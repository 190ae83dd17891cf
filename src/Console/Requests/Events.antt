-- ===== src/Console/Requests/Events.antt =====
-- That an event sends just the requests of its handler.
use elastic_job_lite.Prelude.{
  ℕ, String, ◌≡◌, refl, ◌∙◌, Bool, true, false, Option, none, some, [], ◌∷◌, ◌++◌, append-nil, ◌<>◌,
  ◌===◌, if◌then◌else◌, inl, inr, Bool-cases, skip, ◌>>=◌, ◌>>◌,
}
use elastic_job_lite.Browser.{Browser}
use elastic_job_lite.Browser.Closures.{Handler, JobConfig}
use elastic_job_lite.Browser.Calls.{Call, validate, show}
use elastic_job_lite.Browser.Requests.{requests, exec-requests}
use elastic_job_lite.Console.Requests.{
  requests_of, settings_sent, reg_center_validated, data_source_validated,
}
use elastic_job_lite.Util.Common
use elastic_job_lite.Util.Dashboard
use elastic_job_lite.Util.Idioms
use elastic_job_lite.Util.Pickers
use elastic_job_lite.Status.Servers
use elastic_job_lite.Status.Server
use elastic_job_lite.Status.Jobs
use elastic_job_lite.Status.Job
use elastic_job_lite.Status.Config
use elastic_job_lite.Global.RegCenter
use elastic_job_lite.Global.DataSource
use elastic_job_lite.History.Trace
use elastic_job_lite.Index
use elastic_job_lite.Console.{Event, run}

module _ (B : Browser) where
  -- a program that sends no request
  abbrev pub IsQuiet : (B.World → B.World) → Type 0
  IsQuiet f = (w : B.World) → requests (B.calls (f w)) ≡ requests (B.calls w)

  -- a call under a test
  pub when-IsQuiet :
      (b : Bool) (c : Call) → requests (c ∷ []) ≡ [] → IsQuiet (if b then B.exec c else skip)
  when-IsQuiet true c h w = simp (exec-requests B, h, append-nil)
  when-IsQuiet false c h w = refl

  pub do_locale-IsQuiet : IsQuiet (Common.do_locale B)
  unfolding Common.do_locale requests
  do_locale-IsQuiet w = simp (exec-requests B, append-nil)

  show_reg_centers-IsQuiet : IsQuiet (Dashboard.show_reg_centers B)
  unfolding Dashboard.show_reg_centers requests
  show_reg_centers-IsQuiet w = when-IsQuiet _ _ refl w

  show_data_sources-IsQuiet : IsQuiet (Dashboard.show_data_sources B)
  unfolding Dashboard.show_data_sources requests
  show_data_sources-IsQuiet w = when-IsQuiet _ _ refl w

  refresh_on_enter-IsQuiet : (tbl : String) (k : ℕ) → IsQuiet (Trace.refresh_on_enter B tbl k)
  unfolding Trace.refresh_on_enter requests
  refresh_on_enter-IsQuiet tbl k w = when-IsQuiet _ _ refl w

  -- the end of `render_job`
  abbrev groups_shown : B.World → B.World
  groups_shown = do
    type ← B.val "#job-type"
    if "DATAFLOW" === type then B.exec (show "#streaming-process-group") else skip
    type' ← B.val "#job-type"
    if "SCRIPT" === type' then B.exec (show "#script-commandLine-group") else skip

  groups_shown-IsQuiet : IsQuiet groups_shown
  unfolding requests
  groups_shown-IsQuiet w =
      let b = "DATAFLOW" === B.val "#job-type" w in
      let v = (if b then B.exec (show "#streaming-process-group") else skip) w in
      when-IsQuiet ("SCRIPT" === B.val "#job-type" v) (show "#script-commandLine-group") refl v
      ∙ when-IsQuiet b (show "#streaming-process-group") refl w

  render_job-IsQuiet : (c : JobConfig) → IsQuiet (Jobs.render_job B c)
  unfolding Jobs.render_job requests
  render_job-IsQuiet c w = groups_shown-IsQuiet _ ∙ simp (exec-requests B, append-nil)

  job_config_loaded-IsQuiet : (j : String) (c : JobConfig) → IsQuiet (Jobs.job_config_loaded B j c)
  unfolding Jobs.job_config_loaded requests
  job_config_loaded-IsQuiet j c w =
      simp (exec-requests B, render_job-IsQuiet, do_locale-IsQuiet, append-nil)

  skip_empty-IsQuiet : (form field : String) → IsQuiet (RegCenter.skip_empty B form field)
  unfolding RegCenter.skip_empty requests
  skip_empty-IsQuiet form field w = elim (Bool-cases ("" === B.val ("#" <> field) w)) [
    | inl empty_field ↦ rw empty_field (simp (exec-requests B, append-nil))
    | inr filled ↦ rw filled refl
  ]

  submit_reg_center-requests :
      (e : Event) (w : B.World)
      → requests (B.calls (RegCenter.submit_reg_center_clicked B w))
        ≡ requests (B.calls w) ++ requests_of B Handler.submit_reg_center e w
  unfolding RegCenter.submit_reg_center_clicked RegCenter.post_reg_center requests
  submit_reg_center-requests e w =
      elim (Bool-cases (B.is_valid "#reg-center-form" (reg_center_validated B w))) [
        | inl valid ↦ rw valid (simp (exec-requests B, skip_empty-IsQuiet, append-nil))
        | inr invalid ↦ rw invalid (simp (exec-requests B, skip_empty-IsQuiet, append-nil))
      ]

  submit_data_source-requests :
      (e : Event) (w : B.World)
      → requests (B.calls (DataSource.submit_data_source_clicked B w))
        ≡ requests (B.calls w) ++ requests_of B Handler.submit_data_source e w
  unfolding DataSource.submit_data_source_clicked requests
  submit_data_source-requests e w =
      elim (Bool-cases (B.is_valid "#data-source-form" (data_source_validated B w))) [
        | inl valid ↦ rw valid (simp (exec-requests B, skip_empty-IsQuiet, append-nil))
        | inr invalid ↦ rw invalid (simp (exec-requests B, skip_empty-IsQuiet, append-nil))
      ]

  pub submit_against-settings_sent :
      (old : Option JobConfig) (new : JobConfig) (w : B.World)
      → requests (B.calls (Config.submit_against B old new w))
        ≡ requests (B.calls w) ++ settings_sent B old new
  unfolding Config.submit_against Config.submit_ajax requests Idioms.rebind_confirm
      Common.show_update_confirm_modal
  submit_against-settings_sent none new w = rw append-nil
  submit_against-settings_sent (some old) new w = elim (Bool-cases (Config.needs_confirm old new)) [
    | inl ask ↦ rw ask (simp (exec-requests B, append-nil))
    | inr go ↦ rw go (simp (exec-requests B, append-nil))
  ]

  submit_settings-requests :
      (e : Event) (w : B.World)
      → requests (B.calls (Config.submit_settings B w))
        ≡ requests (B.calls w) ++ requests_of B Handler.submit_settings e w
  unfolding Config.submit_settings Config.submit_valid Config.get_job_params requests
  submit_settings-requests e w =
      let v = B.exec (validate "#job-config-form") w in
      elim (Bool-cases (B.is_valid "#job-config-form" v)) [
        | inl valid ↦ rw valid (
            submit_against-settings_sent (Config.get_job_params B v).0 (Config.post_json B v)
              (Config.get_job_params B v).1
            ∙ simp (exec-requests B, append-nil))
        | inr invalid ↦ rw invalid (simp (exec-requests B, append-nil))
      ]

  -- An event sends the requests that stand in the table for its handler, the row and the state, and
  -- no other: one operation of its button, or of what was confirmed, or the texts of a valid form, or
  -- nothing. The GETs of tables and pages and those that block are not counted.
  pub run-requests :
      (h : Handler) (e : Event) (w : B.World)
      → requests (B.calls (run B h e w)) ≡ requests (B.calls w) ++ requests_of B h e w
  unfolding run requests Idioms.send Config.submit_ajax Index.load_page Index.load_help
      Common.lang_zh Common.lang_en Common.do_locale Common.guest_table
      Dashboard.switch_reg_center_clicked Dashboard.switch_data_source_clicked Dashboard.pick_skin
      Dashboard.open_sub_menu Pickers.apply_date Pickers.cancel_date Servers.server_detail
      Servers.disable_server Servers.enable_server Servers.shutdown_server Servers.remove_server
      Servers.confirm_shutdown_server Servers.confirm_remove_server Server.disable_server_job
      Server.enable_server_job Server.shutdown_server_job Server.remove_server_job
      Server.confirm_shutdown_server_job Server.confirm_remove_server_job Server.to_servers
      Jobs.modify_job Jobs.job_detail Jobs.trigger_job Jobs.disable_job Jobs.enable_job
      Jobs.shutdown_job Jobs.remove_job Jobs.confirm_shutdown_job Jobs.confirm_remove_job
      Job.disable_sharding Job.enable_sharding Job.to_jobs Config.confirm_settings
      Config.reset_settings RegCenter.connect_reg_center RegCenter.delete_reg_center
      RegCenter.confirm_delete_reg_center RegCenter.open_reg_modal RegCenter.close_reg_modal
      RegCenter.focus_field RegCenter.blur_field DataSource.connect_data_source
      DataSource.delete_data_source DataSource.confirm_delete_data_source
      DataSource.open_source_modal DataSource.close_source_modal DataSource.test_connection
      RegCenter.reset_form_fields Common.show_delete_confirm_modal
      Common.show_shutdown_confirm_modal Idioms.rebind_confirm
  run-requests (Handler.load_page url) e w = simp (exec-requests B, append-nil)
  run-requests Handler.load_help e w = simp (exec-requests B, append-nil)
  run-requests Handler.lang_zh e w = simp (exec-requests B, append-nil)
  run-requests Handler.lang_en e w = simp (exec-requests B, append-nil)
  run-requests Handler.relocate e w = simp (exec-requests B, append-nil)
  run-requests Handler.guest_table e w = simp (exec-requests B, append-nil)
  run-requests Handler.show_reg_centers e w = rw append-nil (show_reg_centers-IsQuiet w)
  run-requests Handler.show_data_sources e w = rw append-nil (show_data_sources-IsQuiet w)
  run-requests Handler.switch_reg_center e w = simp (exec-requests B, append-nil)
  run-requests Handler.switch_data_source e w = simp (exec-requests B, append-nil)
  run-requests Handler.pick_skin e w = simp (exec-requests B, append-nil)
  run-requests Handler.open_sub_menu e w = simp (exec-requests B, append-nil)
  run-requests Handler.apply_date e w = simp (exec-requests B, append-nil)
  run-requests Handler.cancel_date e w = simp (exec-requests B, append-nil)
  run-requests Handler.server_detail e w = simp (exec-requests B, append-nil)
  run-requests Handler.disable_server e w = simp (exec-requests B, append-nil)
  run-requests Handler.enable_server e w = simp (exec-requests B, append-nil)
  run-requests Handler.shutdown_server e w = simp (exec-requests B, append-nil)
  run-requests Handler.remove_server e w = simp (exec-requests B, append-nil)
  run-requests (Handler.confirm_shutdown_server ip) e w = simp (exec-requests B, append-nil)
  run-requests (Handler.confirm_remove_server ip) e w = simp (exec-requests B, append-nil)
  run-requests Handler.disable_server_job e w = simp (exec-requests B, append-nil)
  run-requests Handler.enable_server_job e w = simp (exec-requests B, append-nil)
  run-requests Handler.shutdown_server_job e w = simp (exec-requests B, append-nil)
  run-requests Handler.remove_server_job e w = simp (exec-requests B, append-nil)
  run-requests (Handler.confirm_shutdown_server_job ip j) e w = simp (exec-requests B, append-nil)
  run-requests (Handler.confirm_remove_server_job ip j) e w = simp (exec-requests B, append-nil)
  run-requests Handler.to_servers e w = simp (exec-requests B, append-nil)
  run-requests Handler.modify_job e w = simp (exec-requests B, append-nil)
  run-requests Handler.job_detail e w = simp (exec-requests B, append-nil)
  run-requests Handler.trigger_job e w = simp (exec-requests B, append-nil)
  run-requests Handler.disable_job e w = simp (exec-requests B, append-nil)
  run-requests Handler.enable_job e w = simp (exec-requests B, append-nil)
  run-requests Handler.shutdown_job e w = simp (exec-requests B, append-nil)
  run-requests Handler.remove_job e w = simp (exec-requests B, append-nil)
  run-requests (Handler.confirm_shutdown_job j) e w = simp (exec-requests B, append-nil)
  run-requests (Handler.confirm_remove_job j) e w = simp (exec-requests B, append-nil)
  run-requests (Handler.job_config_loaded j c) e w = rw append-nil (job_config_loaded-IsQuiet j c w)
  run-requests Handler.disable_sharding e w = simp (exec-requests B, append-nil)
  run-requests Handler.enable_sharding e w = simp (exec-requests B, append-nil)
  run-requests Handler.to_jobs e w = simp (exec-requests B, append-nil)
  run-requests Handler.submit_settings e w = submit_settings-requests e w
  run-requests (Handler.confirm_settings c) e w = simp (exec-requests B, append-nil)
  run-requests Handler.reset_settings e w = simp (exec-requests B, append-nil)
  run-requests Handler.connect_reg_center e w = simp (exec-requests B, append-nil)
  run-requests Handler.delete_reg_center e w = simp (exec-requests B, append-nil)
  run-requests (Handler.confirm_delete_reg_center n) e w = simp (exec-requests B, append-nil)
  run-requests Handler.open_reg_modal e w = simp (exec-requests B, append-nil)
  run-requests Handler.close_reg_modal e w = simp (exec-requests B, append-nil)
  run-requests Handler.submit_reg_center e w = submit_reg_center-requests e w
  run-requests (Handler.focus_field form f) e w = simp (exec-requests B, append-nil)
  run-requests (Handler.blur_field form f) e w = simp (exec-requests B, append-nil)
  run-requests Handler.connect_data_source e w = simp (exec-requests B, append-nil)
  run-requests Handler.delete_data_source e w = simp (exec-requests B, append-nil)
  run-requests (Handler.confirm_delete_data_source n) e w = simp (exec-requests B, append-nil)
  run-requests Handler.open_source_modal e w = simp (exec-requests B, append-nil)
  run-requests Handler.close_source_modal e w = simp (exec-requests B, append-nil)
  run-requests Handler.submit_data_source e w = submit_data_source-requests e w
  run-requests Handler.test_connection e w = simp (exec-requests B, append-nil)
  run-requests (Handler.reset_form_fields form) e w = simp (exec-requests B, append-nil)
  run-requests Handler.prevent_default e w = simp (exec-requests B, append-nil)
  run-requests (Handler.refresh_on_enter tbl) e w =
      rw append-nil (refresh_on_enter-IsQuiet tbl e.key_code w)
