-- ===== src/Console/Bindings.antt =====
-- What an event changes of the clicks that are bound to the document: at most the handler of the
-- confirm button.
use elastic_job_lite.Prelude.{
  ℕ, String, ◌≡◌, refl, ◌∙◌, ◌⊎◌, inl, inr, Bool, true, false, Option, none, some, [], ◌∷◌, ◌===◌,
  if◌then◌else◌, arith, Bool-cases,
}
use elastic_job_lite.Browser.{Browser}
use elastic_job_lite.Browser.Closures.{Handler, JobConfig}
use elastic_job_lite.Browser.Calls.{validate}
use elastic_job_lite.Util.Idioms.Bindings.{rebind_confirm-handlers}
use elastic_job_lite.Util.Common.Bindings.{
  Keeps, show_delete_confirm_modal-Keeps, show_shutdown_confirm_modal-Keeps,
  show_update_confirm_modal-Keeps, do_locale-Keeps,
}
use elastic_job_lite.Util.Common
use elastic_job_lite.Util.Dashboard
use elastic_job_lite.Util.Pickers
use elastic_job_lite.Status.Servers
use elastic_job_lite.Status.Server
use elastic_job_lite.Status.Jobs
use elastic_job_lite.Status.Job
use elastic_job_lite.Status.Config
use elastic_job_lite.Global.RegCenter
use elastic_job_lite.Global.DataSource
use elastic_job_lite.History.Trace
use elastic_job_lite.Index
use elastic_job_lite.Console.{Event, run}

-- The operations that wait for the confirm button.
abbrev pub is_confirm : Handler → Bool
is_confirm (Handler.confirm_shutdown_server _) = true
is_confirm (Handler.confirm_remove_server _) = true
is_confirm (Handler.confirm_shutdown_server_job _ _) = true
is_confirm (Handler.confirm_remove_server_job _ _) = true
is_confirm (Handler.confirm_shutdown_job _) = true
is_confirm (Handler.confirm_remove_job _) = true
is_confirm (Handler.confirm_settings _) = true
is_confirm (Handler.confirm_delete_reg_center _) = true
is_confirm (Handler.confirm_delete_data_source _) = true
is_confirm _ = false

-- Between two states at most the confirm button is bound anew, and then to one operation that waits
-- for it; every other selector keeps its handlers.
abbrev pub OpensAt : (B : Browser) → B.World → B.World → Type 0
OpensAt B w w' =
    ((s : String) → B.handlers s w' ≡ B.handlers s w)
    ⊎ ((h : Handler) × (is_confirm h ≡ true)
        × ((s : String)
            → B.handlers s w' ≡ (if "#confirm-btn" === s then h ∷ [] else B.handlers s w)))

abbrev pub OpensAtMost : (B : Browser) → (B.World → B.World) → Type 0
OpensAtMost B f = (w : B.World) → OpensAt B w (f w)

-- A call that binds nothing may come first.
OpensAt-exec :
    (B : Browser) (w v u : B.World)
    → ((s : String) → B.handlers s v ≡ B.handlers s w)
    → OpensAt B v u
    → OpensAt B w u
OpensAt-exec B w v u same (inl kept) = inl (λ s. kept s ∙ same s)
OpensAt-exec B w v u same (inr (h, waits, bound)) = inr (h, waits, λ s. rw (← same s) (bound s))

module _ (B : Browser) where
  show_reg_centers-Keeps : Keeps B (Dashboard.show_reg_centers B)
  unfolding Dashboard.show_reg_centers
  show_reg_centers-Keeps w s = grind (arith, B.handlers-exec)

  show_data_sources-Keeps : Keeps B (Dashboard.show_data_sources B)
  unfolding Dashboard.show_data_sources
  show_data_sources-Keeps w s = grind (arith, B.handlers-exec)

  submit_reg_center-Keeps : Keeps B (RegCenter.submit_reg_center_clicked B)
  unfolding RegCenter.submit_reg_center_clicked
  submit_reg_center-Keeps w s = grind (arith, B.handlers-exec)

  submit_data_source-Keeps : Keeps B (DataSource.submit_data_source_clicked B)
  unfolding DataSource.submit_data_source_clicked
  submit_data_source-Keeps w s = grind (arith, B.handlers-exec)

  refresh_on_enter-Keeps : (tbl : String) (k : ℕ) → Keeps B (Trace.refresh_on_enter B tbl k)
  unfolding Trace.refresh_on_enter
  refresh_on_enter-Keeps tbl k w s = grind (arith, B.handlers-exec)

  render_job-Keeps : (c : JobConfig) → Keeps B (Jobs.render_job B c)
  unfolding Jobs.render_job
  render_job-Keeps c w s = grind (arith, B.handlers-exec)

  job_config_loaded-Keeps : (j : String) (c : JobConfig) → Keeps B (Jobs.job_config_loaded B j c)
  unfolding Jobs.job_config_loaded
  job_config_loaded-Keeps j c w s = simp (B.handlers-exec, render_job-Keeps, do_locale-Keeps B)

  submit_against-OpensAtMost :
      (old : Option JobConfig) (new : JobConfig) → OpensAtMost B (Config.submit_against B old new)
  unfolding Config.submit_against
  submit_against-OpensAtMost none new w = inl (λ s. refl)
  submit_against-OpensAtMost (some old) new w = elim (Bool-cases (Config.needs_confirm old new)) [
    | inl yes_ask ↦ rw yes_ask (
        inr (
          Handler.confirm_settings new,
          refl,
          λ s. simp (rebind_confirm-handlers B, show_update_confirm_modal-Keeps B),
        ))
    | inr no_ask ↦ rw no_ask (inl (λ s. simp B.handlers-exec))
  ]

  submit_settings-OpensAtMost : OpensAtMost B (Config.submit_settings B)
  unfolding Config.submit_settings Config.get_job_params
  submit_settings-OpensAtMost w =
      let v = B.exec (validate "#job-config-form") w in
      elim (Bool-cases (B.is_valid "#job-config-form" v)) [
        | inl valid ↦ rw valid (
            OpensAt-exec B w v _ (λ s. B.handlers-exec _ w s)
              (OpensAt-exec B v (Config.get_job_params B v).1 _ (λ s. B.handlers-exec _ v s)
                (submit_against-OpensAtMost (Config.get_job_params B v).0 (Config.post_json B v)
                  (Config.get_job_params B v).1)))
        | inr invalid ↦ rw invalid (inl (λ s. B.handlers-exec _ w s))
      ]

  -- Whatever event fires, the handlers bound to the document stay as they are, except that the
  -- confirm button may get one operation in place of all that it had.
  pub run-OpensAtMost : (h : Handler) (e : Event) → OpensAtMost B (run B h e)
  unfolding run Index.load_page Index.load_help Common.lang_zh Common.lang_en Common.do_locale
      Common.guest_table Dashboard.switch_reg_center_clicked Dashboard.switch_data_source_clicked
      Dashboard.pick_skin Dashboard.open_sub_menu Pickers.apply_date Pickers.cancel_date
      Servers.server_detail Servers.disable_server Servers.enable_server Servers.shutdown_server
      Servers.remove_server Servers.confirm_shutdown_server Servers.confirm_remove_server
      Server.disable_server_job Server.enable_server_job Server.shutdown_server_job
      Server.remove_server_job Server.confirm_shutdown_server_job Server.confirm_remove_server_job
      Server.to_servers Jobs.modify_job Jobs.job_detail Jobs.trigger_job Jobs.disable_job
      Jobs.enable_job Jobs.shutdown_job Jobs.remove_job Jobs.confirm_shutdown_job
      Jobs.confirm_remove_job Job.disable_sharding Job.enable_sharding Job.to_jobs
      Config.confirm_settings Config.reset_settings RegCenter.connect_reg_center
      RegCenter.delete_reg_center RegCenter.confirm_delete_reg_center RegCenter.open_reg_modal
      RegCenter.close_reg_modal RegCenter.focus_field RegCenter.blur_field
      DataSource.connect_data_source DataSource.delete_data_source
      DataSource.confirm_delete_data_source DataSource.open_source_modal
      DataSource.close_source_modal DataSource.test_connection RegCenter.reset_form_fields
  run-OpensAtMost (Handler.load_page url) e w = inl (λ s. simp B.handlers-exec)
  run-OpensAtMost Handler.load_help e w = inl (λ s. simp B.handlers-exec)
  run-OpensAtMost Handler.lang_zh e w = inl (λ s. simp B.handlers-exec)
  run-OpensAtMost Handler.lang_en e w = inl (λ s. simp B.handlers-exec)
  run-OpensAtMost Handler.relocate e w = inl (λ s. simp B.handlers-exec)
  run-OpensAtMost Handler.guest_table e w = inl (λ s. simp B.handlers-exec)
  run-OpensAtMost Handler.show_reg_centers e w = inl (show_reg_centers-Keeps w)
  run-OpensAtMost Handler.show_data_sources e w = inl (show_data_sources-Keeps w)
  run-OpensAtMost Handler.switch_reg_center e w = inl (λ s. simp B.handlers-exec)
  run-OpensAtMost Handler.switch_data_source e w = inl (λ s. simp B.handlers-exec)
  run-OpensAtMost Handler.pick_skin e w = inl (λ s. simp B.handlers-exec)
  run-OpensAtMost Handler.open_sub_menu e w = inl (λ s. simp B.handlers-exec)
  run-OpensAtMost Handler.apply_date e w = inl (λ s. simp B.handlers-exec)
  run-OpensAtMost Handler.cancel_date e w = inl (λ s. simp B.handlers-exec)
  run-OpensAtMost Handler.server_detail e w = inl (λ s. simp B.handlers-exec)
  run-OpensAtMost Handler.disable_server e w = inl (λ s. simp B.handlers-exec)
  run-OpensAtMost Handler.enable_server e w = inl (λ s. simp B.handlers-exec)
  run-OpensAtMost Handler.shutdown_server e w =
      let w' = Common.show_shutdown_confirm_modal B w in
      inr (
        Handler.confirm_shutdown_server (B.attr e.this "server-ip" w'),
        refl,
        λ s. simp (rebind_confirm-handlers B, show_shutdown_confirm_modal-Keeps B),
      )
  run-OpensAtMost Handler.remove_server e w =
      let w' = Common.show_delete_confirm_modal B w in
      inr (
        Handler.confirm_remove_server (B.attr e.this "server-ip" w'),
        refl,
        λ s. simp (rebind_confirm-handlers B, show_delete_confirm_modal-Keeps B),
      )
  run-OpensAtMost (Handler.confirm_shutdown_server ip) e w = inl (λ s. simp B.handlers-exec)
  run-OpensAtMost (Handler.confirm_remove_server ip) e w = inl (λ s. simp B.handlers-exec)
  run-OpensAtMost Handler.disable_server_job e w = inl (λ s. simp B.handlers-exec)
  run-OpensAtMost Handler.enable_server_job e w = inl (λ s. simp B.handlers-exec)
  run-OpensAtMost Handler.shutdown_server_job e w =
      let w' = Common.show_shutdown_confirm_modal B w in
      inr (
        Handler.confirm_shutdown_server_job (B.text "#server-ip" w') (B.attr e.this "job-name" w'),
        refl,
        λ s. simp (rebind_confirm-handlers B, show_shutdown_confirm_modal-Keeps B),
      )
  run-OpensAtMost Handler.remove_server_job e w =
      let w' = Common.show_delete_confirm_modal B w in
      inr (
        Handler.confirm_remove_server_job (B.text "#server-ip" w') (B.attr e.this "job-name" w'),
        refl,
        λ s. simp (rebind_confirm-handlers B, show_delete_confirm_modal-Keeps B),
      )
  run-OpensAtMost (Handler.confirm_shutdown_server_job ip j) e w = inl (λ s. simp B.handlers-exec)
  run-OpensAtMost (Handler.confirm_remove_server_job ip j) e w = inl (λ s. simp B.handlers-exec)
  run-OpensAtMost Handler.to_servers e w = inl (λ s. simp B.handlers-exec)
  run-OpensAtMost Handler.modify_job e w = inl (λ s. simp B.handlers-exec)
  run-OpensAtMost Handler.job_detail e w = inl (λ s. simp B.handlers-exec)
  run-OpensAtMost Handler.trigger_job e w = inl (λ s. simp B.handlers-exec)
  run-OpensAtMost Handler.disable_job e w = inl (λ s. simp B.handlers-exec)
  run-OpensAtMost Handler.enable_job e w = inl (λ s. simp B.handlers-exec)
  run-OpensAtMost Handler.shutdown_job e w =
      let w' = Common.show_shutdown_confirm_modal B w in
      inr (
        Handler.confirm_shutdown_job (B.attr e.this "job-name" w'),
        refl,
        λ s. simp (rebind_confirm-handlers B, show_shutdown_confirm_modal-Keeps B),
      )
  run-OpensAtMost Handler.remove_job e w = inr (
    Handler.confirm_remove_job (B.attr e.this "job-name" w),
    refl,
    λ s. simp (rebind_confirm-handlers B, show_delete_confirm_modal-Keeps B),
  )
  run-OpensAtMost (Handler.confirm_shutdown_job j) e w = inl (λ s. simp B.handlers-exec)
  run-OpensAtMost (Handler.confirm_remove_job j) e w = inl (λ s. simp B.handlers-exec)
  run-OpensAtMost (Handler.job_config_loaded j c) e w = inl (job_config_loaded-Keeps j c w)
  run-OpensAtMost Handler.disable_sharding e w = inl (λ s. simp B.handlers-exec)
  run-OpensAtMost Handler.enable_sharding e w = inl (λ s. simp B.handlers-exec)
  run-OpensAtMost Handler.to_jobs e w = inl (λ s. simp B.handlers-exec)
  run-OpensAtMost Handler.submit_settings e w = submit_settings-OpensAtMost w
  run-OpensAtMost (Handler.confirm_settings c) e w = inl (λ s. simp B.handlers-exec)
  run-OpensAtMost Handler.reset_settings e w = inl (λ s. simp B.handlers-exec)
  run-OpensAtMost Handler.connect_reg_center e w = inl (λ s. simp B.handlers-exec)
  run-OpensAtMost Handler.delete_reg_center e w =
      let w' = Common.show_delete_confirm_modal B w in
      inr (
        Handler.confirm_delete_reg_center (B.attr e.this "regName" w'),
        refl,
        λ s. simp (rebind_confirm-handlers B, show_delete_confirm_modal-Keeps B),
      )
  run-OpensAtMost (Handler.confirm_delete_reg_center n) e w = inl (λ s. simp B.handlers-exec)
  run-OpensAtMost Handler.open_reg_modal e w = inl (λ s. simp B.handlers-exec)
  run-OpensAtMost Handler.close_reg_modal e w = inl (λ s. simp B.handlers-exec)
  run-OpensAtMost Handler.submit_reg_center e w = inl (submit_reg_center-Keeps w)
  run-OpensAtMost (Handler.focus_field form f) e w = inl (λ s. simp B.handlers-exec)
  run-OpensAtMost (Handler.blur_field form f) e w = inl (λ s. simp B.handlers-exec)
  run-OpensAtMost Handler.connect_data_source e w = inl (λ s. simp B.handlers-exec)
  run-OpensAtMost Handler.delete_data_source e w =
      let w' = Common.show_delete_confirm_modal B w in
      inr (
        Handler.confirm_delete_data_source (B.attr e.this "dataSourceName" w'),
        refl,
        λ s. simp (rebind_confirm-handlers B, show_delete_confirm_modal-Keeps B),
      )
  run-OpensAtMost (Handler.confirm_delete_data_source n) e w = inl (λ s. simp B.handlers-exec)
  run-OpensAtMost Handler.open_source_modal e w = inl (λ s. simp B.handlers-exec)
  run-OpensAtMost Handler.close_source_modal e w = inl (λ s. simp B.handlers-exec)
  run-OpensAtMost Handler.submit_data_source e w = inl (submit_data_source-Keeps w)
  run-OpensAtMost Handler.test_connection e w = inl (λ s. simp B.handlers-exec)
  run-OpensAtMost (Handler.reset_form_fields form) e w = inl (λ s. simp B.handlers-exec)
  run-OpensAtMost Handler.prevent_default e w = inl (λ s. simp B.handlers-exec)
  run-OpensAtMost (Handler.refresh_on_enter tbl) e w = inl (refresh_on_enter-Keeps tbl e.key_code w)
