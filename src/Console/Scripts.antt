-- ===== src/Console/Scripts.antt =====
-- What the scripts of the pages bind when they are loaded.
use elastic_job_lite.Prelude.{String, ◌≡◌, List, [], ◌∷◌, ◌===◌, if◌then◌else◌}
use elastic_job_lite.Browser.{Browser}
use elastic_job_lite.Browser.Closures.{Handler}
use elastic_job_lite.Util.Idioms.{operation, plain_operation}
use elastic_job_lite.Util.Idioms.Bindings.{rebind-handlers}
use elastic_job_lite.Util.Common.Bindings.{Keeps, ready-Keeps, do_locale-Keeps, init_language-Keeps}
use elastic_job_lite.Util.Dashboard
use elastic_job_lite.Util.Pickers
use elastic_job_lite.Status.Servers
use elastic_job_lite.Status.Server
use elastic_job_lite.Status.Jobs
use elastic_job_lite.Status.Job
use elastic_job_lite.Status.Config
use elastic_job_lite.Global.RegCenter
use elastic_job_lite.Global.DataSource
use elastic_job_lite.History.Trace
use elastic_job_lite.History.Status as StatusHistory
use elastic_job_lite.Index
use elastic_job_lite.Console.{Page, load_script}
use elastic_job_lite.Console.Answers.{IsRebound, each-Keeps}

-- The buttons that a script binds, in its order, and what they run.
abbrev pub bindings : Page → List (String × Handler)
bindings Page.servers =
    (plain_operation "server-detail", Handler.server_detail)
    ∷ (plain_operation "disable-server", Handler.disable_server)
    ∷ (plain_operation "enable-server", Handler.enable_server)
    ∷ (plain_operation "shutdown-server", Handler.shutdown_server)
    ∷ (plain_operation "remove-server", Handler.remove_server)
    ∷ []
bindings Page.server =
    (plain_operation "disable-server-job", Handler.disable_server_job)
    ∷ (plain_operation "enable-server-job", Handler.enable_server_job)
    ∷ (plain_operation "shutdown-server-job", Handler.shutdown_server_job)
    ∷ (plain_operation "remove-server-job", Handler.remove_server_job)
    ∷ []
bindings Page.jobs =
    (plain_operation "modify-job", Handler.modify_job)
    ∷ (plain_operation "job-detail", Handler.job_detail)
    ∷ (plain_operation "trigger-job", Handler.trigger_job)
    ∷ (plain_operation "shutdown-job", Handler.shutdown_job)
    ∷ (plain_operation "disable-job", Handler.disable_job)
    ∷ (plain_operation "enable-job", Handler.enable_job)
    ∷ (plain_operation "remove-job", Handler.remove_job)
    ∷ []
bindings Page.job =
    (operation "disable-sharding", Handler.disable_sharding)
    ∷ (operation "enable-sharding", Handler.enable_sharding)
    ∷ []
bindings Page.reg_center =
    (operation "connect-reg-center", Handler.connect_reg_center)
    ∷ (operation "delete-reg-center", Handler.delete_reg_center)
    ∷ []
bindings Page.data_source =
    (operation "connect-datasource", Handler.connect_data_source)
    ∷ (operation "delete-datasource", Handler.delete_data_source)
    ∷ []
bindings _ = []

-- The handlers of a selector when each listed one takes the place of those before.
abbrev pub bound_by : List (String × Handler) → String → List Handler → List Handler
bound_by [] s old = old
bound_by ((t, h) ∷ bs) s old = bound_by bs s (if t === s then h ∷ [] else old)

module _ (B : Browser) where
  tooltip_locales-Keeps : Keeps B (Config.tooltip_locales B)
  unfolding Config.tooltip_locales
  tooltip_locales-Keeps w s =
      each-Keeps B (Config.tooltip_locale B) one (B.elements "[data-toggle='tooltip']" w) w s
    where
      one : (object : String) → Keeps B (Config.tooltip_locale B object)
      one object v t = simp B.handlers-exec

  pub load_script-handlers :
      (p : Page) (w : B.World) (s : String)
      → IsRebound s
      → B.handlers s (load_script B p w) ≡ bound_by (bindings p) s (B.handlers s w)
  unfolding load_script Servers.ready Server.ready Jobs.ready Job.ready Config.ready RegCenter.ready
      DataSource.ready Index.ready Dashboard.ready Trace.ready StatusHistory.ready Pickers.ready
  load_script-handlers Page.index w s q = simp (B.handlers-exec, init_language-Keeps B)
  load_script-handlers Page.common w s q = ready-Keeps B w s
  load_script-handlers Page.dashboard w s (q0, q1, q2, q3) = simp (B.handlers-exec, q0, q1, q2, q3)
  load_script-handlers Page.pickers w s q = simp B.handlers-exec
  load_script-handlers Page.servers w s q = simp (rebind-handlers B, B.handlers-exec)
  load_script-handlers Page.server w s q = simp (rebind-handlers B, B.handlers-exec)
  load_script-handlers Page.jobs w s q = simp (rebind-handlers B, B.handlers-exec)
  load_script-handlers Page.job w s q = simp (rebind-handlers B, B.handlers-exec)
  load_script-handlers Page.config w s q = simp (B.handlers-exec, tooltip_locales-Keeps)
  load_script-handlers Page.reg_center w s (q0, q1, q2, q3) =
      simp (rebind-handlers B, B.handlers-exec, do_locale-Keeps B, q0)
  load_script-handlers Page.data_source w s (q0, q1, q2, q3) =
      simp (rebind-handlers B, B.handlers-exec, do_locale-Keeps B, q1)
  load_script-handlers Page.trace w s q = simp B.handlers-exec
  load_script-handlers Page.status w s q = simp B.handlers-exec
