-- ===== src/Console/Links.antt =====
-- The clicks on the two lists of the navigation bar pile up: util/dashboard.js binds them with no
-- `.off` before, each time that a list is rendered.
use elastic_job_lite.Prelude.{
  ◌≡◌, ◌∙◌, true, false, none, some, List, [], ◌∷◌, ◌++◌, append_assoc, append-nil, each,
}
use elastic_job_lite.Browser.{Browser}
use elastic_job_lite.Browser.Closures.{Handler, Success, Reply}
use elastic_job_lite.Util.Common.Bindings.{got_authority-Keeps}
use elastic_job_lite.Console.Answers.{render_dimension-Keeps, got_reg_centers_tag-Keeps}
use elastic_job_lite.Util.Common
use elastic_job_lite.Util.Dashboard
use elastic_job_lite.Status.Servers
use elastic_job_lite.Status.Server
use elastic_job_lite.Status.Jobs
use elastic_job_lite.Status.Job
use elastic_job_lite.Status.Config
use elastic_job_lite.Global.RegCenter
use elastic_job_lite.Global.DataSource
use elastic_job_lite.Console.{answer}

-- What an answer binds to the link of the registry centers, and to that of the data sources.
abbrev pub reg_center_link : (k : Success) → Reply k → List Handler
reg_center_link (Success.switched_reg_center _) true = Handler.show_reg_centers ∷ []
reg_center_link (Success.reg_center_connected _) true = Handler.show_reg_centers ∷ []
reg_center_link Success.reg_center_deleted _ = Handler.show_reg_centers ∷ []
reg_center_link Success.reg_center_added true = Handler.show_reg_centers ∷ []
reg_center_link _ _ = []

abbrev pub data_source_link : (k : Success) → Reply k → List Handler
data_source_link (Success.switched_data_source _) true = Handler.show_data_sources ∷ []
data_source_link (Success.data_source_connected _) true = Handler.show_data_sources ∷ []
data_source_link Success.data_source_deleted _ = Handler.show_data_sources ∷ []
data_source_link Success.data_source_added true = Handler.show_data_sources ∷ []
data_source_link _ _ = []

-- an answer with its data
abbrev pub Answered : Type 0
Answered = (k : Success) × Reply k

abbrev pub bound_to_links : List Answered → List Handler × List Handler
bound_to_links [] = ([], [])
bound_to_links ((k, r) ∷ replies) = (
  reg_center_link k r ++ (bound_to_links replies).0,
  data_source_link k r ++ (bound_to_links replies).1,
)

module _ (B : Browser) where
  answer-links :
      (k : Success) (r : Reply k) (w : B.World)
      → (B.handlers "#registry-center-dimension-link" (answer B k r w)
          ≡ B.handlers "#registry-center-dimension-link" w ++ reg_center_link k r)
        × (B.handlers "#data-source-dimension-link" (answer B k r w)
            ≡ B.handlers "#data-source-dimension-link" w ++ data_source_link k r)
  unfolding answer Dashboard.got_nav_reg_centers Dashboard.got_nav_data_sources
      Dashboard.switched_reg_center Dashboard.switched_data_source Dashboard.got_event_trace_tag
      Dashboard.got_job_tag Dashboard.got_server_tag Servers.server_changed Servers.server_shut
      Servers.server_removed Server.server_job_changed Server.server_job_shut
      Server.server_job_removed Jobs.job_changed Jobs.job_shut Jobs.job_removed Jobs.got_config
      Job.sharding_changed Config.settings_saved RegCenter.reg_center_connected
      RegCenter.reg_center_deleted RegCenter.reg_center_added DataSource.data_source_connected
      DataSource.data_source_deleted DataSource.data_source_added DataSource.connection_tested
      Common.show_reg_center_failure_dialog Dashboard.render_sidebar_menu
      Dashboard.refresh_server_nav_tag Dashboard.refresh_job_nav_tag
      Dashboard.render_reg_center_for_dashboard_nav Common.show_success_dialog
      Common.show_data_source_failure_dialog Dashboard.render_data_source_for_dashboard_nav
      Dashboard.refresh_reg_center_nav_tag Dashboard.refresh_event_trace_nav_tag
      Common.show_test_failure_dialog Common.show_test_success_dialog
  answer-links Success.got_authority r w =
      (got_authority-Keeps B r w _ ∙ simp append-nil, got_authority-Keeps B r w _ ∙ simp append-nil)
  answer-links Success.got_nav_reg_centers r w = (
    render_dimension-Keeps B _ _ r w _ ∙ simp append-nil,
    render_dimension-Keeps B _ _ r w _ ∙ simp append-nil,
  )
  answer-links Success.got_nav_data_sources r w = (
    render_dimension-Keeps B _ _ r w _ ∙ simp append-nil,
    render_dimension-Keeps B _ _ r w _ ∙ simp append-nil,
  )
  answer-links (Success.switched_reg_center link) true w =
      (simp (B.handlers-exec, append-nil), simp (B.handlers-exec, append-nil))
  answer-links (Success.switched_reg_center link) false w =
      (simp (B.handlers-exec, append-nil), simp (B.handlers-exec, append-nil))
  answer-links (Success.switched_data_source link) true w =
      (simp (B.handlers-exec, append-nil), simp (B.handlers-exec, append-nil))
  answer-links (Success.switched_data_source link) false w =
      (simp (B.handlers-exec, append-nil), simp (B.handlers-exec, append-nil))
  answer-links Success.got_reg_centers_tag r w = (
    got_reg_centers_tag-Keeps B r w _ ∙ simp append-nil,
    got_reg_centers_tag-Keeps B r w _ ∙ simp append-nil,
  )
  answer-links Success.got_event_trace_tag r w =
      (simp (B.handlers-exec, append-nil), simp (B.handlers-exec, append-nil))
  answer-links Success.got_job_tag r w =
      (simp (B.handlers-exec, append-nil), simp (B.handlers-exec, append-nil))
  answer-links Success.got_server_tag r w =
      (simp (B.handlers-exec, append-nil), simp (B.handlers-exec, append-nil))
  answer-links Success.server_changed r w =
      (simp (B.handlers-exec, append-nil), simp (B.handlers-exec, append-nil))
  answer-links Success.server_shut r w =
      (simp (B.handlers-exec, append-nil), simp (B.handlers-exec, append-nil))
  answer-links Success.server_removed r w =
      (simp (B.handlers-exec, append-nil), simp (B.handlers-exec, append-nil))
  answer-links Success.server_job_changed r w =
      (simp (B.handlers-exec, append-nil), simp (B.handlers-exec, append-nil))
  answer-links Success.server_job_shut r w =
      (simp (B.handlers-exec, append-nil), simp (B.handlers-exec, append-nil))
  answer-links Success.server_job_removed r w =
      (simp (B.handlers-exec, append-nil), simp (B.handlers-exec, append-nil))
  answer-links Success.job_changed r w =
      (simp (B.handlers-exec, append-nil), simp (B.handlers-exec, append-nil))
  answer-links Success.job_shut r w =
      (simp (B.handlers-exec, append-nil), simp (B.handlers-exec, append-nil))
  answer-links Success.job_removed r w =
      (simp (B.handlers-exec, append-nil), simp (B.handlers-exec, append-nil))
  answer-links (Success.got_config j) none w =
      (simp (B.handlers-exec, append-nil), simp (B.handlers-exec, append-nil))
  answer-links (Success.got_config j) (some c) w =
      (simp (B.handlers-exec, append-nil), simp (B.handlers-exec, append-nil))
  answer-links Success.sharding_changed r w =
      (simp (B.handlers-exec, append-nil), simp (B.handlers-exec, append-nil))
  answer-links Success.settings_saved r w =
      (simp (B.handlers-exec, append-nil), simp (B.handlers-exec, append-nil))
  answer-links (Success.reg_center_connected btn) true w =
      (simp (B.handlers-exec, append-nil), simp (B.handlers-exec, append-nil))
  answer-links (Success.reg_center_connected btn) false w =
      (simp (B.handlers-exec, append-nil), simp (B.handlers-exec, append-nil))
  answer-links Success.reg_center_deleted r w =
      (simp (B.handlers-exec, append-nil), simp (B.handlers-exec, append-nil))
  answer-links Success.reg_center_added false w =
      (simp (B.handlers-exec, append-nil), simp (B.handlers-exec, append-nil))
  answer-links Success.reg_center_added true w =
      (simp (B.handlers-exec, append-nil), simp (B.handlers-exec, append-nil))
  answer-links (Success.data_source_connected btn) true w =
      (simp (B.handlers-exec, append-nil), simp (B.handlers-exec, append-nil))
  answer-links (Success.data_source_connected btn) false w =
      (simp (B.handlers-exec, append-nil), simp (B.handlers-exec, append-nil))
  answer-links Success.data_source_deleted r w =
      (simp (B.handlers-exec, append-nil), simp (B.handlers-exec, append-nil))
  answer-links Success.data_source_added false w =
      (simp (B.handlers-exec, append-nil), simp (B.handlers-exec, append-nil))
  answer-links Success.data_source_added true w =
      (simp (B.handlers-exec, append-nil), simp (B.handlers-exec, append-nil))
  answer-links Success.connection_tested true w =
      (simp (B.handlers-exec, append-nil), simp (B.handlers-exec, append-nil))
  answer-links Success.connection_tested false w =
      (simp (B.handlers-exec, append-nil), simp (B.handlers-exec, append-nil))

  -- After any answers, in any order, each link has the handlers that it had, and one more for every
  -- answer that one of its list is connected or added and for every answer to a deletion.
  pub each-answer-links :
      (replies : List Answered) (w : B.World)
      → let v = each (λ a. answer B a.0 a.1) replies w in
        (B.handlers "#registry-center-dimension-link" v
          ≡ B.handlers "#registry-center-dimension-link" w ++ (bound_to_links replies).0)
        × (B.handlers "#data-source-dimension-link" v
            ≡ B.handlers "#data-source-dimension-link" w ++ (bound_to_links replies).1)
  each-answer-links [] w = (simp append-nil, simp append-nil)
  each-answer-links ((k, r) ∷ replies) w =
      let ih = each-answer-links replies (answer B k r w) in
      let one = answer-links k r w in
      (
        ih.0
            ∙ rw one.0 (
                append_assoc (B.handlers "#registry-center-dimension-link" w) (reg_center_link k r)
                  (bound_to_links replies).0),
        ih.1
            ∙ rw one.1 (
                append_assoc (B.handlers "#data-source-dimension-link" w) (data_source_link k r)
                  (bound_to_links replies).1),
      )
