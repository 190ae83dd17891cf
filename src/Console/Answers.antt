-- ===== src/Console/Answers.antt =====
-- What an answer of the server changes of the clicks that are bound to the document: at most those
-- of the two lists in the navigation bar.
use elastic_job_lite.Prelude.{
  String, ◌≡◌, refl, ◌∙◌, true, false, Option, none, some, List, [], ◌∷◌, ◌===◌, arith, each,
  length, ltb, ◌==◌, numeral_text, Bool-cases, inl, inr,
}
use elastic_job_lite.Browser.{Browser}
use elastic_job_lite.Browser.Closures.{Success, Reply, Center}
use elastic_job_lite.Browser.Calls.{append, empty, set_text}
use elastic_job_lite.Util.Common.Bindings.{Keeps, got_authority-Keeps, do_locale-Keeps}
use elastic_job_lite.Util.Common
use elastic_job_lite.Util.Dashboard
use elastic_job_lite.Status.Servers
use elastic_job_lite.Status.Server
use elastic_job_lite.Status.Jobs
use elastic_job_lite.Status.Job
use elastic_job_lite.Status.Config
use elastic_job_lite.Global.RegCenter
use elastic_job_lite.Global.DataSource
use elastic_job_lite.Console.{answer}

-- Not one of the selectors that util/dashboard.js binds with no `.off` before.
abbrev pub IsRebound : String → Type 0
IsRebound s =
    (("#registry-center-dimension-link" === s) ≡ false)
    × (("#data-source-dimension-link" === s) ≡ false)
    × (("a[reg-name]" === s) ≡ false)
    × (("a[data-source-name]" === s) ≡ false)

abbrev pub KeepsRebound : (B : Browser) → (B.World → B.World) → Type 0
KeepsRebound B f = (w : B.World) (s : String) → IsRebound s → B.handlers s (f w) ≡ B.handlers s w

pub each-Keeps :
    {A : Type 0} (B : Browser) (body : A → B.World → B.World)
    → ((x : A) → Keeps B (body x))
    → (xs : List A) → Keeps B (each body xs)
each-Keeps B body h [] w s = refl
each-Keeps B body h (x ∷ xs) w s = each-Keeps B body h xs (body x w) s ∙ h x w s

some_left : (c : Center) (cs : List Center) → (length (c ∷ cs) == 0) ≡ false
some_left c cs = ground arith

is_filled : (c : Center) (cs : List Center) → ltb 0 (length (c ∷ cs)) ≡ true
is_filled c cs = ground arith

module _ (B : Browser) where
  pub render_reg-KeepsRebound : KeepsRebound B (Dashboard.render_reg_center_for_dashboard_nav B)
  unfolding Dashboard.render_reg_center_for_dashboard_nav
  render_reg-KeepsRebound w s q = simp (B.handlers-exec, q.0)

  pub render_source-KeepsRebound : KeepsRebound B (Dashboard.render_data_source_for_dashboard_nav B)
  unfolding Dashboard.render_data_source_for_dashboard_nav
  render_source-KeepsRebound w s q = simp (B.handlers-exec, q.1)

  append_item-Keeps :
      (dimension attribute : String) (active : Option String) (c : Center)
      → Keeps B (λ w.
        Common.do_locale B (B.exec (append dimension (Dashboard.item attribute active c.name)) w))
  append_item-Keeps dimension attribute active c w s = simp (do_locale-Keeps B, B.handlers-exec)

  pub render_dimension-Keeps :
      (dimension attribute : String) (cs : List Center)
      → Keeps B (Dashboard.render_dimension B dimension attribute cs)
  unfolding Dashboard.render_dimension
  render_dimension-Keeps dimension attribute [] w s = simp B.handlers-exec
  render_dimension-Keeps dimension attribute (c ∷ cs) w s = rw (some_left c cs) (
      each-Keeps B _ (append_item-Keeps dimension attribute (Dashboard.activated_name (c ∷ cs)))
        (c ∷ cs) _ s
      ∙ B.handlers-exec (empty dimension) w s)

  tag_round-Keeps : (c : Center) → Keeps B (Dashboard.tag_round B c)
  unfolding Dashboard.tag_round
  tag_round-Keeps c w s = elim (Bool-cases c.activated) [
    | inl on ↦ rw on (simp B.handlers-exec)
    | inr off ↦ rw off (simp B.handlers-exec)
  ]

  pub got_reg_centers_tag-Keeps : (cs : List Center) → Keeps B (Dashboard.got_reg_centers_tag B cs)
  unfolding Dashboard.got_reg_centers_tag
  got_reg_centers_tag-Keeps [] w s = simp B.handlers-exec
  got_reg_centers_tag-Keeps (c ∷ cs) w s = rw (is_filled c cs) (
      each-Keeps B (Dashboard.tag_round B) tag_round-Keeps (c ∷ cs) _ s
      ∙ B.handlers-exec (set_text "#reg-nav-tag" (numeral_text (length (c ∷ cs)))) w s)

  -- Whatever answer comes, only the clicks on the two lists may be bound anew.
  pub answer-KeepsRebound : (k : Success) (r : Reply k) → KeepsRebound B (answer B k r)
  unfolding answer Dashboard.got_nav_reg_centers Dashboard.got_nav_data_sources
      Dashboard.switched_reg_center Dashboard.switched_data_source Dashboard.got_event_trace_tag
      Dashboard.got_job_tag Dashboard.got_server_tag Servers.server_changed Servers.server_shut
      Servers.server_removed Server.server_job_changed Server.server_job_shut
      Server.server_job_removed Jobs.job_changed Jobs.job_shut Jobs.job_removed Jobs.got_config
      Job.sharding_changed Config.settings_saved RegCenter.reg_center_connected
      RegCenter.reg_center_deleted RegCenter.reg_center_added DataSource.data_source_connected
      DataSource.data_source_deleted DataSource.data_source_added DataSource.connection_tested
      Common.show_reg_center_failure_dialog Dashboard.render_sidebar_menu
      Dashboard.refresh_server_nav_tag Dashboard.refresh_job_nav_tag
      Dashboard.render_reg_center_for_dashboard_nav Common.show_success_dialog
      Common.show_data_source_failure_dialog Dashboard.render_data_source_for_dashboard_nav
      Dashboard.refresh_reg_center_nav_tag Dashboard.refresh_event_trace_nav_tag
      Common.show_test_failure_dialog Common.show_test_success_dialog
  answer-KeepsRebound Success.got_authority r w s q = got_authority-Keeps B r w s
  answer-KeepsRebound Success.got_nav_reg_centers r w s q = render_dimension-Keeps _ _ r w s
  answer-KeepsRebound Success.got_nav_data_sources r w s q = render_dimension-Keeps _ _ r w s
  answer-KeepsRebound (Success.switched_reg_center link) true w s q = simp (B.handlers-exec, q.0)
  answer-KeepsRebound (Success.switched_reg_center link) false w s q = simp B.handlers-exec
  answer-KeepsRebound (Success.switched_data_source link) true w s q = simp (B.handlers-exec, q.1)
  answer-KeepsRebound (Success.switched_data_source link) false w s q = simp B.handlers-exec
  answer-KeepsRebound Success.got_reg_centers_tag r w s q = got_reg_centers_tag-Keeps r w s
  answer-KeepsRebound Success.got_event_trace_tag r w s q = simp B.handlers-exec
  answer-KeepsRebound Success.got_job_tag r w s q = simp B.handlers-exec
  answer-KeepsRebound Success.got_server_tag r w s q = simp B.handlers-exec
  answer-KeepsRebound Success.server_changed r w s q = simp B.handlers-exec
  answer-KeepsRebound Success.server_shut r w s q = simp B.handlers-exec
  answer-KeepsRebound Success.server_removed r w s q = simp B.handlers-exec
  answer-KeepsRebound Success.server_job_changed r w s q = simp B.handlers-exec
  answer-KeepsRebound Success.server_job_shut r w s q = simp B.handlers-exec
  answer-KeepsRebound Success.server_job_removed r w s q = simp B.handlers-exec
  answer-KeepsRebound Success.job_changed r w s q = simp B.handlers-exec
  answer-KeepsRebound Success.job_shut r w s q = simp B.handlers-exec
  answer-KeepsRebound Success.job_removed r w s q = simp B.handlers-exec
  answer-KeepsRebound (Success.got_config j) none w s q = refl
  answer-KeepsRebound (Success.got_config j) (some c) w s q = simp B.handlers-exec
  answer-KeepsRebound Success.sharding_changed r w s q = simp B.handlers-exec
  answer-KeepsRebound Success.settings_saved r w s q = simp B.handlers-exec
  answer-KeepsRebound (Success.reg_center_connected btn) true w s q = simp (B.handlers-exec, q.0)
  answer-KeepsRebound (Success.reg_center_connected btn) false w s q = simp B.handlers-exec
  answer-KeepsRebound Success.reg_center_deleted r w s q = simp (B.handlers-exec, q.0)
  answer-KeepsRebound Success.reg_center_added false w s q = refl
  answer-KeepsRebound Success.reg_center_added true w s q = simp (B.handlers-exec, q.0)
  answer-KeepsRebound (Success.data_source_connected btn) true w s q = simp (B.handlers-exec, q.1)
  answer-KeepsRebound (Success.data_source_connected btn) false w s q = simp B.handlers-exec
  answer-KeepsRebound Success.data_source_deleted r w s q = simp (B.handlers-exec, q.1)
  answer-KeepsRebound Success.data_source_added false w s q = refl
  answer-KeepsRebound Success.data_source_added true w s q = simp (B.handlers-exec, q.1)
  answer-KeepsRebound Success.connection_tested true w s q = simp B.handlers-exec
  answer-KeepsRebound Success.connection_tested false w s q = simp B.handlers-exec
