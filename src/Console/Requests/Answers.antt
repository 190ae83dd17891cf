-- ===== src/Console/Requests/Answers.antt =====
-- What the function that an answer is handed to sends, and what a script when it is loaded.
use elastic_job_lite.Prelude.{
  String, ◌≡◌, refl, ◌∙◌, true, false, Option, none, some, List, [], ◌∷◌, ◌++◌, append-nil,
  append_assoc, arith, each, length, ◌==◌, ℕ,
}
use elastic_job_lite.Browser.{Browser}
use elastic_job_lite.Browser.Closures.{Handler, Success, Reply, Center}
use elastic_job_lite.Browser.Calls.{Method, Request, no_body, append, set_text, bind, click}
use elastic_job_lite.Browser.Requests.{requests, exec-requests}
use elastic_job_lite.Util.Dashboard.{get_from}
use elastic_job_lite.Util.Dashboard.Tags.{count_requests, got_reg_centers_tag-requests}
use elastic_job_lite.Util.Common
use elastic_job_lite.Util.Dashboard
use elastic_job_lite.Util.Idioms
use elastic_job_lite.Util.Pickers
use elastic_job_lite.Status.Servers
use elastic_job_lite.Status.Server
use elastic_job_lite.Status.Jobs
use elastic_job_lite.Status.Job
use elastic_job_lite.Status.Config
use elastic_job_lite.Global.RegCenter
use elastic_job_lite.Global.DataSource
use elastic_job_lite.History.Trace
use elastic_job_lite.History.Status as StatusHistory
use elastic_job_lite.Index
use elastic_job_lite.Console.{Page, answer, load_script}
use elastic_job_lite.Console.Requests.{Sent}
use elastic_job_lite.Console.Requests.Events.{IsQuiet, when-IsQuiet, do_locale-IsQuiet}

abbrev nav_reg_centers : Request × Success
nav_reg_centers = (get_from "api/registry-center", Success.got_nav_reg_centers)

abbrev nav_data_sources : Request × Success
nav_data_sources = (get_from "api/data-source", Success.got_nav_data_sources)

abbrev tag_reg_centers : Request × Success
tag_reg_centers = (get_from "api/registry-center", Success.got_reg_centers_tag)

abbrev tag_data_sources : Request × Success
tag_data_sources = (get_from "api/data-source", Success.got_event_trace_tag)

abbrev server_counter : Request × Success
server_counter = (get_from "/api/servers/count", Success.got_server_tag)

-- the two counters of the sidebar
abbrev counters : Sent
counters = (get_from "/api/jobs/count", Success.got_job_tag) ∷ server_counter ∷ []

-- The requests of an answer: the lists and the counters of the frame that it may have changed.
abbrev pub requests_after : (k : Success) → Reply k → Sent
requests_after (Success.switched_reg_center link) true = nav_reg_centers ∷ counters
requests_after (Success.switched_data_source link) true = nav_data_sources ∷ []
requests_after Success.got_reg_centers_tag r = count_requests r
requests_after Success.server_removed r = server_counter ∷ []
requests_after Success.server_job_removed r = server_counter ∷ []
requests_after Success.job_removed r = counters
requests_after (Success.reg_center_connected btn) true = nav_reg_centers ∷ counters
requests_after Success.reg_center_deleted r = nav_reg_centers ∷ tag_reg_centers ∷ []
requests_after Success.reg_center_added true = nav_reg_centers ∷ tag_reg_centers ∷ []
requests_after (Success.data_source_connected btn) true = nav_data_sources ∷ []
requests_after Success.data_source_deleted r = nav_data_sources ∷ tag_data_sources ∷ []
requests_after Success.data_source_added true = nav_data_sources ∷ tag_data_sources ∷ []
requests_after _ r = []

abbrev authority : Request × Success
authority = (record { method = Method.head; url = "/"; body = no_body }, Success.got_authority)

-- The requests of a script: what the frame shows, and who the user is.
abbrev pub requests_on : Page → Sent
requests_on Page.dashboard =
    nav_reg_centers ∷ nav_data_sources ∷ tag_reg_centers ∷ tag_data_sources ∷ []
requests_on Page.index = []
requests_on Page.common = []
requests_on Page.pickers = []
requests_on Page.config = []
requests_on Page.trace = []
requests_on Page.status = []
requests_on Page.reg_center = authority ∷ nav_reg_centers ∷ []
requests_on Page.data_source = authority ∷ nav_data_sources ∷ []
requests_on _ = authority ∷ []

each-IsQuiet :
    {A : Type 0} (B : Browser) (body : A → B.World → B.World)
    → ((x : A) → IsQuiet B (body x))
    → (xs : List A) → IsQuiet B (each body xs)
each-IsQuiet B body h [] w = refl
each-IsQuiet B body h (x ∷ xs) w = each-IsQuiet B body h xs (body x w) ∙ h x w

some_left : (c : Center) (cs : List Center) → (length (c ∷ cs) == 0) ≡ false
some_left c cs = ground arith

module _ (B : Browser) where
  got_authority-IsQuiet : (identify : String) → IsQuiet B (Common.got_authority B identify)
  unfolding Common.got_authority requests
  got_authority-IsQuiet identify w =
      when-IsQuiet B _ (set_text "#authority" identify) refl _
      ∙ when-IsQuiet B _ (bind "table" "all.bs.table" Handler.guest_table) refl w

  choose_language-IsQuiet : (lan : Option (List ℕ)) → IsQuiet B (Common.choose_language B lan)
  unfolding Common.choose_language requests
  choose_language-IsQuiet none w = refl
  choose_language-IsQuiet (some lan) w =
      when-IsQuiet B (Common.has_zh lan) (click "#lang-zh") refl w

  init_language-IsQuiet : IsQuiet B (Common.init_language B)
  unfolding Common.init_language
  init_language-IsQuiet w = choose_language-IsQuiet (B.language w) w

  append_item-IsQuiet :
      (dimension attribute : String) (active : Option String) (c : Center)
      → IsQuiet B (λ w.
        Common.do_locale B (B.exec (append dimension (Dashboard.item attribute active c.name)) w))
  unfolding requests
  append_item-IsQuiet dimension attribute active c w =
      simp (do_locale-IsQuiet B, exec-requests B, append-nil)

  render_dimension-IsQuiet :
      (dimension attribute : String) (cs : List Center)
      → IsQuiet B (Dashboard.render_dimension B dimension attribute cs)
  unfolding Dashboard.render_dimension requests
  render_dimension-IsQuiet dimension attribute [] w = simp (exec-requests B, append-nil)
  render_dimension-IsQuiet dimension attribute (c ∷ cs) w = rw (some_left c cs) (
      each-IsQuiet B _ (append_item-IsQuiet dimension attribute (Dashboard.activated_name (c ∷ cs)))
        (c ∷ cs) _
      ∙ simp (exec-requests B, append-nil))

  tooltip_locales-IsQuiet : IsQuiet B (Config.tooltip_locales B)
  unfolding Config.tooltip_locales requests
  tooltip_locales-IsQuiet w =
      each-IsQuiet B (Config.tooltip_locale B) one (B.elements "[data-toggle='tooltip']" w) w
    where
      one : (object : String) → IsQuiet B (Config.tooltip_locale B object)
      one object v = simp (exec-requests B, append-nil)

  pub answer-requests :
      (k : Success) (r : Reply k) (w : B.World)
      → requests (B.calls (answer B k r w)) ≡ requests (B.calls w) ++ requests_after k r
  unfolding answer requests Dashboard.got_nav_reg_centers Dashboard.got_nav_data_sources
      Dashboard.switched_reg_center Dashboard.switched_data_source Dashboard.got_event_trace_tag
      Dashboard.got_job_tag Dashboard.got_server_tag Servers.server_changed Servers.server_shut
      Servers.server_removed Server.server_job_changed Server.server_job_shut
      Server.server_job_removed Jobs.job_changed Jobs.job_shut Jobs.job_removed Jobs.got_config
      Job.sharding_changed Config.settings_saved RegCenter.reg_center_connected
      RegCenter.reg_center_deleted RegCenter.reg_center_added DataSource.data_source_connected
      DataSource.data_source_deleted DataSource.data_source_added DataSource.connection_tested
      Common.show_reg_center_failure_dialog Dashboard.render_sidebar_menu
      Dashboard.refresh_server_nav_tag Dashboard.refresh_job_nav_tag
      Dashboard.render_reg_center_for_dashboard_nav Common.show_success_dialog
      Common.show_data_source_failure_dialog Dashboard.render_data_source_for_dashboard_nav
      Dashboard.refresh_reg_center_nav_tag Dashboard.refresh_event_trace_nav_tag
      Common.show_test_failure_dialog Common.show_test_success_dialog
  answer-requests Success.got_authority r w = rw append-nil (got_authority-IsQuiet r w)
  answer-requests Success.got_nav_reg_centers r w = rw append-nil (render_dimension-IsQuiet _ _ r w)
  answer-requests Success.got_nav_data_sources r w =
      rw append-nil (render_dimension-IsQuiet _ _ r w)
  answer-requests (Success.switched_reg_center link) true w =
      simp (exec-requests B, append-nil, append_assoc)
  answer-requests (Success.switched_reg_center link) false w = simp (exec-requests B, append-nil)
  answer-requests (Success.switched_data_source link) true w = simp (exec-requests B, append-nil)
  answer-requests (Success.switched_data_source link) false w = simp (exec-requests B, append-nil)
  answer-requests Success.got_reg_centers_tag r w = got_reg_centers_tag-requests B r w
  answer-requests Success.got_event_trace_tag r w = simp (exec-requests B, append-nil)
  answer-requests Success.got_job_tag r w = simp (exec-requests B, append-nil)
  answer-requests Success.got_server_tag r w = simp (exec-requests B, append-nil)
  answer-requests Success.server_changed r w = simp (exec-requests B, append-nil)
  answer-requests Success.server_shut r w = simp (exec-requests B, append-nil)
  answer-requests Success.server_removed r w = simp (exec-requests B, append-nil, append_assoc)
  answer-requests Success.server_job_changed r w = simp (exec-requests B, append-nil)
  answer-requests Success.server_job_shut r w = simp (exec-requests B, append-nil)
  answer-requests Success.server_job_removed r w = simp (exec-requests B, append-nil, append_assoc)
  answer-requests Success.job_changed r w = simp (exec-requests B, append-nil)
  answer-requests Success.job_shut r w = simp (exec-requests B, append-nil)
  answer-requests Success.job_removed r w = simp (exec-requests B, append-nil, append_assoc)
  answer-requests (Success.got_config j) none w = rw append-nil
  answer-requests (Success.got_config j) (some c) w = simp (exec-requests B, append-nil)
  answer-requests Success.sharding_changed r w = simp (exec-requests B, append-nil)
  answer-requests Success.settings_saved r w = simp (exec-requests B, append-nil)
  answer-requests (Success.reg_center_connected btn) true w =
      simp (exec-requests B, append-nil, append_assoc)
  answer-requests (Success.reg_center_connected btn) false w = simp (exec-requests B, append-nil)
  answer-requests Success.reg_center_deleted r w = simp (exec-requests B, append-nil, append_assoc)
  answer-requests Success.reg_center_added false w = rw append-nil
  answer-requests Success.reg_center_added true w = simp (exec-requests B, append-nil, append_assoc)
  answer-requests (Success.data_source_connected btn) true w =
      simp (exec-requests B, append-nil, append_assoc)
  answer-requests (Success.data_source_connected btn) false w = simp (exec-requests B, append-nil)
  answer-requests Success.data_source_deleted r w = simp (exec-requests B, append-nil, append_assoc)
  answer-requests Success.data_source_added false w = rw append-nil
  answer-requests Success.data_source_added true w =
      simp (exec-requests B, append-nil, append_assoc)
  answer-requests Success.connection_tested true w = simp (exec-requests B, append-nil)
  answer-requests Success.connection_tested false w = simp (exec-requests B, append-nil)

  pub load_script-requests :
      (p : Page) (w : B.World)
      → requests (B.calls (load_script B p w)) ≡ requests (B.calls w) ++ requests_on p
  unfolding load_script requests Idioms.rebind Servers.ready Server.ready Jobs.ready Job.ready
      Config.ready RegCenter.ready DataSource.ready Index.ready Common.ready Dashboard.ready
      Trace.ready StatusHistory.ready Pickers.ready
  load_script-requests Page.index w = simp (exec-requests B, append-nil, init_language-IsQuiet)
  load_script-requests Page.common w = simp (exec-requests B, append-nil)
  load_script-requests Page.dashboard w = simp (exec-requests B, append-nil, append_assoc)
  load_script-requests Page.pickers w = simp (exec-requests B, append-nil)
  load_script-requests Page.servers w = simp (exec-requests B, append-nil)
  load_script-requests Page.server w = simp (exec-requests B, append-nil)
  load_script-requests Page.jobs w = simp (exec-requests B, append-nil)
  load_script-requests Page.job w = simp (exec-requests B, append-nil)
  load_script-requests Page.config w = simp (exec-requests B, append-nil, tooltip_locales-IsQuiet)
  load_script-requests Page.reg_center w =
      simp (exec-requests B, append-nil, do_locale-IsQuiet B, append_assoc)
  load_script-requests Page.data_source w =
      simp (exec-requests B, append-nil, do_locale-IsQuiet B, append_assoc)
  load_script-requests Page.trace w = simp (exec-requests B, append-nil)
  load_script-requests Page.status w = simp (exec-requests B, append-nil)

  -- The function that the answer to a request is handed to sends the GETs for the lists and the
  -- counters of the frame that its table names for the answer, and a script when it is loaded those
  -- of its own table, a `HEAD` of the root among them; neither sends any other request, the GETs of
  -- tables and pages and those that block not counted.
  pub answer_and_load_script-requests :
      (k : Success) (r : Reply k) (p : Page) (w : B.World)
      → (requests (B.calls (answer B k r w)) ≡ requests (B.calls w) ++ requests_after k r)
        × (requests (B.calls (load_script B p w)) ≡ requests (B.calls w) ++ requests_on p)
  answer_and_load_script-requests k r p w = (answer-requests k r w, load_script-requests p w)
