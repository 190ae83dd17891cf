-- ===== src/Index.antt =====
-- index.js: the links of the sidebar.
use elastic_job_lite.Prelude.{String, none, some, ◌>>◌}
use elastic_job_lite.Browser.{Browser}
use elastic_job_lite.Browser.Closures.{Handler}
use elastic_job_lite.Browser.Calls.{bind, load}
use elastic_job_lite.Util.Common.{switch_language, init_language}

module _ (B : Browser) where
  open B use {World, exec}

  unfoldable pub load_page : String → World → World
  load_page url = exec (load "#content" url none)

  unfoldable pub load_help : World → World
  load_help = exec (load "#content" "html/help/help.html" (some Handler.relocate))

  abbrev link : String → String → World → World
  link id url = exec (bind id "click" (Handler.load_page url))

  unfoldable pub ready : World → World
  unfolding load_page switch_language
  ready = do
    load_page "html/global/registry_center.html"
    link "#reg-center" "html/global/registry_center.html"
    link "#event-trace-data-source" "html/global/event_trace_data_source.html"
    link "#job-status" "html/status/job/jobs_status_overview.html"
    link "#server-status" "html/status/server/servers_status_overview.html"
    link "#event-trace-history" "html/history/job_event_trace_history.html"
    link "#status-history" "html/history/job_status_history.html"
    exec (bind "#help" "click" Handler.load_help)
    switch_language B
    init_language B
