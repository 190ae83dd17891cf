-- ===== src/Tests/Pages.antt =====
-- Runs of the form of a job, of the dashboard and of the rules of a name.
use elastic_job_lite.Prelude.{
  String, ◌≡◌, refl, ◌⊎◌, Bool, true, false, none, some, ◌<>◌, List, [], ◌∷◌, ◌++◌, each, All,
}
use mathlib.Core.List.{Perm}
use mathlib.Core.List.Perm
use elastic_job_lite.Browser.{Browser}
use elastic_job_lite.Browser.Simple.{simple, simple_form}
use elastic_job_lite.Browser.Form.{taken}
use elastic_job_lite.Status.Jobs.{render_job}
use elastic_job_lite.Console.Filled.{
  job_calls, without_nulls, post_json-render_job, submit_valid-render_job,
}
use elastic_job_lite.Console.Links.{Answered, each-answer-links}
use elastic_job_lite.Browser.Closures.{Handler, Success, JobConfig}
use elastic_job_lite.Browser.Calls.{Request}
use elastic_job_lite.Browser.Requests.{requests, reads}
use elastic_job_lite.Util.Dashboard.{got_reg_centers_tag, get_from}
use elastic_job_lite.Util.Dashboard.Tags.{deliver, count_requests, got_reg_centers_tag_lem}
use elastic_job_lite.Status.Config
use elastic_job_lite.Console.{answer}
use elastic_job_lite.Console.Steps.{click}
use elastic_job_lite.Console.Requests.{put_settings}
use elastic_job_lite.Console.Asked.{SameFlags, submit_against-requests}
use elastic_job_lite.Tests.{two_centers, answers_with, browser, no_calls, on_button}

abbrev job_with_failover : Bool → JobConfig
job_with_failover on = record {
  job_name = some "job_a";
  job_type = some "SIMPLE";
  job_class = some "com.example.JobA";
  sharding_total_count = "3";
  cron = some "0/5 * * * * ?";
  sharding_item_parameters = some "";
  job_parameter = some "";
  monitor_execution = true;
  failover = on;
  misfire = true;
  streaming_process = false;
  max_time_diff_seconds = "-1";
  monitor_port = "9888";
  job_sharding_strategy_class = none;
  executor_service_handler = some "";
  job_exception_handler = some "";
  reconcile_interval_minutes = "10";
  description = some "";
  script_command_line = none;
}

abbrev old_job : JobConfig
old_job = job_with_failover false

abbrev new_job : JobConfig
new_job = job_with_failover true

submit_against-requests_example :
    let v = Config.submit_against browser (some old_job) new_job no_calls in
    (SameFlags browser old_job new_job
      × (requests (browser.calls v)
          ≡ requests (browser.calls no_calls) ++ put_settings new_job ∷ []))
    ⊎ (¬ SameFlags browser old_job new_job
        × (requests (browser.calls v) ≡ requests (browser.calls no_calls))
        × (requests (browser.calls (click browser "#confirm-btn" on_button v))
            ≡ requests (browser.calls no_calls) ++ put_settings new_job ∷ []))
submit_against-requests_example = submit_against-requests browser old_job new_job on_button no_calls

-- the answer for the servers comes first
abbrev arrived : List (Request × Success)
arrived =
    (get_from "/api/servers/count", Success.got_server_tag)
    ∷ (get_from "/api/jobs/count", Success.got_job_tag)
    ∷ []

arrived-Perm : Perm arrived (count_requests two_centers)
arrived-Perm =
    Perm.swap (get_from "/api/jobs/count", Success.got_job_tag)
      (get_from "/api/servers/count", Success.got_server_tag) []

abbrev prod : String
prod = "prod"

-- a browser whose server has the configuration of a job
abbrev serving : Browser
serving = simple (answers_with (some old_job))

job_calls-taken :
    All (λ k. taken (simple_form (answers_with (some old_job))).takes k ≡ true) (job_calls old_job)
job_calls-taken = (
  refl,
  (
    refl,
    (
      refl,
      (
        refl,
        (
          refl,
          (
            refl,
            (
              refl,
              (
                refl,
                (
                  refl,
                  (
                    refl,
                    (refl, (refl, (refl, (refl, (refl, (refl, (refl, (refl, (refl, tt))))))))),
                  ),
                ),
              ),
            ),
          ),
        ),
      ),
    ),
  ),
)

post_json-render_job_example :
    Config.post_json serving (render_job serving old_job no_calls) ≡ without_nulls old_job
post_json-render_job_example =
    post_json-render_job serving (simple_form (answers_with (some old_job))) old_job no_calls tt
      job_calls-taken

got_old_job : (Config.get_job_params serving (render_job serving old_job no_calls)).0 ≡ some old_job
unfolding Config.get_job_params
got_old_job = refl

submit_valid-render_job_example :
    let v = render_job serving old_job no_calls in
    (requests (serving.calls (Config.submit_valid serving v))
      ≡ requests (serving.calls v) ++ put_settings (without_nulls old_job) ∷ [])
    × (reads (serving.calls (Config.submit_valid serving v))
        ≡ reads (serving.calls v)
          ++ ("/api/jobs/config/" <> serving.text "#job-overviews-name" v) ∷ [])
submit_valid-render_job_example =
    submit_valid-render_job serving (simple_form (answers_with (some old_job))) old_job no_calls tt
      job_calls-taken old_job got_old_job (refl, refl, refl)

abbrev some_replies : List Answered
some_replies =
    (Success.reg_center_added, true)
    ∷ (Success.reg_center_connected "#clicked", true)
    ∷ (Success.reg_center_connected "#clicked", false)
    ∷ (Success.data_source_deleted, tt)
    ∷ []

each-answer-links_example :
    let v = each (λ a. answer browser a.0 a.1) some_replies no_calls in
    (browser.handlers "#registry-center-dimension-link" v
      ≡ Handler.show_reg_centers ∷ Handler.show_reg_centers ∷ [])
    × (browser.handlers "#data-source-dimension-link" v ≡ Handler.show_data_sources ∷ [])
each-answer-links_example = each-answer-links browser some_replies no_calls

got_reg_centers_tag_lem_example :
    let v =
      each (deliver browser "12" "3") arrived (got_reg_centers_tag browser two_centers no_calls) in
    (requests (browser.calls (got_reg_centers_tag browser two_centers no_calls))
      ≡ requests (browser.calls no_calls) ++ count_requests two_centers)
    × (browser.text "#job-nav-tag" v ≡ "12")
    × (browser.text "#server-nav-tag" v ≡ "3")
got_reg_centers_tag_lem_example =
    got_reg_centers_tag_lem browser two_centers arrived "12" "3" no_calls arrived-Perm
