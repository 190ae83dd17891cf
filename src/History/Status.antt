-- ===== src/History/Status.antt =====
-- history/job_status_history.js
use elastic_job_lite.Prelude.{
  ℕ, String, Option, none, some, List, ◌++◌, codes, length, take, ltb, ◌-◌, ◌||◌, ◌===◌,
  if◌then◌else◌, ◌>>◌,
}
use elastic_job_lite.Browser.{Browser}
use elastic_job_lite.Browser.Closures.{Handler}
use elastic_job_lite.Browser.Calls.{bind}
use elastic_job_lite.History.Markup.{escape}
use elastic_job_lite.History.Trace.{Params, max_length, replacement}

pub record Query : Type 0 where
  pub per_page : ℕ
  pub page : ℕ
  pub q : String
  pub sort : String
  pub order : String
  pub job_name : String
  pub state : String
  pub start_time : String
  pub end_time : String

unfoldable pub detail : List ℕ → List ℕ
detail value = take (max_length - length replacement) value ++ replacement

unfoldable pub link_open : String → List ℕ
link_open state =
    if "TASK_FAILED" === state || "TASK_ERROR" === state
    then codes
        "<a href=\"javascript: void(0);\" style=\"color:#FF0000;\" onClick=\"showHistoryMessage('"
    else codes
        "<a href=\"javascript: void(0);\" style=\"color:black;\" onClick=\"showHistoryMessage('"

-- `state` is the field of the row; `null` stays `null`.
unfoldable pub split_remark_formatter : Option (List ℕ) → String → Option (List ℕ)
unfolding detail link_open
split_remark_formatter none state = none
split_remark_formatter (some value) state =
    if ltb max_length (length value)
    then some
        (link_open state ++ (escape value ++ (codes "')\">" ++ (detail value ++ codes "</a>"))))
    else some value

unfoldable pub state_formatter : String → String
state_formatter value =
    if value === "TASK_STAGING"
    then "<span class='label label-default' data-lang='status-staging'></span>"
    else if value === "TASK_FAILED"
    then "<span class='label label-danger' data-lang='status-task-failed'></span>"
    else if value === "TASK_FINISHED"
    then "<span class='label label-success' data-lang='status-task-finished'></span>"
    else if value === "TASK_RUNNING"
    then "<span class='label label-primary' data-lang='status-running'></span>"
    else if value === "TASK_ERROR"
    then "<span class='label label-danger' data-lang='status-task-error'></span>"
    else if value === "TASK_KILLED"
    then "<span class='label label-warning' data-lang='status-task-killed'></span>"
    else "-"

module _ (B : Browser) where
  open B use {World, exec, val}

  unfoldable pub query_params : Params → World → Query
  query_params params w = record {
    per_page = params.page_size;
    page = params.page_number;
    q = params.search_text;
    sort = if "success" === params.sort_name then "isSuccess" else params.sort_name;
    order = params.sort_order;
    job_name = val "#job-name" w;
    state = val "#state" w;
    start_time = val "#start-time" w;
    end_time = val "#end-time" w;
  }

  unfoldable pub ready : World → World
  ready = do
    exec (bind ".toolbar input" "keypress" (Handler.refresh_on_enter "#job-exec-status-table"))
    exec (bind "#job-exec-status-table" "all.bs.table" Handler.relocate)
