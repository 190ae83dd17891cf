-- ===== src/History/Trace.antt =====
-- history/job_event_trace_history.js
use elastic_job_lite.Prelude.{
  ℕ, String, Bool, true, false, Option, none, some, List, ◌++◌, codes, length, take, ltb, ◌-◌,
  ◌===◌, if◌then◌else◌, ◌>>◌, ◌==◌, skip,
}
use elastic_job_lite.Browser.{Browser}
use elastic_job_lite.Browser.Closures.{Handler}
use elastic_job_lite.Browser.Calls.{bind, input_mask, refresh_silently}
use elastic_job_lite.History.Markup.{escape}

-- What the table hands over for a page of rows.
pub record Params : Type 0 where
  pub page_size : ℕ
  pub page_number : ℕ
  pub search_text : String
  pub sort_name : String
  pub sort_order : String

-- The query of the request.
pub record Query : Type 0 where
  pub per_page : ℕ
  pub page : ℕ
  pub q : String
  pub sort : String
  pub order : String
  pub job_name : String
  pub start_time : String
  pub end_time : String
  pub ip : String
  pub is_success : String

unfoldable pub success_formatter : Option Bool → String
success_formatter (some true) =
    "<span class='label label-success' data-lang='execute-result-success'></span>"
success_formatter (some false) =
    "<span class='label label-danger' data-lang='execute-result-failure'></span>"
success_formatter none = "<span class='label label-danger' data-lang='execute-result-null'></span>"

abbrev pub max_length : ℕ
max_length = 50

abbrev pub replacement : List ℕ
replacement = codes "..."

-- `value.substring(0, maxLength - replacement.length) + replacement`
unfoldable pub detail : List ℕ → List ℕ
detail value = take (max_length - length replacement) value ++ replacement

unfoldable pub link_open : List ℕ
link_open =
    codes "<a href=\"javascript: void(0);\" style=\"color:#FF0000;\" onClick=\"showHistoryMessage('"

-- `null` stays `null`.
unfoldable pub split_formatter : Option (List ℕ) → Option (List ℕ)
unfolding detail link_open
split_formatter none = none
split_formatter (some value) =
    if ltb max_length (length value)
    then some (link_open ++ (escape value ++ (codes "')\">" ++ (detail value ++ codes "</a>"))))
    else some value

module _ (B : Browser) where
  open B use {World, exec, val}

  unfoldable pub query_params : Params → World → Query
  query_params params w = record {
    per_page = params.page_size;
    page = params.page_number;
    q = params.search_text;
    sort = if "success" === params.sort_name then "isSuccess" else params.sort_name;
    order = params.sort_order;
    job_name = val "#job-name" w;
    start_time = val "#start-time" w;
    end_time = val "#end-time" w;
    ip = val "#ip" w;
    is_success = val "input[name = \"isSuccess\"]:checked" w;
  }

  unfoldable pub refresh_on_enter : String → ℕ → World → World
  refresh_on_enter tbl key_code = if key_code == 13 then exec (refresh_silently tbl) else skip

  unfoldable pub ready : World → World
  ready = do
    exec (input_mask "[data-mask]")
    exec (bind ".toolbar input" "keypress" (Handler.refresh_on_enter "#job-exec-details-table"))
    exec (bind "#job-exec-details-table" "all.bs.table" Handler.relocate)
