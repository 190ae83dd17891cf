-- ===== src/Status/Config.antt =====
-- status/job/job_config.js: the form that edits the configuration of a job.
pub mod Port
use elastic_job_lite.Prelude.{
  ℕ, ◌+◌, ◌-◌, ◌*◌, String, Bool, true, false, ◌||◌, ◌&&◌, Option, none, some, List, [], ◌∷◌, ◌<>◌,
  codes, if◌then◌else◌, ◌>>=◌, ◌>>◌, skip, each, leb, ◌==◌,
}
use mathlib.Core.Bool.{xor}
use elastic_job_lite.Browser.{Browser}
use elastic_job_lite.Browser.Closures.{Handler, Success, JobConfig}
use elastic_job_lite.Browser.Calls.{
  Method, job, not_empty, max_length, is_integer, port_in_range, bind, modal, modal_hide, refresh,
  ajax, get_sync, set_attr, fix_title, validator, validate, reset_validator, update_status,
}
use elastic_job_lite.Util.Idioms.{rebind_confirm}
use elastic_job_lite.Util.Common.{show_success_dialog, show_update_confirm_modal}

unfoldable pub is_digit : ℕ → Bool
is_digit c = leb b'0' c && leb c b'9'

unfoldable pub all_digits : List ℕ → Bool
all_digits [] = true
all_digits (c ∷ s) = is_digit c && all_digits s

-- `/^(-?\d+)?$/` on the code units of the value
unfoldable pub matches_integer : List ℕ → Bool
unfolding all_digits
matches_integer [] = true
matches_integer (c ∷ []) = is_digit c
matches_integer (c ∷ d ∷ s) = (is_digit c || c == b'-') && all_digits (d ∷ s)

-- What `parseInt` gives: a number with its sign, or `NaN`.
pub data Parsed : Type 0 where
  nan : Parsed
  int : Bool → ℕ → Parsed

-- the digits that stand at the front, behind those read so far
unfoldable pub read_digits : Bool → Option ℕ → List ℕ → Parsed
read_digits negative none [] = nan
read_digits negative (some n) [] = int negative n
read_digits negative none (c ∷ s) =
    let more = read_digits negative (some (c - b'0')) s in if is_digit c then more else nan
read_digits negative (some n) (c ∷ s) =
    let more = read_digits negative (some (n * 10 + (c - b'0'))) s in
    if is_digit c then more else int negative n

-- the white space of ASCII, and the no-break space
unfoldable pub is_space : ℕ → Bool
is_space c = (leb 9 c && leb c 13) || c == b' ' || c == 160

-- `parseInt(value, 10)`, over exact integers
unfoldable pub parse_int : List ℕ → Parsed
unfolding read_digits
parse_int [] = nan
parse_int (c ∷ s) =
    let later = parse_int s in
    if is_space c
    then later
    else if c == b'-'
    then read_digits true none s
    else if c == b'+'
    then read_digits false none s
    else read_digits false none (c ∷ s)

-- `monitorPort <= 65535`; false for `NaN`
unfoldable pub at_most_65535 : Parsed → Bool
at_most_65535 nan = false
at_most_65535 (int true n) = true
at_most_65535 (int false n) = leb n 65535

unfoldable pub port_accepted : List ℕ → Bool
unfolding parse_int at_most_65535
port_accepted value = at_most_65535 (parse_int value)

-- `jobParams.monitorExecution !== monitorExecution || …`
unfoldable pub needs_confirm : JobConfig → JobConfig → Bool
needs_confirm old new =
    xor old.monitor_execution new.monitor_execution
    || xor old.failover new.failover
    || xor old.misfire new.misfire

module _ (B : Browser) where
  open B use {World, exec, text, val, checked, attr, elements, prop, is_valid, get_config}

  -- the body of the loop, for an element with a tooltip
  unfoldable pub tooltip_locale : String → World → World
  tooltip_locale object = do
    id ← attr object "id"
    title ← prop ("placeholder-" <> id)
    exec (set_attr object "title" (some title))
    exec (fix_title object)

  unfoldable pub tooltip_locales : World → World
  unfolding tooltip_locale
  tooltip_locales = do objects ← elements "[data-toggle='tooltip']"; each tooltip_locale objects

  -- the answer, none if the request fails, and the state behind the request
  unfoldable pub get_job_params : World → Option JobConfig × World
  get_job_params w =
      let url = "/api/jobs/config/" <> text "#job-overviews-name" w in
      let v = exec (get_sync url) w in (get_config url v, v)

  -- `postJson`, read from the form.
  unfoldable pub post_json : World → JobConfig
  post_json w = record {
    job_name = some (val "#job-name" w);
    job_type = some (val "#job-type" w);
    job_class = some (val "#job-class" w);
    sharding_total_count = val "#sharding-total-count" w;
    cron = some (val "#cron" w);
    sharding_item_parameters = some (val "#sharding-item-parameters" w);
    job_parameter = some (val "#job-parameter" w);
    monitor_execution = checked "#monitor-execution" w;
    failover = checked "#failover" w;
    misfire = checked "#misfire" w;
    streaming_process = checked "#streaming-process" w;
    max_time_diff_seconds = val "#max-time-diff-seconds" w;
    monitor_port = val "#monitor-port" w;
    job_sharding_strategy_class = some (val "#job-sharding-strategy-class" w);
    executor_service_handler = some (val "#executor-service-handler" w);
    job_exception_handler = some (val "#job-exception-handler" w);
    reconcile_interval_minutes = val "#reconcile-interval-minutes" w;
    description = some (val "#description" w);
    script_command_line = some (val "#script-command-line" w);
  }

  unfoldable pub submit_ajax : JobConfig → World → World
  submit_ajax json = exec (
      ajax (record { method = Method.put; url = "/api/jobs/config"; body = job json })
        Success.settings_saved)

  unfoldable pub settings_saved : World → World
  settings_saved = do
    exec (modal "#data-update-job" modal_hide)
    exec (refresh "#jobs-status-overview-tbl")
    show_success_dialog B

  unfoldable pub bind_submit_job_settings_form : World → World
  bind_submit_job_settings_form = exec (bind "#update-job-info-btn" "click" Handler.submit_settings)

  -- the end of the handler; without the old parameters it stops with a `TypeError`
  unfoldable pub submit_against : Option JobConfig → JobConfig → World → World
  unfolding submit_ajax
  submit_against none new = skip
  submit_against (some old) new =
      if needs_confirm old new
      then show_update_confirm_modal B >> rebind_confirm B (Handler.confirm_settings new)
      else submit_ajax new

  unfoldable pub submit_valid : World → World
  unfolding submit_against get_job_params
  submit_valid w =
      let json = post_json w in
      let params = get_job_params w in submit_against params.0 json params.1

  -- the click
  unfoldable pub submit_settings : World → World
  unfolding submit_valid
  submit_settings = do
    exec (validate "#job-config-form")
    valid ← is_valid "#job-config-form"
    if valid then submit_valid else skip

  unfoldable pub confirm_settings : JobConfig → World → World
  unfolding submit_ajax
  confirm_settings json = do exec (modal "#confirm-dialog" modal_hide); submit_ajax json

  unfoldable pub validate_form : World → World
  validate_form = do
    exec (
        validator "#job-config-form" (
          ("shardingTotalCount", not_empty ∷ is_integer ∷ [])
          ∷ ("cron", max_length 40 ∷ not_empty ∷ [])
          ∷ ("monitorPort", is_integer ∷ not_empty ∷ port_in_range ∷ [])
          ∷ []))
    exec (bind "#job-config-form" "submit" Handler.prevent_default)

  -- the callback of the rule `port_in_range`: its effect, and its answer is `port_accepted`
  unfoldable pub check_monitor_port : World → World
  unfolding port_accepted
  check_monitor_port = do
    value ← val "[name='monitorPort']"
    if port_accepted (codes value)
        then exec (update_status "#job-config-form" "monitorPort" "VALID")
        else skip

  unfoldable pub bind_reset_form : World → World
  bind_reset_form = exec (bind "#reset" "click" Handler.reset_settings)

  unfoldable pub reset_settings : World → World
  reset_settings = exec (reset_validator "#job-config-form")

  unfoldable pub ready : World → World
  unfolding validate_form bind_submit_job_settings_form bind_reset_form
  ready = do tooltip_locales; validate_form; bind_submit_job_settings_form; bind_reset_form
