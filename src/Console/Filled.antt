-- ===== src/Console/Filled.antt =====
-- The form of a job that is filled from its configuration and read again.
use elastic_job_lite.Prelude.{
  String, ◌≡◌, refl, inl, inr, ◌∙◌, Bool, true, false, ◌||◌, some, List, [], ◌∷◌, ◌++◌, ◌===◌,
  if◌then◌else◌, All, each, skip, append-nil, ◌<>◌,
}
use elastic_job_lite.Browser.{Browser}
use elastic_job_lite.Browser.Form.{
  Form, fills, taken, is_area, is_input, is_box, each-exec-val, each-exec-checked,
  each-exec-IsFresh, val_in, checked_in,
}
use elastic_job_lite.Browser.Closures.{JobConfig, text_or_empty}
use elastic_job_lite.Browser.Calls.{Call, set_attr, set_text, set_checked, show}
use elastic_job_lite.Browser.Requests.{requests, reads, exec-requests, exec-reads}
use elastic_job_lite.Status.Jobs
use elastic_job_lite.Status.Config
use elastic_job_lite.Console.{Event}
use elastic_job_lite.Console.Requests.{put_settings}
use elastic_job_lite.Console.Asked.{SameFlags, needs_confirm_iff, submit_against-requests}

-- The configuration that a form with the same texts sends: it has no null.
abbrev pub without_nulls : JobConfig → JobConfig
without_nulls c = record c {
  job_name = some (text_or_empty c.job_name);
  job_type = some (text_or_empty c.job_type);
  job_class = some (text_or_empty c.job_class);
  cron = some (text_or_empty c.cron);
  sharding_item_parameters = some (text_or_empty c.sharding_item_parameters);
  job_parameter = some (text_or_empty c.job_parameter);
  job_sharding_strategy_class = some (text_or_empty c.job_sharding_strategy_class);
  executor_service_handler = some (text_or_empty c.executor_service_handler);
  job_exception_handler = some (text_or_empty c.job_exception_handler);
  description = some (text_or_empty c.description);
  script_command_line = some (text_or_empty c.script_command_line);
}

-- The calls that fill the form.
abbrev pub job_calls : JobConfig → List Call
job_calls c =
    set_attr "#job-name" "value" c.job_name
    ∷ set_attr "#job-type" "value" c.job_type
    ∷ set_attr "#job-class" "value" c.job_class
    ∷ set_attr "#sharding-total-count" "value" (some c.sharding_total_count)
    ∷ set_attr "#cron" "value" c.cron
    ∷ set_text "#sharding-item-parameters" (text_or_empty c.sharding_item_parameters)
    ∷ set_attr "#job-parameter" "value" c.job_parameter
    ∷ set_checked "#monitor-execution" c.monitor_execution
    ∷ set_checked "#failover" c.failover
    ∷ set_checked "#misfire" c.misfire
    ∷ set_checked "#streaming-process" c.streaming_process
    ∷ set_attr "#max-time-diff-seconds" "value" (some c.max_time_diff_seconds)
    ∷ set_attr "#monitor-port" "value" (some c.monitor_port)
    ∷ set_attr "#job-sharding-strategy-class" "value" c.job_sharding_strategy_class
    ∷ set_attr "#executor-service-handler" "value" c.executor_service_handler
    ∷ set_attr "#job-exception-handler" "value" c.job_exception_handler
    ∷ set_attr "#reconcile-interval-minutes" "value" (some c.reconcile_interval_minutes)
    ∷ set_text "#description" (text_or_empty c.description)
    ∷ set_attr "#script-command-line" "value" c.script_command_line
    ∷ []

job_calls-fills : (c : JobConfig) → All (λ k. fills k ≡ true) (job_calls c)
job_calls-fills c = (
  refl,
  (
    refl,
    (
      refl,
      (
        refl,
        (
          refl,
          (
            refl,
            (
              refl,
              (
                refl,
                (
                  refl,
                  (
                    refl,
                    (refl, (refl, (refl, (refl, (refl, (refl, (refl, (refl, (refl, tt))))))))),
                  ),
                ),
              ),
            ),
          ),
        ),
      ),
    ),
  ),
)

module _ (B : Browser) (F : Form B) where
  abbrev when_shown : Bool → String → B.World → B.World
  when_shown b g = if b then B.exec (show g) else skip

  when_shown-same :
      (b : Bool) (g : String) (w : B.World)
      → F.IsFresh w
      → F.IsFresh (when_shown b g w)
        × ((s : String) → (is_input s || is_area s) ≡ true → B.val s (when_shown b g w) ≡ B.val s w)
        × ((s : String) → is_box s ≡ true → B.checked s (when_shown b g w) ≡ B.checked s w)
  when_shown-same true g w h = (
    F.exec-IsFresh (show g) w refl h,
    λ s q. F.val-exec (show g) w s h refl q refl,
    λ s q. F.checked-exec (show g) w s h refl q,
  )
  when_shown-same false g w h = (h, λ s q. refl, λ s q. refl)

  module _ (c : JobConfig) (w : B.World) (fresh : F.IsFresh w)
      (h : All (λ k. taken F.takes k ≡ true) (job_calls c)) where
    abbrev filled : B.World
    filled = each B.exec (job_calls c) w

    filled-IsFresh : F.IsFresh filled
    filled-IsFresh = each-exec-IsFresh F (job_calls c) w fresh (job_calls-fills c)

    render_job-val :
        (s : String)
        → (is_input s || is_area s) ≡ true
        → B.val s (Jobs.render_job B c w) ≡ val_in F (job_calls c) s (B.val s w)
    unfolding Jobs.render_job
    render_job-val s q =
        let one =
          when_shown-same ("DATAFLOW" === B.val "#job-type" filled) "#streaming-process-group"
            filled filled-IsFresh in
        let v =
          when_shown ("DATAFLOW" === B.val "#job-type" filled) "#streaming-process-group" filled in
        let two =
          when_shown-same ("SCRIPT" === B.val "#job-type" v) "#script-commandLine-group" v one.0 in
        two.1 s q ∙ one.1 s q ∙ each-exec-val F (job_calls c) w s fresh (job_calls-fills c) h q

    render_job-checked :
        (s : String)
        → is_box s ≡ true
        → B.checked s (Jobs.render_job B c w) ≡ checked_in F (job_calls c) s (B.checked s w)
    unfolding Jobs.render_job
    render_job-checked s q =
        let one =
          when_shown-same ("DATAFLOW" === B.val "#job-type" filled) "#streaming-process-group"
            filled filled-IsFresh in
        let v =
          when_shown ("DATAFLOW" === B.val "#job-type" filled) "#streaming-process-group" filled in
        let two =
          when_shown-same ("SCRIPT" === B.val "#job-type" v) "#script-commandLine-group" v one.0 in
        two.2 s q ∙ one.2 s q ∙ each-exec-checked F (job_calls c) w s fresh (job_calls-fills c) q

    -- A fresh form that is filled from the configuration of a job, each field of which takes its text
    -- as it is, and is then read to be submitted, gives the same configuration, except that each null
    -- among its texts has become the empty text.
    pub post_json-render_job : Config.post_json B (Jobs.render_job B c w) ≡ without_nulls c
    unfolding Config.post_json
    post_json-render_job i = record {
      job_name = some (render_job-val "#job-name" refl i);
      job_type = some (render_job-val "#job-type" refl i);
      job_class = some (render_job-val "#job-class" refl i);
      sharding_total_count = render_job-val "#sharding-total-count" refl i;
      cron = some (render_job-val "#cron" refl i);
      sharding_item_parameters = some (render_job-val "#sharding-item-parameters" refl i);
      job_parameter = some (render_job-val "#job-parameter" refl i);
      monitor_execution = render_job-checked "#monitor-execution" refl i;
      failover = render_job-checked "#failover" refl i;
      misfire = render_job-checked "#misfire" refl i;
      streaming_process = render_job-checked "#streaming-process" refl i;
      max_time_diff_seconds = render_job-val "#max-time-diff-seconds" refl i;
      monitor_port = render_job-val "#monitor-port" refl i;
      job_sharding_strategy_class = some (render_job-val "#job-sharding-strategy-class" refl i);
      executor_service_handler = some (render_job-val "#executor-service-handler" refl i);
      job_exception_handler = some (render_job-val "#job-exception-handler" refl i);
      reconcile_interval_minutes = render_job-val "#reconcile-interval-minutes" refl i;
      description = some (render_job-val "#description" refl i);
      script_command_line = some (render_job-val "#script-command-line" refl i);
    }

    submit_same-reads :
        (old new : JobConfig) (v : B.World)
        → SameFlags B old new
        → reads (B.calls (Config.submit_against B (some old) new v)) ≡ reads (B.calls v)
    unfolding Config.submit_against Config.submit_ajax reads
    submit_same-reads old new v same =
        rw ((needs_confirm_iff B old new).1 same) (simp (exec-reads B, append-nil))

    -- If such a form is submitted as it was filled, and the answer that the server then gives for the
    -- job has the three flags that the configuration has, one request reads that answer, by a GET for
    -- the job whose name the page shows, and one puts the configuration back, with the empty text for
    -- each null. No other request is sent.
    pub submit_valid-render_job :
        (old : JobConfig)
        → (Config.get_job_params B (Jobs.render_job B c w)).0 ≡ some old
        → SameFlags B old c
        → let v = Jobs.render_job B c w in
          (requests (B.calls (Config.submit_valid B v))
            ≡ requests (B.calls v) ++ put_settings (without_nulls c) ∷ [])
          × (reads (B.calls (Config.submit_valid B v))
              ≡ reads (B.calls v) ++ ("/api/jobs/config/" <> B.text "#job-overviews-name" v) ∷ [])
    unfolding Config.submit_valid Config.get_job_params requests reads
    submit_valid-render_job old got same =
        let v = Jobs.render_job B c w in
        let u = (Config.get_job_params B v).1 in
        rw (post_json-render_job, got)
          (
            elim (submit_against-requests B old (without_nulls c) nobody u) [
              | inl (_, sent) ↦ sent ∙ simp (exec-requests B, append-nil)
              | inr (differs, _, _) ↦ absurd (differs same)
            ],
            submit_same-reads old (without_nulls c) u same ∙ exec-reads B _ v,
          )
      where
        nobody : Event
        nobody = record { this = ""; key_code = 0; picked = "" }
