-- ===== src/Tests.antt =====
-- Runs at concrete inputs, over a small browser that keeps the calls.
pub mod Pages
pub mod Texts
pub mod Sharding
pub mod Scheduler
pub mod Centers
pub mod Rest
pub mod Facade
use elastic_job_lite.Prelude.{
  Option, ℕ, String, ◌≡◌, ◌≢◌, refl, ◌↔◌, ◌⊎◌, inl, Bool, true, false, none, some, List, [], ◌∷◌,
  ◌++◌, ◌===◌, arith, codes, each, if◌then◌else◌,
}
use mathlib.Core.List.{Perm}
use mathlib.Core.List.Perm
use elastic_job_lite.Browser.{Browser}
use elastic_job_lite.Browser.Simple.{Answers, Past, simple, simple_form}
use elastic_job_lite.Browser.Form.{taken}
use elastic_job_lite.Status.Jobs.{render_job}
use elastic_job_lite.Console.Filled.{job_calls, post_json-render_job, submit_valid-render_job}
use elastic_job_lite.Console.Links.{Answered, each-answer-links}
use elastic_job_lite.Browser.Closures.{Handler, Success, Center, JobConfig}
use elastic_job_lite.Browser.Calls.{Request, add_class, remove_class, i18n_properties}
use elastic_job_lite.Browser.Requests.{requests}
use elastic_job_lite.Util.Idioms.{plain_operation}
use elastic_job_lite.Util.Common.{lang_en, lang_zh}
use elastic_job_lite.Util.Common.Language.{lang-calls}
use elastic_job_lite.Util.Dashboard.{
  activated_name, is_connected, change_skin, got_reg_centers_tag, get_from,
}
use elastic_job_lite.Util.Dashboard.Tags.{deliver, count_requests, got_reg_centers_tag_lem}
use elastic_job_lite.Util.Dashboard.Look.{last_activated, is_connected_iff, change_skin-has_class}
use elastic_job_lite.Status.Config
use elastic_job_lite.Global.RegCenter.{name_is_new}
use elastic_job_lite.Global.RegCenter.Names.{name_is_new_iff}
use elastic_job_lite.Console.{Event, Page, run, answer, load_script}
use elastic_job_lite.Console.Bindings.{is_confirm, OpensAt, run-OpensAtMost}
use elastic_job_lite.Console.Answers.{answer-KeepsRebound}
use elastic_job_lite.Browser.Requests.{requests}
use elastic_job_lite.Console.Requests.{Sent, confirmed, requests_of}
use elastic_job_lite.Console.Requests.Events.{run-requests}
use elastic_job_lite.Console.Requests.Answers.{
  requests_after, requests_on, answer_and_load_script-requests,
}
use elastic_job_lite.Console.Steps.{click, Step, Reach, IsSafe, Reach-IsSafe}
use elastic_job_lite.Console.Confirmed.{confirm-requests}
use elastic_job_lite.Console.Asked.{SameFlags, ask_then_confirm, submit_against-requests}

abbrev pub two_centers : List Center
two_centers =
    record { name = "test"; activated = false } ∷ record { name = "prod"; activated = true } ∷ []

abbrev pub answers_with : Option JobConfig → Answers
answers_with c = record {
  val = λ s. "";
  checked = λ s. false;
  attr = λ s n. if "server-ip" === n then "10.0.0.1" else "job_a";
  elements = λ s. [];
  count = λ s. 0;
  prop = λ k. k;
  language = some (codes "zh-CN");
  is_valid = true;
  activated = some true;
  centers = some two_centers;
  config = c;
}

abbrev pub browser : Browser
browser = simple (answers_with none)

abbrev pub no_calls : Past
no_calls = []

abbrev pub on_button : Event
on_button = record { this = "#clicked"; key_code = 0; picked = "" }

abbrev servers_page : Past
servers_page = load_script browser Page.servers no_calls

abbrev remove_button : String
remove_button = plain_operation "remove-server"

abbrev asking : Past
asking = click browser remove_button on_button servers_page

no_calls-IsSafe : IsSafe browser no_calls
no_calls-IsSafe = record { tidy = λ s q. omega arith; waits = inl refl; plain = λ s q n. tt }

asking-Reach : Reach browser no_calls asking
asking-Reach =
    Reach.next (Reach.next Reach.here (Step.loads Page.servers no_calls))
      (Step.clicks remove_button on_button servers_page)

Reach-IsSafe_example : IsSafe browser asking
Reach-IsSafe_example = Reach-IsSafe browser asking-Reach no_calls-IsSafe

confirm-requests_example :
    (click browser "#confirm-btn" on_button asking ≡ asking)
    ⊎ ((h : Handler) × (is_confirm h ≡ true)
        × (click browser "#confirm-btn" on_button asking ≡ run browser h on_button asking)
        × (requests (browser.calls (click browser "#confirm-btn" on_button asking))
            ≡ requests (browser.calls asking) ++ confirmed h))
confirm-requests_example = confirm-requests browser on_button no_calls-IsSafe asking-Reach

ask_then_confirm_example :
    (requests (browser.calls (run browser Handler.remove_server on_button servers_page))
      ≡ requests (browser.calls servers_page))
    × (requests (
          browser.calls (
            click browser "#confirm-btn" on_button
              (run browser Handler.remove_server on_button servers_page)))
        ≡ requests (browser.calls servers_page)
          ++ confirmed (Handler.confirm_remove_server "10.0.0.1"))
ask_then_confirm_example =
    ask_then_confirm browser Handler.remove_server (Handler.confirm_remove_server "10.0.0.1")
      on_button on_button servers_page refl

run-OpensAtMost_example :
    OpensAt browser servers_page (run browser Handler.remove_server on_button servers_page)
run-OpensAtMost_example = run-OpensAtMost browser Handler.remove_server on_button servers_page

run-requests_example :
    requests (browser.calls (run browser Handler.disable_server on_button servers_page))
    ≡ requests (browser.calls servers_page)
      ++ requests_of browser Handler.disable_server on_button servers_page
run-requests_example = run-requests browser Handler.disable_server on_button servers_page

answer_and_load_script-requests_example :
    (requests (browser.calls (answer browser Success.got_reg_centers_tag two_centers no_calls))
      ≡ requests (browser.calls no_calls) ++ requests_after Success.got_reg_centers_tag two_centers)
    × (requests (browser.calls (load_script browser Page.jobs no_calls))
        ≡ requests (browser.calls no_calls) ++ requests_on Page.jobs)
answer_and_load_script-requests_example =
    answer_and_load_script-requests browser Success.got_reg_centers_tag two_centers Page.jobs
      no_calls
