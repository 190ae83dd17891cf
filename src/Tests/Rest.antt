-- ===== src/Tests/Rest.antt =====
-- The REST server and the operations at concrete inputs, over a server that gives a request to the first
-- method that takes it, and a registry center in memory.
use elastic_job_lite.Prelude.{
  String, ◌≡◌, refl, ap, true, false, Option, none, some, List, [], ◌∷◌, ◌++◌, ◌===◌, if◌then◌else◌,
  numeral_text,
}
use mathlib.Core.Option
use elastic_job_lite.Browser.{Browser}
use elastic_job_lite.Browser.Simple.{simple}
use elastic_job_lite.Browser.Closures.{Handler, Success}
use elastic_job_lite.Browser.Calls.{Method, Request}
use elastic_job_lite.Browser.Requests.{requests}
use elastic_job_lite.Console.{run}
use elastic_job_lite.Registry.{Node, word, num, same_node, Registry}
use elastic_job_lite.Registry.Memory.{memory}
use elastic_job_lite.Registry.Below.{below}
use elastic_job_lite.Rest.JaxRs.{Server, answers}
use elastic_job_lite.Rest
use elastic_job_lite.Rest.Served.{served-url_of}
use elastic_job_lite.Rest.Buttons.{served-run}
use elastic_job_lite.Rest.Buttons
use elastic_job_lite.Sharding.Service.{is_enable_server, get_available_job_instances}
use elastic_job_lite.Sharding.Service.Available.{still}
use elastic_job_lite.Sharding.Items.{get_disabled_items}
use elastic_job_lite.Operations.{
  returned, first_part, perform, segment_of, disable_or_enable_jobs, disable_or_enable_sharding,
  shutdown,
}
use elastic_job_lite.Operations.Servers.{names_server}
use elastic_job_lite.Operations.Instances.{names_instance, HasPart, distinct, shutdown-look}
use elastic_job_lite.Sharding.Service.Run.{contains}
use elastic_job_lite.Operations.Seen.{
  of_server, is_enable_server-disable_or_enable_jobs, get_available_job_instances-run,
}
use elastic_job_lite.Operations.Misrouted.{enable_job-config}
use elastic_job_lite.Operations
use elastic_job_lite.Statistics.Jobs.{get_job_status}
use elastic_job_lite.Statistics.Shown.{
  is_disabled, is_crashed, get_job_status-disable_or_enable_jobs,
}
use elastic_job_lite.Statistics.Items.{get_status}
use elastic_job_lite.Statistics.Items.Disabled
use elastic_job_lite.Statistics.Items.Disabled.{
  keep, item_node, get_disabled_items-disable_or_enable_sharding,
}
use elastic_job_lite.Tests.{browser, on_button, no_calls, two_centers}

abbrev first : List Rest.Action → Option Rest.Action
first [] = none
first (a ∷ _) = some a

abbrev server : Server Rest.Action
server = record {
  received = λ url. url;
  dispatch = λ rs m ss. first (answers rs m ss);
  received-path = λ ss h. refl;
  dispatch-answers = λ rs m ss a e. ap first e;
}

served-url_of_example :
    Rest.served server Method.post "/api/servers/10.0.0.1/jobs/job_a/disable"
    ≡ some (Rest.disable_server_job "10.0.0.1" "job_a")
served-url_of_example =
    served-url_of server (Rest.disable_server_job "10.0.0.1" "job_a")
      (refl, (refl, (refl, (refl, (refl, tt))))) refl

served-run_example :
    (r : Request) × ((k : Success) × (requests
          (browser.calls (run browser Handler.disable_server on_button no_calls))
        ≡ requests (browser.calls no_calls) ++ (r, k) ∷ []))
    × (Rest.served server r.method r.url ≡ some (Rest.disable_server "10.0.0.1"))
served-run_example =
    served-run browser server Handler.disable_server on_button no_calls
      (Rest.disable_server "10.0.0.1") (Buttons.disable_server on_button no_calls)
      (refl, (refl, (refl, tt))) refl

-- two instances of one job, on two servers
abbrev names : Node → List String
names n =
    if same_node n []
    then "job_a" ∷ []
    else if same_node n (word "job_a" ∷ word "servers" ∷ [])
    then "10.0.0.1" ∷ "10.0.0.2" ∷ []
    else if same_node n (word "job_a" ∷ word "instances" ∷ [])
    then "10.0.0.1@-@7" ∷ "10.0.0.2@-@8" ∷ []
    else []

abbrev center : Registry
center = memory names

-- every node is there
abbrev start : center.World
start = λ n. some ""

is_enable_server-disable_or_enable_jobs_example :
    (w' : center.World) × (disable_or_enable_jobs center none (some "10.0.0.1") true start
      ≡ returned w')
    × ((j i : String)
        → is_enable_server (below j center) i w' ≡ (
            if names_server center none (some "10.0.0.1") start j i
            then false
            else is_enable_server (below j center) i start))
is_enable_server-disable_or_enable_jobs_example =
    is_enable_server-disable_or_enable_jobs center none (some "10.0.0.1") true start tt

part_one : HasPart "10.0.0.1@-@7"
unfolding first_part
part_one = ("10.0.0.1", refl)

part_two : HasPart "10.0.0.2@-@8"
unfolding first_part
part_two = ("10.0.0.2", refl)

names_differ : distinct ("job_a" ∷ []) ≡ true
unfolding contains
names_differ = refl

shutdown-look_example :
    (w' : center.World) × (shutdown center none (some "10.0.0.1") start ≡ returned w')
    × ((m : Node)
        → center.look m w'
          ≡ (if names_instance center none (some "10.0.0.1") start m then none else some ""))
shutdown-look_example =
    shutdown-look center none (some "10.0.0.1") start
      (((part_one, (part_two, tt)), tt), names_differ)

get_available_job_instances-run_example :
    (r : Request) × ((k : Success) × (requests
          (browser.calls (run browser Handler.disable_server on_button no_calls))
        ≡ requests (browser.calls no_calls) ++ (r, k) ∷ []))
    × (Rest.served server r.method r.url ≡ some (Rest.disable_server "10.0.0.1"))
    × ((w' : center.World) × (perform center (Rest.disable_server "10.0.0.1") start
          ≡ some (returned w'))
        × ((j : String)
            → get_available_job_instances (below j center) w'
              ≡ Option.map
                  (still (names_server center none (some "10.0.0.1") start j))
                  (get_available_job_instances (below j center) start)))
get_available_job_instances-run_example =
    get_available_job_instances-run browser server center Handler.disable_server on_button no_calls
      start (Rest.disable_server "10.0.0.1") none (some "10.0.0.1")
      (Buttons.disable_server on_button no_calls) (of_server "10.0.0.1") (refl, (refl, (refl, tt)))
      refl

-- a page whose rows are all of a job `config`
abbrev config_rows : Browser
config_rows = simple (record {
  val = λ s. "";
  checked = λ s. false;
  attr = λ s n. "config";
  elements = λ s. [];
  count = λ s. 0;
  prop = λ k. k;
  language = none;
  is_valid = true;
  activated = some true;
  centers = some two_centers;
  config = none;
})

enable_job-config_example :
    (r : Request) × ((k : Success) × (requests
          (config_rows.calls (run config_rows Handler.enable_job on_button no_calls))
        ≡ requests (config_rows.calls no_calls) ++ (r, k) ∷ []))
    × (Rest.served server r.method r.url ≡ some (Rest.remove_job "disable"))
    × ((w' : center.World) × (perform center (Rest.remove_job "disable") start ≡ some (returned w'))
        × ((j : String) (n : Node)
            → center.look (word j ∷ n) w' ≡ (if "disable" === j then none else some "")))
enable_job-config_example =
    enable_job-config config_rows server center on_button no_calls start refl

get_job_status-disable_or_enable_jobs_example :
    (w' : center.World) × (disable_or_enable_jobs center (some "job_a") none true start
      ≡ returned w')
    × (is_disabled (get_job_status center "job_a" w') ≡ true)
    × (is_crashed (get_job_status center "job_a" w') ≡ false)
get_job_status-disable_or_enable_jobs_example =
    get_job_status-disable_or_enable_jobs center "job_a" "10.0.0.1" ("10.0.0.2" ∷ []) true start
      refl (("", refl), (("", refl), tt))

item_three : segment_of "3" ≡ num 3
unfolding numeral_text
item_three = refl

get_disabled_items-disable_or_enable_sharding_example :
    (get_disabled_items
        (below "job_a" center)
        (2 ∷ 3 ∷ [])
        (disable_or_enable_sharding center "job_a" "3" false start)
      ≡ 2 ∷ [])
    × (Disabled.is_disabled (
          get_status center "job_a" "3" (disable_or_enable_sharding center "job_a" "3" false start))
        ≡ false)
unfolding Operations.is_existed
get_disabled_items-disable_or_enable_sharding_example =
    get_disabled_items-disable_or_enable_sharding center "job_a" "3" 3 false start "job_a" "3" 3
      (2 ∷ 3 ∷ []) item_three item_three
