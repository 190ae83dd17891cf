-- ===== src/Rest/Served.antt =====
-- Which method of the classes takes the request of an operation of the console.
use elastic_job_lite.Prelude.{
  String, ◌≡◌, refl, ap, ◌∙◌, Bool, true, not, arith, some, List, [], ◌∷◌, ◌===◌, All,
}
use elastic_job_lite.Browser.Calls.{Method}
use elastic_job_lite.Rest.Url.{path, is_name, split, split-path}
use elastic_job_lite.Rest.JaxRs.{Server, answers}
use elastic_job_lite.Rest

route_found :
    (S : Server Rest.Action) (m : Method) (ss : List String) (a : Rest.Action)
    → All (λ s. is_name s ≡ true) ss
    → answers Rest.resources m ss ≡ a ∷ []
    → Rest.served S m (path ("api" ∷ ss)) ≡ some a
unfolding Rest.served
route_found S m ss a names e =
    ap (λ u. Rest.taken S m (split u)) (S.received-path ("api" ∷ ss) (refl, names))
    ∙ ap (Rest.taken S m) (split-path ("api" ∷ ss) (refl, names))
    ∙ S.dispatch-answers Rest.resources m ss a e

-- The addresses of the methods, as the scripts and the documents write them: the request method and
-- the path below `/api`.
abbrev pub method_of : Rest.Action → Method
method_of Rest.get_jobs_total_count = Method.get
method_of Rest.get_all_jobs_brief_info = Method.get
method_of (Rest.trigger_job _) = Method.post
method_of (Rest.disable_job _) = Method.post
method_of (Rest.enable_job _) = Method.delete
method_of (Rest.shutdown_job _) = Method.post
method_of (Rest.get_sharding_info _) = Method.get
method_of (Rest.disable_sharding _ _) = Method.post
method_of (Rest.enable_sharding _ _) = Method.delete
method_of Rest.get_servers_total_count = Method.get
method_of Rest.get_all_servers_brief_info = Method.get
method_of (Rest.disable_server _) = Method.post
method_of (Rest.enable_server _) = Method.delete
method_of (Rest.shutdown_server _) = Method.post
method_of (Rest.remove_server _) = Method.delete
method_of (Rest.get_jobs _) = Method.get
method_of (Rest.disable_server_job _ _) = Method.post
method_of (Rest.enable_server_job _ _) = Method.delete
method_of (Rest.shutdown_server_job _ _) = Method.post
method_of (Rest.remove_server_job _ _) = Method.delete
method_of (Rest.get_job_settings _) = Method.get
method_of (Rest.remove_job _) = Method.delete
method_of Rest.update_job_settings = Method.put
method_of Rest.reg_center_activated = Method.get
method_of Rest.reg_center_load = Method.get
method_of Rest.reg_center_add = Method.post
method_of Rest.reg_center_delete = Method.delete
method_of Rest.reg_center_connect = Method.post
method_of Rest.data_source_activated = Method.get
method_of Rest.data_source_load = Method.get
method_of Rest.data_source_add = Method.post
method_of Rest.data_source_delete = Method.delete
method_of Rest.data_source_connect_test = Method.post
method_of Rest.data_source_connect = Method.post
method_of Rest.find_job_execution_events = Method.get
method_of Rest.find_job_status_trace_events = Method.get

abbrev pub segments_of : Rest.Action → List String
segments_of Rest.get_jobs_total_count = "jobs" ∷ "count" ∷ []
segments_of Rest.get_all_jobs_brief_info = "jobs" ∷ []
segments_of (Rest.trigger_job j) = "jobs" ∷ j ∷ "trigger" ∷ []
segments_of (Rest.disable_job j) = "jobs" ∷ j ∷ "disable" ∷ []
segments_of (Rest.enable_job j) = "jobs" ∷ j ∷ "disable" ∷ []
segments_of (Rest.shutdown_job j) = "jobs" ∷ j ∷ "shutdown" ∷ []
segments_of (Rest.get_sharding_info j) = "jobs" ∷ j ∷ "sharding" ∷ []
segments_of (Rest.disable_sharding j i) = "jobs" ∷ j ∷ "sharding" ∷ i ∷ "disable" ∷ []
segments_of (Rest.enable_sharding j i) = "jobs" ∷ j ∷ "sharding" ∷ i ∷ "disable" ∷ []
segments_of Rest.get_servers_total_count = "servers" ∷ "count" ∷ []
segments_of Rest.get_all_servers_brief_info = "servers" ∷ []
segments_of (Rest.disable_server ip) = "servers" ∷ ip ∷ "disable" ∷ []
segments_of (Rest.enable_server ip) = "servers" ∷ ip ∷ "disable" ∷ []
segments_of (Rest.shutdown_server ip) = "servers" ∷ ip ∷ "shutdown" ∷ []
segments_of (Rest.remove_server ip) = "servers" ∷ ip ∷ []
segments_of (Rest.get_jobs ip) = "servers" ∷ ip ∷ "jobs" ∷ []
segments_of (Rest.disable_server_job ip j) = "servers" ∷ ip ∷ "jobs" ∷ j ∷ "disable" ∷ []
segments_of (Rest.enable_server_job ip j) = "servers" ∷ ip ∷ "jobs" ∷ j ∷ "disable" ∷ []
segments_of (Rest.shutdown_server_job ip j) = "servers" ∷ ip ∷ "jobs" ∷ j ∷ "shutdown" ∷ []
segments_of (Rest.remove_server_job ip j) = "servers" ∷ ip ∷ "jobs" ∷ j ∷ []
segments_of (Rest.get_job_settings j) = "jobs" ∷ "config" ∷ j ∷ []
segments_of (Rest.remove_job j) = "jobs" ∷ "config" ∷ j ∷ []
segments_of Rest.update_job_settings = "jobs" ∷ "config" ∷ []
segments_of Rest.reg_center_activated = "registry-center" ∷ "activated" ∷ []
segments_of Rest.reg_center_load = "registry-center" ∷ []
segments_of Rest.reg_center_add = "registry-center" ∷ []
segments_of Rest.reg_center_delete = "registry-center" ∷ []
segments_of Rest.reg_center_connect = "registry-center" ∷ "connect" ∷ []
segments_of Rest.data_source_activated = "data-source" ∷ "activated" ∷ []
segments_of Rest.data_source_load = "data-source" ∷ []
segments_of Rest.data_source_add = "data-source" ∷ []
segments_of Rest.data_source_delete = "data-source" ∷ []
segments_of Rest.data_source_connect_test = "data-source" ∷ "connectTest" ∷ []
segments_of Rest.data_source_connect = "data-source" ∷ "connect" ∷ []
segments_of Rest.find_job_execution_events = "event-trace" ∷ "execution" ∷ []
segments_of Rest.find_job_status_trace_events = "event-trace" ∷ "status" ∷ []

-- The path of a job of the name `config` begins as those of the configurations do, and the path that
-- removes a server of the name `count` is the one of the number of servers.
abbrev pub is_apart : Rest.Action → Bool
is_apart (Rest.trigger_job j) = not ("config" === j)
is_apart (Rest.disable_job j) = not ("config" === j)
is_apart (Rest.enable_job j) = not ("config" === j)
is_apart (Rest.shutdown_job j) = not ("config" === j)
is_apart (Rest.get_sharding_info j) = not ("config" === j)
is_apart (Rest.disable_sharding j _) = not ("config" === j)
is_apart (Rest.enable_sharding j _) = not ("config" === j)
is_apart (Rest.remove_server ip) = not ("count" === ip)
is_apart _ = true

target-answers :
    (a : Rest.Action)
    → All (λ s. is_name s ≡ true) (segments_of a)
    → is_apart a ≡ true
    → answers Rest.resources (method_of a) (segments_of a) ≡ a ∷ []
unfolding Rest.resources Rest.job_operation_restful_api Rest.server_operation_restful_api
    Rest.lite_job_config_restful_api Rest.registry_center_restful_api
    Rest.event_trace_data_source_restful_api Rest.event_trace_history_restful_api
target-answers Rest.get_jobs_total_count h g = refl
target-answers Rest.get_all_jobs_brief_info h g = refl
target-answers (Rest.trigger_job j) (_, (hj, (_, _))) g = ground arith
target-answers (Rest.disable_job j) (_, (hj, (_, _))) g = ground arith
target-answers (Rest.enable_job j) (_, (hj, (_, _))) g = ground arith
target-answers (Rest.shutdown_job j) (_, (hj, (_, _))) g = ground arith
target-answers (Rest.get_sharding_info j) (_, (hj, (_, _))) g = ground arith
target-answers (Rest.disable_sharding j i) (_, (hj, (_, (hi, (_, _))))) g = ground arith
target-answers (Rest.enable_sharding j i) (_, (hj, (_, (hi, (_, _))))) g = ground arith
target-answers Rest.get_servers_total_count h g = refl
target-answers Rest.get_all_servers_brief_info h g = refl
target-answers (Rest.disable_server ip) (_, (hip, (_, _))) g = ground arith
target-answers (Rest.enable_server ip) (_, (hip, (_, _))) g = ground arith
target-answers (Rest.shutdown_server ip) (_, (hip, (_, _))) g = ground arith
target-answers (Rest.remove_server ip) (_, (hip, _)) g = ground arith
target-answers (Rest.get_jobs ip) (_, (hip, (_, _))) g = ground arith
target-answers (Rest.disable_server_job ip j) (_, (hip, (_, (hj, (_, _))))) g = ground arith
target-answers (Rest.enable_server_job ip j) (_, (hip, (_, (hj, (_, _))))) g = ground arith
target-answers (Rest.shutdown_server_job ip j) (_, (hip, (_, (hj, (_, _))))) g = ground arith
target-answers (Rest.remove_server_job ip j) (_, (hip, (_, (hj, _)))) g = ground arith
target-answers (Rest.get_job_settings j) (_, (_, (hj, _))) g = ground arith
target-answers (Rest.remove_job j) (_, (_, (hj, _))) g = ground arith
target-answers Rest.update_job_settings h g = refl
target-answers Rest.reg_center_activated h g = refl
target-answers Rest.reg_center_load h g = refl
target-answers Rest.reg_center_add h g = refl
target-answers Rest.reg_center_delete h g = refl
target-answers Rest.reg_center_connect h g = refl
target-answers Rest.data_source_activated h g = refl
target-answers Rest.data_source_load h g = refl
target-answers Rest.data_source_add h g = refl
target-answers Rest.data_source_delete h g = refl
target-answers Rest.data_source_connect_test h g = refl
target-answers Rest.data_source_connect h g = refl
target-answers Rest.find_job_execution_events h g = refl
target-answers Rest.find_job_status_trace_events h g = refl

-- The address of a method, as a script with an absolute path writes it.
abbrev pub url_of : Rest.Action → String
url_of a = path ("api" ∷ segments_of a)

-- Every method is reached at its address. The names in the address are of unreserved characters, no job
-- is named `config` and no server that is removed is named `count`.
pub served-url_of :
    (S : Server Rest.Action) (a : Rest.Action)
    → All (λ s. is_name s ≡ true) (segments_of a)
    → is_apart a ≡ true
    → Rest.served S (method_of a) (url_of a) ≡ some a
served-url_of S a names apart =
    route_found S (method_of a) (segments_of a) a names (target-answers a names apart)
