-- ===== src/Rest.antt =====
-- The classes of elastic-job-lite-console/src/main/java/io/elasticjob/lite/console/restful, by their
-- annotations.
pub mod Url
pub mod JaxRs
pub mod Served
pub mod Addresses
pub mod Buttons
use elastic_job_lite.Prelude.{String, ◌&&◌, ◌===◌, if◌then◌else◌, Option, none, some, List, [], ◌∷◌}
use elastic_job_lite.Browser.Calls.{Method}
use elastic_job_lite.Rest.JaxRs.{Piece, lit, param, Route, Resource, Server}
use elastic_job_lite.Rest.Url.{split}

-- A method of the classes, with its path parameters.
pub data Action : Type 0 where
  -- JobOperationRestfulApi
  get_jobs_total_count get_all_jobs_brief_info : Action
  trigger_job disable_job enable_job shutdown_job get_sharding_info : String → Action
  disable_sharding enable_sharding : String → String → Action
  -- ServerOperationRestfulApi
  get_servers_total_count get_all_servers_brief_info : Action
  disable_server enable_server shutdown_server remove_server get_jobs : String → Action
  disable_server_job enable_server_job shutdown_server_job remove_server_job :
      String → String → Action
  -- LiteJobConfigRestfulApi
  get_job_settings remove_job : String → Action
  update_job_settings : Action
  -- RegistryCenterRestfulApi
  reg_center_activated reg_center_load reg_center_add reg_center_delete reg_center_connect : Action
  -- EventTraceDataSourceRestfulApi
  data_source_activated data_source_load data_source_add data_source_delete data_source_connect_test
        data_source_connect :
      Action
  -- EventTraceHistoryRestfulApi
  find_job_execution_events find_job_status_trace_events : Action

abbrev pub none_of : Action → List String → Option Action
none_of a [] = some a
none_of a (_ ∷ _) = none

abbrev pub one_of : (String → Action) → List String → Option Action
one_of f (s ∷ []) = some (f s)
one_of f _ = none

abbrev pub two_of : (String → String → Action) → List String → Option Action
two_of f (s ∷ t ∷ []) = some (f s t)
two_of f _ = none

abbrev route : Method → List Piece → (List String → Option Action) → Route Action
route m ps f = record { method = m; pieces = ps; call = f }

unfoldable pub job_operation_restful_api : Resource Action
job_operation_restful_api = record {
  pieces = lit "jobs" ∷ [];
  routes =
      route Method.get (lit "count" ∷ []) (none_of get_jobs_total_count)
      ∷ route Method.get [] (none_of get_all_jobs_brief_info)
      ∷ route Method.post (param ∷ lit "trigger" ∷ []) (one_of trigger_job)
      ∷ route Method.post (param ∷ lit "disable" ∷ []) (one_of disable_job)
      ∷ route Method.delete (param ∷ lit "disable" ∷ []) (one_of enable_job)
      ∷ route Method.post (param ∷ lit "shutdown" ∷ []) (one_of shutdown_job)
      ∷ route Method.get (param ∷ lit "sharding" ∷ []) (one_of get_sharding_info)
      ∷ route Method.post (param ∷ lit "sharding" ∷ param ∷ lit "disable" ∷ [])
          (two_of disable_sharding)
      ∷ route Method.delete (param ∷ lit "sharding" ∷ param ∷ lit "disable" ∷ [])
          (two_of enable_sharding)
      ∷ [];
}

unfoldable pub server_operation_restful_api : Resource Action
server_operation_restful_api = record {
  pieces = lit "servers" ∷ [];
  routes =
      route Method.get (lit "count" ∷ []) (none_of get_servers_total_count)
      ∷ route Method.get [] (none_of get_all_servers_brief_info)
      ∷ route Method.post (param ∷ lit "disable" ∷ []) (one_of disable_server)
      ∷ route Method.delete (param ∷ lit "disable" ∷ []) (one_of enable_server)
      ∷ route Method.post (param ∷ lit "shutdown" ∷ []) (one_of shutdown_server)
      ∷ route Method.delete (param ∷ []) (one_of remove_server)
      ∷ route Method.get (param ∷ lit "jobs" ∷ []) (one_of get_jobs)
      ∷ route Method.post (param ∷ lit "jobs" ∷ param ∷ lit "disable" ∷ [])
          (two_of disable_server_job)
      ∷ route Method.delete (param ∷ lit "jobs" ∷ param ∷ lit "disable" ∷ [])
          (two_of enable_server_job)
      ∷ route Method.post (param ∷ lit "jobs" ∷ param ∷ lit "shutdown" ∷ [])
          (two_of shutdown_server_job)
      ∷ route Method.delete (param ∷ lit "jobs" ∷ param ∷ []) (two_of remove_server_job)
      ∷ [];
}

unfoldable pub lite_job_config_restful_api : Resource Action
lite_job_config_restful_api = record {
  pieces = lit "jobs" ∷ lit "config" ∷ [];
  routes =
      route Method.get (param ∷ []) (one_of get_job_settings)
      ∷ route Method.put [] (none_of update_job_settings)
      ∷ route Method.delete (param ∷ []) (one_of remove_job)
      ∷ [];
}

unfoldable pub registry_center_restful_api : Resource Action
registry_center_restful_api = record {
  pieces = lit "registry-center" ∷ [];
  routes =
      route Method.get (lit "activated" ∷ []) (none_of reg_center_activated)
      ∷ route Method.get [] (none_of reg_center_load)
      ∷ route Method.post [] (none_of reg_center_add)
      ∷ route Method.delete [] (none_of reg_center_delete)
      ∷ route Method.post (lit "connect" ∷ []) (none_of reg_center_connect)
      ∷ [];
}

unfoldable pub event_trace_data_source_restful_api : Resource Action
event_trace_data_source_restful_api = record {
  pieces = lit "data-source" ∷ [];
  routes =
      route Method.get (lit "activated" ∷ []) (none_of data_source_activated)
      ∷ route Method.get [] (none_of data_source_load)
      ∷ route Method.post [] (none_of data_source_add)
      ∷ route Method.delete [] (none_of data_source_delete)
      ∷ route Method.post (lit "connectTest" ∷ []) (none_of data_source_connect_test)
      ∷ route Method.post (lit "connect" ∷ []) (none_of data_source_connect)
      ∷ [];
}

unfoldable pub event_trace_history_restful_api : Resource Action
event_trace_history_restful_api = record {
  pieces = lit "event-trace" ∷ [];
  routes =
      route Method.get (lit "execution" ∷ []) (none_of find_job_execution_events)
      ∷ route Method.get (lit "status" ∷ []) (none_of find_job_status_trace_events)
      ∷ [];
}

-- the classes that the server scans for
unfoldable pub resources : List (Resource Action)
unfolding job_operation_restful_api server_operation_restful_api lite_job_config_restful_api
    registry_center_restful_api event_trace_data_source_restful_api event_trace_history_restful_api
resources =
    job_operation_restful_api ∷ server_operation_restful_api ∷ lite_job_config_restful_api
    ∷ registry_center_restful_api ∷ event_trace_data_source_restful_api
    ∷ event_trace_history_restful_api ∷ []

-- The servlet stands at `/api/*`.
abbrev pub below_api : List String → Option (List String)
below_api (s ∷ t ∷ ss) = if s === "" && t === "api" then some ss else none
below_api _ = none

abbrev pub taken : Server Action → Method → List String → Option Action
unfolding resources
taken S m ss = elim (below_api ss) [ none ↦ none | some below ↦ S.dispatch resources m below ]

-- The method that a request of a script with an absolute path is given to.
unfoldable pub served : Server Action → Method → String → Option Action
unfolding resources
served S m url = taken S m (split (S.received url))
