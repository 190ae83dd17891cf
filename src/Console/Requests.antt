-- ===== src/Console/Requests.antt =====
-- The requests of every handler, written out by method, url and body: those that wait for a
-- confirmation, and what each handler sends in a given state. They are the
-- requests that the scripts send themselves and that do not block; the GETs by which a plugin loads a
-- table or jQuery a page are calls of their own.
pub mod Unconfirmed
pub mod Events
pub mod Answers
use elastic_job_lite.Prelude.{
  String, ◌≡◌, refl, Bool, true, false, Option, none, some, List, [], ◌∷◌, ◌<>◌, if◌then◌else◌, All,
  Bool-cases, inl, inr,
}
use elastic_job_lite.Browser.{Browser}
use elastic_job_lite.Browser.Closures.{Handler, Success, JobConfig}
use elastic_job_lite.Browser.Calls.{
  Method, Request, fields, job, button, prevent_default, validate, get_sync,
}
use elastic_job_lite.Util.Idioms.{bodiless}
use elastic_job_lite.Util.Dashboard.{post_name}
use elastic_job_lite.Status.Config
use elastic_job_lite.Global.RegCenter.{skip_empty}
use elastic_job_lite.Console.{Event}
use elastic_job_lite.Console.Bindings.{is_confirm}

abbrev pub Sent : Type 0
Sent = List (Request × Success)

abbrev delete_name : String → String → Request
delete_name url name = record {
  method = Method.delete;
  url = url;
  body = fields (("name", name) ∷ []);
}

abbrev pub put_settings : JobConfig → Request × Success
put_settings c =
    (record { method = Method.put; url = "/api/jobs/config"; body = job c }, Success.settings_saved)

-- The one request of an operation that was confirmed.
abbrev pub confirmed : Handler → Sent
confirmed (Handler.confirm_shutdown_server ip) =
    (bodiless Method.post ("/api/servers/" <> ip <> "/shutdown"), Success.server_shut) ∷ []
confirmed (Handler.confirm_remove_server ip) =
    (bodiless Method.delete ("/api/servers/" <> ip), Success.server_removed) ∷ []
confirmed (Handler.confirm_shutdown_server_job ip j) =
    (
      bodiless Method.post ("/api/servers/" <> ip <> "/jobs/" <> j <> "/shutdown"),
      Success.server_job_shut,
    )
    ∷ []
confirmed (Handler.confirm_remove_server_job ip j) =
    (bodiless Method.delete ("/api/servers/" <> ip <> "/jobs/" <> j), Success.server_job_removed)
    ∷ []
confirmed (Handler.confirm_shutdown_job j) =
    (bodiless Method.post ("/api/jobs/" <> j <> "/shutdown"), Success.job_shut) ∷ []
confirmed (Handler.confirm_remove_job j) =
    (bodiless Method.delete ("/api/jobs/config/" <> j), Success.job_removed) ∷ []
confirmed (Handler.confirm_settings c) = put_settings c ∷ []
confirmed (Handler.confirm_delete_reg_center name) =
    (delete_name "api/registry-center" name, Success.reg_center_deleted) ∷ []
confirmed (Handler.confirm_delete_data_source name) =
    (delete_name "api/data-source" name, Success.data_source_deleted) ∷ []
confirmed _ = []

abbrev pub post_fields : String → List (String × String) → Request
post_fields url fs = record { method = Method.post; url = url; body = fields fs }

module _ (B : Browser) where
  abbrev pub reg_center_fields : B.World → List (String × String)
  reg_center_fields w =
      ("name", B.val "#name" w)
      ∷ ("zkAddressList", B.val "#zk-address-list" w)
      ∷ ("namespace", B.val "#namespace" w)
      ∷ ("digest", B.val "#digest" w)
      ∷ []

  abbrev pub data_source_fields : B.World → List (String × String)
  data_source_fields w =
      ("name", B.val "#name" w)
      ∷ ("driver", B.val "#driver" w)
      ∷ ("url", B.val "#url" w)
      ∷ ("username", B.val "#username" w)
      ∷ ("password", B.val "#password" w)
      ∷ []

  -- the states in which the two forms of a new center have been validated
  abbrev pub reg_center_validated : B.World → B.World
  reg_center_validated w =
      B.exec (validate "#reg-center-form")
        (skip_empty B "#reg-center-form" "namespace" (skip_empty B "#reg-center-form" "digest" w))

  abbrev pub data_source_validated : B.World → B.World
  data_source_validated w =
      B.exec (validate "#data-source-form") (skip_empty B "#data-source-form" "password" w)

  -- the configuration of a form, against the one that the server has
  abbrev pub settings_sent : Option JobConfig → JobConfig → Sent
  settings_sent none new = []
  settings_sent (some old) new = if Config.needs_confirm old new then [] else put_settings new ∷ []

  -- What an event sends, in the state in which it fires: the request of its button, for the row and
  -- the page where the button stands; of a form that is valid, its texts; of an operation that was
  -- confirmed, its request; and otherwise nothing.
  abbrev pub requests_of : Handler → Event → B.World → Sent
  requests_of Handler.switch_reg_center e w =
      (
        post_name "api/registry-center/connect"
            (B.attr e.this "reg-name" (B.exec (button e.this "loading") w)),
        Success.switched_reg_center e.this,
      )
      ∷ []
  requests_of Handler.switch_data_source e w =
      (
        post_name "api/data-source/connect" (
            B.attr e.this "data-source-name"
              (B.exec (button e.this "loading") (B.exec (prevent_default e.this) w))),
        Success.switched_data_source e.this,
      )
      ∷ []
  requests_of Handler.disable_server e w =
      (
        bodiless Method.post ("/api/servers/" <> B.attr e.this "server-ip" w <> "/disable"),
        Success.server_changed,
      )
      ∷ []
  requests_of Handler.enable_server e w =
      (
        bodiless Method.delete ("/api/servers/" <> B.attr e.this "server-ip" w <> "/disable"),
        Success.server_changed,
      )
      ∷ []
  requests_of Handler.disable_server_job e w =
      (
        bodiless Method.post (
            "/api/servers/"
            <> B.text "#server-ip" w
            <> "/jobs/"
            <> B.attr e.this "job-name" w
            <> "/disable"),
        Success.server_job_changed,
      )
      ∷ []
  requests_of Handler.enable_server_job e w =
      (
        bodiless Method.delete (
            "/api/servers/"
            <> B.text "#server-ip" w
            <> "/jobs/"
            <> B.attr e.this "job-name" w
            <> "/disable"),
        Success.server_job_changed,
      )
      ∷ []
  requests_of Handler.modify_job e w =
      (
        bodiless Method.get ("/api/jobs/config/" <> B.attr e.this "job-name" w),
        Success.got_config (B.attr e.this "job-name" w),
      )
      ∷ []
  requests_of Handler.trigger_job e w =
      (
        bodiless Method.post ("/api/jobs/" <> B.attr e.this "job-name" w <> "/trigger"),
        Success.job_changed,
      )
      ∷ []
  requests_of Handler.disable_job e w =
      (
        bodiless Method.post ("/api/jobs/" <> B.attr e.this "job-name" w <> "/disable"),
        Success.job_changed,
      )
      ∷ []
  requests_of Handler.enable_job e w =
      (
        bodiless Method.delete ("/api/jobs/" <> B.attr e.this "job-name" w <> "/disable"),
        Success.job_changed,
      )
      ∷ []
  requests_of Handler.disable_sharding e w =
      (
        bodiless Method.post (
            "/api/jobs/"
            <> B.text "#index-job-name" w
            <> "/sharding/"
            <> B.attr e.this "item" w
            <> "/disable"),
        Success.sharding_changed,
      )
      ∷ []
  requests_of Handler.enable_sharding e w =
      (
        bodiless Method.delete (
            "/api/jobs/"
            <> B.text "#index-job-name" w
            <> "/sharding/"
            <> B.attr e.this "item" w
            <> "/disable"),
        Success.sharding_changed,
      )
      ∷ []
  requests_of Handler.submit_settings e w =
      let v = B.exec (validate "#job-config-form") w in
      if B.is_valid "#job-config-form" v
      then settings_sent (Config.get_job_params B v).0 (Config.post_json B v)
      else []
  requests_of Handler.connect_reg_center e w =
      (
        post_name "api/registry-center/connect"
            (B.attr e.this "regName" (B.exec (button e.this "loading") w)),
        Success.reg_center_connected e.this,
      )
      ∷ []
  requests_of Handler.submit_reg_center e w =
      let v = reg_center_validated w in
      if B.is_valid "#reg-center-form" v
      then (post_fields "api/registry-center" (reg_center_fields v), Success.reg_center_added) ∷ []
      else []
  requests_of Handler.connect_data_source e w =
      (
        post_name "api/data-source/connect"
            (B.attr e.this "dataSourceName" (B.exec (button e.this "loading") w)),
        Success.data_source_connected e.this,
      )
      ∷ []
  requests_of Handler.submit_data_source e w =
      let v = data_source_validated w in
      if B.is_valid "#data-source-form" v
      then (post_fields "api/data-source" (data_source_fields v), Success.data_source_added) ∷ []
      else []
  requests_of Handler.test_connection e w =
      (post_fields "api/data-source/connectTest" (data_source_fields w), Success.connection_tested)
      ∷ []
  requests_of h e w = confirmed h
