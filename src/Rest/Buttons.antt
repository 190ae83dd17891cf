-- ===== src/Rest/Buttons.antt =====
-- What the operations of the console ask the REST server for.
use elastic_job_lite.Prelude.{String, ◌≡◌, ap, sym, ◌∙◌, true, some, [], ◌∷◌, ◌++◌, ◌<>◌, All}
use elastic_job_lite.Browser.{Browser}
use elastic_job_lite.Browser.Closures.{Handler, Success}
use elastic_job_lite.Browser.Calls.{Request, ajax}
use elastic_job_lite.Browser.Requests.{requests, exec-requests}
use elastic_job_lite.Console.{Event, run}
use elastic_job_lite.Util.Idioms
use elastic_job_lite.Util.Idioms.{bodiless}
use elastic_job_lite.Status.Servers
use elastic_job_lite.Status.Server
use elastic_job_lite.Status.Jobs
use elastic_job_lite.Status.Job
use elastic_job_lite.Rest.Url.{is_name, append_nil}
use elastic_job_lite.Rest.JaxRs.{Server}
use elastic_job_lite.Rest
use elastic_job_lite.Rest.Served.{method_of, segments_of, is_apart, url_of, served-url_of}
use elastic_job_lite.Rest.Addresses.{job_url, removal_url, sharding_url, server_url, server_job_url}

abbrev pub request_of : Rest.Action → Request
request_of a = bodiless (method_of a) (url_of a)

module _ (B : Browser) where
  -- Which method an event means: the button that was pressed and what it is for, or the operation
  -- that was confirmed.
  pub data Means : Handler → Event → B.World → Rest.Action → Type 0 where
    trigger_job :
        (e : Event) (w : B.World)
        → Means Handler.trigger_job e w (Rest.trigger_job (B.attr e.this "job-name" w))
    disable_job :
        (e : Event) (w : B.World)
        → Means Handler.disable_job e w (Rest.disable_job (B.attr e.this "job-name" w))
    enable_job :
        (e : Event) (w : B.World)
        → Means Handler.enable_job e w (Rest.enable_job (B.attr e.this "job-name" w))
    confirm_shutdown_job :
        (j : String) (e : Event) (w : B.World)
        → Means (Handler.confirm_shutdown_job j) e w (Rest.shutdown_job j)
    confirm_remove_job :
        (j : String) (e : Event) (w : B.World)
        → Means (Handler.confirm_remove_job j) e w (Rest.remove_job j)
    disable_sharding :
        (e : Event) (w : B.World)
        → Means Handler.disable_sharding e w
            (Rest.disable_sharding (B.text "#index-job-name" w) (B.attr e.this "item" w))
    enable_sharding :
        (e : Event) (w : B.World)
        → Means Handler.enable_sharding e w
            (Rest.enable_sharding (B.text "#index-job-name" w) (B.attr e.this "item" w))
    disable_server :
        (e : Event) (w : B.World)
        → Means Handler.disable_server e w (Rest.disable_server (B.attr e.this "server-ip" w))
    enable_server :
        (e : Event) (w : B.World)
        → Means Handler.enable_server e w (Rest.enable_server (B.attr e.this "server-ip" w))
    confirm_shutdown_server :
        (ip : String) (e : Event) (w : B.World)
        → Means (Handler.confirm_shutdown_server ip) e w (Rest.shutdown_server ip)
    confirm_remove_server :
        (ip : String) (e : Event) (w : B.World)
        → Means (Handler.confirm_remove_server ip) e w (Rest.remove_server ip)
    disable_server_job :
        (e : Event) (w : B.World)
        → Means Handler.disable_server_job e w
            (Rest.disable_server_job (B.text "#server-ip" w) (B.attr e.this "job-name" w))
    enable_server_job :
        (e : Event) (w : B.World)
        → Means Handler.enable_server_job e w
            (Rest.enable_server_job (B.text "#server-ip" w) (B.attr e.this "job-name" w))
    confirm_shutdown_server_job :
        (ip j : String) (e : Event) (w : B.World)
        → Means (Handler.confirm_shutdown_server_job ip j) e w (Rest.shutdown_server_job ip j)
    confirm_remove_server_job :
        (ip j : String) (e : Event) (w : B.World)
        → Means (Handler.confirm_remove_server_job ip j) e w (Rest.remove_server_job ip j)

  send_asks :
      (a : Rest.Action) (url : String) (k : Success) (w : B.World)
      → url_of a ≡ url
      → requests (B.calls (B.exec (ajax (bodiless (method_of a) url) k) w))
        ≡ requests (B.calls w) ++ (request_of a, k) ∷ []
  unfolding requests
  send_asks a url k w same =
      exec-requests B (ajax (bodiless (method_of a) url) k) w
      ∙ ap (λ t. requests (B.calls w) ++ (bodiless (method_of a) t, k) ∷ []) (sym same)

  pub run-Means :
      (h : Handler) (e : Event) (w : B.World) (a : Rest.Action)
      → Means h e w a
      → (k : Success) × (requests (B.calls (run B h e w))
          ≡ requests (B.calls w) ++ (request_of a, k) ∷ [])
  unfolding run Jobs.trigger_job Jobs.disable_job Jobs.enable_job Jobs.confirm_shutdown_job
      Jobs.confirm_remove_job Job.disable_sharding Job.enable_sharding Servers.disable_server
      Servers.enable_server Servers.confirm_shutdown_server Servers.confirm_remove_server
      Server.disable_server_job Server.enable_server_job Server.confirm_shutdown_server_job
      Server.confirm_remove_server_job Idioms.send
  run-Means _ _ _ _ (trigger_job e w) = (
    Success.job_changed,
    send_asks (Rest.trigger_job (B.attr e.this "job-name" w)) _ _ w
        (job_url (B.attr e.this "job-name" w) "trigger"),
  )
  run-Means _ _ _ _ (disable_job e w) = (
    Success.job_changed,
    send_asks (Rest.disable_job (B.attr e.this "job-name" w)) _ _ w
        (job_url (B.attr e.this "job-name" w) "disable"),
  )
  run-Means _ _ _ _ (enable_job e w) = (
    Success.job_changed,
    send_asks (Rest.enable_job (B.attr e.this "job-name" w)) _ _ w
        (job_url (B.attr e.this "job-name" w) "disable"),
  )
  run-Means _ _ _ _ (confirm_shutdown_job j e w) =
      (Success.job_shut, send_asks (Rest.shutdown_job j) _ _ w (job_url j "shutdown"))
  run-Means _ _ _ _ (confirm_remove_job j e w) =
      (Success.job_removed, send_asks (Rest.remove_job j) _ _ w (removal_url j))
  run-Means _ _ _ _ (disable_sharding e w) = (
    Success.sharding_changed,
    send_asks (Rest.disable_sharding (B.text "#index-job-name" w) (B.attr e.this "item" w)) _ _ w
        (sharding_url (B.text "#index-job-name" w) (B.attr e.this "item" w) "disable"),
  )
  run-Means _ _ _ _ (enable_sharding e w) = (
    Success.sharding_changed,
    send_asks (Rest.enable_sharding (B.text "#index-job-name" w) (B.attr e.this "item" w)) _ _ w
        (sharding_url (B.text "#index-job-name" w) (B.attr e.this "item" w) "disable"),
  )
  run-Means _ _ _ _ (disable_server e w) = (
    Success.server_changed,
    send_asks (Rest.disable_server (B.attr e.this "server-ip" w)) _ _ w
        (server_url (B.attr e.this "server-ip" w) ("disable" ∷ [])),
  )
  run-Means _ _ _ _ (enable_server e w) = (
    Success.server_changed,
    send_asks (Rest.enable_server (B.attr e.this "server-ip" w)) _ _ w
        (server_url (B.attr e.this "server-ip" w) ("disable" ∷ [])),
  )
  run-Means _ _ _ _ (confirm_shutdown_server ip e w) = (
    Success.server_shut,
    send_asks (Rest.shutdown_server ip) _ _ w (server_url ip ("shutdown" ∷ [])),
  )
  run-Means _ _ _ _ (confirm_remove_server ip e w) = (
    Success.server_removed,
    send_asks (Rest.remove_server ip) _ _ w
        (server_url ip [] ∙ ap (λ t. "/api/servers/" <> t) (append_nil ip)),
  )
  run-Means _ _ _ _ (disable_server_job e w) = (
    Success.server_job_changed,
    send_asks (Rest.disable_server_job (B.text "#server-ip" w) (B.attr e.this "job-name" w)) _ _ w
        (server_job_url (B.text "#server-ip" w) (B.attr e.this "job-name" w) ("disable" ∷ [])),
  )
  run-Means _ _ _ _ (enable_server_job e w) = (
    Success.server_job_changed,
    send_asks (Rest.enable_server_job (B.text "#server-ip" w) (B.attr e.this "job-name" w)) _ _ w
        (server_job_url (B.text "#server-ip" w) (B.attr e.this "job-name" w) ("disable" ∷ [])),
  )
  run-Means _ _ _ _ (confirm_shutdown_server_job ip j e w) = (
    Success.server_job_shut,
    send_asks (Rest.shutdown_server_job ip j) _ _ w (server_job_url ip j ("shutdown" ∷ [])),
  )
  run-Means _ _ _ _ (confirm_remove_server_job ip j e w) = (
    Success.server_job_removed,
    send_asks (Rest.remove_server_job ip j) _ _ w
        (server_job_url ip j [] ∙ ap (λ t. "/api/servers/" <> ip <> "/jobs/" <> t) (append_nil j)),
  )

  -- An operation on names of unreserved characters sends one request, and the server gives it to the
  -- method that the operation means. No job is named `config` and no server that is removed `count`.
  pub served-run :
      (S : Server Rest.Action) (h : Handler) (e : Event) (w : B.World) (a : Rest.Action)
      → Means h e w a
      → All (λ s. is_name s ≡ true) (segments_of a)
      → is_apart a ≡ true
      → (r : Request) × ((k : Success) × (requests (B.calls (run B h e w))
            ≡ requests (B.calls w) ++ (r, k) ∷ []))
        × (Rest.served S r.method r.url ≡ some a)
  served-run S h e w a means names apart =
      (request_of a, run-Means h e w a means, served-url_of S a names apart)
