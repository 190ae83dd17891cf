-- ===== src/Console/Requests/Unconfirmed.antt =====
-- The requests that need no confirmation, by method, url and body.
use elastic_job_lite.Prelude.{
  String, ◌≡◌, refl, true, false, Option, none, some, List, ◌<>◌, All, Bool-cases, inl, inr,
}
use elastic_job_lite.Browser.{Browser}
use elastic_job_lite.Browser.Closures.{Handler, JobConfig}
use elastic_job_lite.Browser.Calls.{Method, Request, validate}
use elastic_job_lite.Util.Idioms.{bodiless}
use elastic_job_lite.Util.Dashboard.{post_name}
use elastic_job_lite.Status.Config
use elastic_job_lite.Console.{Event}
use elastic_job_lite.Console.Bindings.{is_confirm}
use elastic_job_lite.Console.Requests.{
  put_settings, post_fields, confirmed, settings_sent, requests_of, reg_center_validated,
  data_source_validated,
}

-- The requests that need no confirmation. Where a name collides with a path of the server, as for a
-- job named `config`, the server may take one for another operation.
pub data IsUnconfirmed : Request → Type 0 where
  disable_server :
      (ip : String) → IsUnconfirmed (bodiless Method.post ("/api/servers/" <> ip <> "/disable"))
  enable_server :
      (ip : String) → IsUnconfirmed (bodiless Method.delete ("/api/servers/" <> ip <> "/disable"))
  disable_server_job :
      (ip j : String)
      → IsUnconfirmed (bodiless Method.post ("/api/servers/" <> ip <> "/jobs/" <> j <> "/disable"))
  enable_server_job :
      (ip j : String)
      → IsUnconfirmed
          (bodiless Method.delete ("/api/servers/" <> ip <> "/jobs/" <> j <> "/disable"))
  read_config : (j : String) → IsUnconfirmed (bodiless Method.get ("/api/jobs/config/" <> j))
  trigger_job :
      (j : String) → IsUnconfirmed (bodiless Method.post ("/api/jobs/" <> j <> "/trigger"))
  disable_job :
      (j : String) → IsUnconfirmed (bodiless Method.post ("/api/jobs/" <> j <> "/disable"))
  enable_job :
      (j : String) → IsUnconfirmed (bodiless Method.delete ("/api/jobs/" <> j <> "/disable"))
  disable_sharding :
      (j item : String)
      → IsUnconfirmed
          (bodiless Method.post ("/api/jobs/" <> j <> "/sharding/" <> item <> "/disable"))
  enable_sharding :
      (j item : String)
      → IsUnconfirmed
          (bodiless Method.delete ("/api/jobs/" <> j <> "/sharding/" <> item <> "/disable"))
  save_settings : (c : JobConfig) → IsUnconfirmed (put_settings c).0
  connect_reg_center :
      (name : String) → IsUnconfirmed (post_name "api/registry-center/connect" name)
  add_reg_center :
      (fs : List (String × String)) → IsUnconfirmed (post_fields "api/registry-center" fs)
  connect_data_source : (name : String) → IsUnconfirmed (post_name "api/data-source/connect" name)
  add_data_source : (fs : List (String × String)) → IsUnconfirmed (post_fields "api/data-source" fs)
  test_data_source :
      (fs : List (String × String)) → IsUnconfirmed (post_fields "api/data-source/connectTest" fs)

module _ (B : Browser) where
  settings_sent-IsUnconfirmed :
      (old : Option JobConfig) (new : JobConfig)
      → All (λ r. IsUnconfirmed r.0) (settings_sent B old new)
  settings_sent-IsUnconfirmed none new = tt
  settings_sent-IsUnconfirmed (some old) new = elim (Bool-cases (Config.needs_confirm old new)) [
    | inl ask ↦ rw ask tt
    | inr go ↦ rw go (save_settings new, tt)
  ]

  -- What a handler sends that waits for no confirmation is on the list of those requests.
  pub requests_of-IsUnconfirmed :
      (h : Handler) (e : Event) (w : B.World)
      → is_confirm h ≡ false
      → All (λ r. IsUnconfirmed r.0) (requests_of B h e w)
  requests_of-IsUnconfirmed Handler.switch_reg_center e w n = (connect_reg_center _, tt)
  requests_of-IsUnconfirmed Handler.switch_data_source e w n = (connect_data_source _, tt)
  requests_of-IsUnconfirmed Handler.disable_server e w n = (disable_server _, tt)
  requests_of-IsUnconfirmed Handler.enable_server e w n = (enable_server _, tt)
  requests_of-IsUnconfirmed Handler.disable_server_job e w n = (disable_server_job _ _, tt)
  requests_of-IsUnconfirmed Handler.enable_server_job e w n = (enable_server_job _ _, tt)
  requests_of-IsUnconfirmed Handler.modify_job e w n = (read_config _, tt)
  requests_of-IsUnconfirmed Handler.trigger_job e w n = (trigger_job _, tt)
  requests_of-IsUnconfirmed Handler.disable_job e w n = (disable_job _, tt)
  requests_of-IsUnconfirmed Handler.enable_job e w n = (enable_job _, tt)
  requests_of-IsUnconfirmed Handler.disable_sharding e w n = (disable_sharding _ _, tt)
  requests_of-IsUnconfirmed Handler.enable_sharding e w n = (enable_sharding _ _, tt)
  requests_of-IsUnconfirmed Handler.submit_settings e w n =
      let v = B.exec (validate "#job-config-form") w in
      elim (Bool-cases (B.is_valid "#job-config-form" v)) [
        | inl valid ↦
            rw valid
              (settings_sent-IsUnconfirmed (Config.get_job_params B v).0 (Config.post_json B v))
        | inr invalid ↦ rw invalid tt
      ]
  requests_of-IsUnconfirmed Handler.connect_reg_center e w n = (connect_reg_center _, tt)
  requests_of-IsUnconfirmed Handler.submit_reg_center e w n =
      elim (Bool-cases (B.is_valid "#reg-center-form" (reg_center_validated B w))) [
        | inl valid ↦ rw valid (add_reg_center _, tt)
        | inr invalid ↦ rw invalid tt
      ]
  requests_of-IsUnconfirmed Handler.connect_data_source e w n = (connect_data_source _, tt)
  requests_of-IsUnconfirmed Handler.submit_data_source e w n =
      elim (Bool-cases (B.is_valid "#data-source-form" (data_source_validated B w))) [
        | inl valid ↦ rw valid (add_data_source _, tt)
        | inr invalid ↦ rw invalid tt
      ]
  requests_of-IsUnconfirmed Handler.test_connection e w n = (test_data_source _, tt)
  requests_of-IsUnconfirmed (Handler.confirm_shutdown_server _) e w n = cc
  requests_of-IsUnconfirmed (Handler.confirm_remove_server _) e w n = cc
  requests_of-IsUnconfirmed (Handler.confirm_shutdown_server_job _ _) e w n = cc
  requests_of-IsUnconfirmed (Handler.confirm_remove_server_job _ _) e w n = cc
  requests_of-IsUnconfirmed (Handler.confirm_shutdown_job _) e w n = cc
  requests_of-IsUnconfirmed (Handler.confirm_remove_job _) e w n = cc
  requests_of-IsUnconfirmed (Handler.confirm_settings _) e w n = cc
  requests_of-IsUnconfirmed (Handler.confirm_delete_reg_center _) e w n = cc
  requests_of-IsUnconfirmed (Handler.confirm_delete_data_source _) e w n = cc
  requests_of-IsUnconfirmed _ e w n = tt

  -- What a handler sends that waits for the confirmation is the one request of its operation.
  pub requests_of-confirmed :
      (h : Handler) (e : Event) (w : B.World)
      → is_confirm h ≡ true
      → requests_of B h e w ≡ confirmed h
  requests_of-confirmed (Handler.confirm_shutdown_server _) e w y = refl
  requests_of-confirmed (Handler.confirm_remove_server _) e w y = refl
  requests_of-confirmed (Handler.confirm_shutdown_server_job _ _) e w y = refl
  requests_of-confirmed (Handler.confirm_remove_server_job _ _) e w y = refl
  requests_of-confirmed (Handler.confirm_shutdown_job _) e w y = refl
  requests_of-confirmed (Handler.confirm_remove_job _) e w y = refl
  requests_of-confirmed (Handler.confirm_settings _) e w y = refl
  requests_of-confirmed (Handler.confirm_delete_reg_center _) e w y = refl
  requests_of-confirmed (Handler.confirm_delete_data_source _) e w y = refl
  requests_of-confirmed _ e w y = cc
