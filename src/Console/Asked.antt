-- ===== src/Console/Asked.antt =====
-- What is confirmed is what was asked for.
use elastic_job_lite.Prelude.{
  ◌≡◌, refl, ◌∙◌, ◌↔◌, ◌⊎◌, inl, inr, true, false, Option, none, some, [], ◌∷◌, ◌++◌, append-nil,
  arith, Bool-cases, sym,
}
use mathlib.Core.Bool.{xor, true≢false}
use elastic_job_lite.Browser.{Browser}
use elastic_job_lite.Browser.Closures.{Handler, JobConfig}
use elastic_job_lite.Browser.Requests.{requests, exec-requests}
use elastic_job_lite.Util.Idioms
use elastic_job_lite.Util.Idioms.Bindings.{rebind_confirm-handlers}
use elastic_job_lite.Util.Common
use elastic_job_lite.Status.Servers
use elastic_job_lite.Status.Server
use elastic_job_lite.Status.Jobs
use elastic_job_lite.Status.Config
use elastic_job_lite.Global.RegCenter
use elastic_job_lite.Global.DataSource
use elastic_job_lite.Console.{Event, run}
use elastic_job_lite.Console.Requests.{requests_of, confirmed, put_settings}
use elastic_job_lite.Console.Requests.Unconfirmed.{requests_of-confirmed}
use elastic_job_lite.Console.Requests.Events.{run-requests}
use elastic_job_lite.Console.Bindings.{is_confirm}
use elastic_job_lite.Console.Steps.{click}

module _ (B : Browser) where
  -- The operation that a button asks to confirm, for the row and the page where it stands.
  abbrev pub asked : Handler → Event → B.World → Option Handler
  asked Handler.shutdown_server e w = some (
      Handler.confirm_shutdown_server
        (B.attr e.this "server-ip" (Common.show_shutdown_confirm_modal B w)))
  asked Handler.remove_server e w = some (
      Handler.confirm_remove_server
        (B.attr e.this "server-ip" (Common.show_delete_confirm_modal B w)))
  asked Handler.shutdown_server_job e w =
      let v = Common.show_shutdown_confirm_modal B w in
      some
        (Handler.confirm_shutdown_server_job (B.text "#server-ip" v) (B.attr e.this "job-name" v))
  asked Handler.remove_server_job e w =
      let v = Common.show_delete_confirm_modal B w in
      some (Handler.confirm_remove_server_job (B.text "#server-ip" v) (B.attr e.this "job-name" v))
  asked Handler.shutdown_job e w = some (
      Handler.confirm_shutdown_job
        (B.attr e.this "job-name" (Common.show_shutdown_confirm_modal B w)))
  asked Handler.remove_job e w = some (Handler.confirm_remove_job (B.attr e.this "job-name" w))
  asked Handler.delete_reg_center e w = some (
      Handler.confirm_delete_reg_center
        (B.attr e.this "regName" (Common.show_delete_confirm_modal B w)))
  asked Handler.delete_data_source e w = some (
      Handler.confirm_delete_data_source
        (B.attr e.this "dataSourceName" (Common.show_delete_confirm_modal B w)))
  asked _ e w = none

  abbrev Waiting : Option Handler → B.World → Type 0
  Waiting none w = Unit
  Waiting (some o) w = B.handlers "#confirm-btn" w ≡ o ∷ []

  run-Waiting : (h : Handler) (e : Event) (w : B.World) → Waiting (asked h e w) (run B h e w)
  unfolding run Servers.shutdown_server Servers.remove_server Server.shutdown_server_job
      Server.remove_server_job Jobs.shutdown_job Jobs.remove_job RegCenter.delete_reg_center
      DataSource.delete_data_source
  run-Waiting Handler.shutdown_server e w = rebind_confirm-handlers B _ _ _
  run-Waiting Handler.remove_server e w = rebind_confirm-handlers B _ _ _
  run-Waiting Handler.shutdown_server_job e w = rebind_confirm-handlers B _ _ _
  run-Waiting Handler.remove_server_job e w = rebind_confirm-handlers B _ _ _
  run-Waiting Handler.shutdown_job e w = rebind_confirm-handlers B _ _ _
  run-Waiting Handler.remove_job e w = rebind_confirm-handlers B _ _ _
  run-Waiting Handler.delete_reg_center e w = rebind_confirm-handlers B _ _ _
  run-Waiting Handler.delete_data_source e w = rebind_confirm-handlers B _ _ _
  run-Waiting _ e w = tt

  -- a button that asks sends nothing
  requests_of-asked :
      (h o : Handler) (e : Event) (w : B.World) → asked h e w ≡ some o → requests_of B h e w ≡ []
  requests_of-asked Handler.shutdown_server o e w a = refl
  requests_of-asked Handler.remove_server o e w a = refl
  requests_of-asked Handler.shutdown_server_job o e w a = refl
  requests_of-asked Handler.remove_server_job o e w a = refl
  requests_of-asked Handler.shutdown_job o e w a = refl
  requests_of-asked Handler.remove_job o e w a = refl
  requests_of-asked Handler.delete_reg_center o e w a = refl
  requests_of-asked Handler.delete_data_source o e w a = refl
  requests_of-asked _ o e w a = cc

  -- what is asked for waits for the confirmation
  asked-is_confirm :
      (h o : Handler) (e : Event) (w : B.World) → asked h e w ≡ some o → is_confirm o ≡ true
  asked-is_confirm Handler.shutdown_server o e w a = cc
  asked-is_confirm Handler.remove_server o e w a = cc
  asked-is_confirm Handler.shutdown_server_job o e w a = cc
  asked-is_confirm Handler.remove_server_job o e w a = cc
  asked-is_confirm Handler.shutdown_job o e w a = cc
  asked-is_confirm Handler.remove_job o e w a = cc
  asked-is_confirm Handler.delete_reg_center o e w a = cc
  asked-is_confirm Handler.delete_data_source o e w a = cc
  asked-is_confirm _ o e w a = cc

  -- A click on a button that shuts down or removes something sends no request at all; a click on the
  -- confirm button then sends the one request for the row that was clicked, and no other.
  pub ask_then_confirm :
      (h o : Handler) (e e' : Event) (w : B.World)
      → asked h e w ≡ some o
      → (requests (B.calls (run B h e w)) ≡ requests (B.calls w))
        × (requests (B.calls (click B "#confirm-btn" e' (run B h e w)))
            ≡ requests (B.calls w) ++ confirmed o)
  unfolding click
  ask_then_confirm h o e e' w a =
      let silent : requests (B.calls (run B h e w)) ≡ requests (B.calls w) =
        run-requests B h e w ∙ rw (requests_of-asked h o e w a) (append-nil _) in
      let waits : B.handlers "#confirm-btn" (run B h e w) ≡ o ∷ [] = rw a at (run-Waiting h e w) in
      let sends = run-requests B o e' (run B h e w) in
      let table = requests_of-confirmed B o e' (run B h e w) (asked-is_confirm h o e w a) in
      (silent, rw (waits, sends, silent, table))

  abbrev pub SameFlags : JobConfig → JobConfig → Type 0
  SameFlags old new =
      (old.monitor_execution ≡ new.monitor_execution)
      × (old.failover ≡ new.failover)
      × (old.misfire ≡ new.misfire)

  pub needs_confirm_iff :
      (old new : JobConfig) → (Config.needs_confirm old new ≡ false) ↔ SameFlags old new
  unfolding Config.needs_confirm xor
  needs_confirm_iff old new = ground arith

  submit_ajax-requests :
      (c : JobConfig) (w : B.World)
      → requests (B.calls (Config.submit_ajax B c w)) ≡ requests (B.calls w) ++ put_settings c ∷ []
  unfolding Config.submit_ajax requests
  submit_ajax-requests c w = exec-requests B _ w

  confirm_settings-requests :
      (c : JobConfig) (w : B.World)
      → requests (B.calls (Config.confirm_settings B c w))
        ≡ requests (B.calls w) ++ put_settings c ∷ []
  unfolding Config.confirm_settings requests
  confirm_settings-requests c w = simp (exec-requests B, append-nil)

  submit_same :
      (old new : JobConfig) (w : B.World)
      → Config.needs_confirm old new ≡ false
      → requests (B.calls (Config.submit_against B (some old) new w))
        ≡ requests (B.calls w) ++ put_settings new ∷ []
  unfolding Config.submit_against
  submit_same old new w n = rw (n, submit_ajax-requests new w)

  submit_changed :
      (old new : JobConfig) (w : B.World)
      → Config.needs_confirm old new ≡ true
      → Config.submit_against B (some old) new w
        ≡ Idioms.rebind_confirm B
            (Handler.confirm_settings new)
            (Common.show_update_confirm_modal B w)
  unfolding Config.submit_against
  submit_changed old new w n = rw n

  confirm_shown-requests :
      (h : Handler) (w : B.World)
      → requests (B.calls (Idioms.rebind_confirm B h (Common.show_update_confirm_modal B w)))
        ≡ requests (B.calls w)
  unfolding Idioms.rebind_confirm Idioms.rebind Common.show_update_confirm_modal requests
  confirm_shown-requests h w = simp (exec-requests B, append-nil)

  click_settings :
      (c : JobConfig) (e : Event) (w : B.World)
      → let v =
          Idioms.rebind_confirm B
            (Handler.confirm_settings c)
            (Common.show_update_confirm_modal B w) in
        requests (B.calls (click B "#confirm-btn" e v))
        ≡ requests (B.calls w) ++ put_settings c ∷ []
  unfolding click run
  click_settings c e w =
      let v =
        Idioms.rebind_confirm B (Handler.confirm_settings c)
          (Common.show_update_confirm_modal B w) in
      rw (
        rebind_confirm-handlers B (Handler.confirm_settings c)
            (Common.show_update_confirm_modal B w) "#confirm-btn",
        confirm_settings-requests c v,
        confirm_shown-requests (Handler.confirm_settings c) w,
      )

  -- A form that changes none of the three flags is sent at once. One that changes a flag is not sent,
  -- and a click on the confirm button then sends it, as it was when it was submitted.
  pub submit_against-requests :
      (old new : JobConfig) (e : Event) (w : B.World)
      → let v = Config.submit_against B (some old) new w in
        (SameFlags old new × (requests (B.calls v) ≡ requests (B.calls w) ++ put_settings new ∷ []))
        ⊎ (¬ SameFlags old new
            × (requests (B.calls v) ≡ requests (B.calls w))
            × (requests (B.calls (click B "#confirm-btn" e v))
                ≡ requests (B.calls w) ++ put_settings new ∷ []))
  submit_against-requests old new e w = elim (Bool-cases (Config.needs_confirm old new)) [
    | inl y ↦ inr (
      λ same. true≢false (sym y ∙ (needs_confirm_iff old new).1 same),
      rw (submit_changed old new w y, confirm_shown-requests (Handler.confirm_settings new) w),
      rw (submit_changed old new w y, click_settings new e w),
    )
    | inr n ↦ inl ((needs_confirm_iff old new).0 n, submit_same old new w n)
  ]
