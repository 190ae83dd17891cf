-- ===== src/Operations/Misrouted.antt =====
-- The two classes whose paths begin with `jobs`, and a job that is named as the second one's path goes on.
use elastic_job_lite.Prelude.{
  String, ◌≡◌, refl, ap, ◌∙◌, none, some, [], ◌∷◌, ◌++◌, ◌===◌, if◌then◌else◌, arith,
}
use elastic_job_lite.Browser.{Browser}
use elastic_job_lite.Browser.Closures.{Handler, Success}
use elastic_job_lite.Browser.Calls.{Request}
use elastic_job_lite.Browser.Requests.{requests}
use elastic_job_lite.Console.{Event, run}
use elastic_job_lite.Registry.{Node, word, Registry}
use elastic_job_lite.Rest.JaxRs.{Server}
use elastic_job_lite.Rest
use elastic_job_lite.Rest.Served.{served-url_of}
use elastic_job_lite.Rest.Buttons.{enable_job, request_of, run-Means}
use elastic_job_lite.Operations.{returned, perform}

module _ (R : Registry) where
  open R use {World, look}

  -- the removal of a job's settings takes the whole job along, and no other job
  look-remove_job :
      (job : String) (w : World)
      → (w' : World) × (perform R (Rest.remove_job job) w ≡ some (returned w'))
        × ((j : String) (n : Node)
            → look (word j ∷ n) w' ≡ (if job === j then none else look (word j ∷ n) w))
  unfolding perform
  look-remove_job job w = (
    R.remove (word job ∷ []) w,
    refl,
    λ j n. R.look-remove (word job ∷ []) (word j ∷ n) w ∙ ground arith,
  )

-- The button that enables a job of the name `config` sends a request that is given to the method that
-- removes the settings of a job `disable`: that job is gone from the registry center, and the other
-- jobs, `config` among them, are as they were.
pub enable_job-config :
    (B : Browser) (S : Server Rest.Action) (R : Registry) (e : Event) (v : B.World) (w : R.World)
    → B.attr e.this "job-name" v ≡ "config"
    → (r : Request) × ((k : Success) × (requests (B.calls (run B Handler.enable_job e v))
          ≡ requests (B.calls v) ++ (r, k) ∷ []))
      × (Rest.served S r.method r.url ≡ some (Rest.remove_job "disable"))
      × ((w' : R.World) × (perform R (Rest.remove_job "disable") w ≡ some (returned w'))
          × ((j : String) (n : Node)
              → R.look (word j ∷ n) w' ≡ (if "disable" === j then none else R.look (word j ∷ n) w)))
enable_job-config B S R e v w named =
    let (k, sent) =
      run-Means B Handler.enable_job e v (Rest.enable_job (B.attr e.this "job-name" v))
        (enable_job e v) in
    (
      request_of (Rest.enable_job "config"),
      (k, sent ∙ ap (λ j. requests (B.calls v) ++ (request_of (Rest.enable_job j), k) ∷ []) named),
      served-url_of S (Rest.remove_job "disable") (refl, (refl, (refl, tt))) refl,
      look-remove_job R "disable" w,
    )
