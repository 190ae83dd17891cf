-- ===== src/Operations/Seen.antt =====
-- From a button of the console to what the scheduler of a job sees: which servers are enabled, and
-- which instances get items.
use elastic_job_lite.Prelude.{
  String, ◌≡◌, refl, ap, ◌∙◌, Bool, true, false, ◌&&◌, not, Option, none, some, [], ◌∷◌, ◌++◌,
  if◌then◌else◌, All,
}
use mathlib.Core.Option
use elastic_job_lite.Browser.{Browser}
use elastic_job_lite.Browser.Closures.{Handler, Success}
use elastic_job_lite.Browser.Calls.{Request}
use elastic_job_lite.Browser.Requests.{requests}
use elastic_job_lite.Console.{Event, run}
use elastic_job_lite.Registry.{Registry}
use elastic_job_lite.Registry.Below.{below}
use elastic_job_lite.Rest.JaxRs.{Server}
use elastic_job_lite.Rest.Url.{is_name}
use elastic_job_lite.Rest
use elastic_job_lite.Rest.Served.{segments_of, is_apart}
use elastic_job_lite.Rest.Buttons.{Means, served-run}
use elastic_job_lite.Sharding.Service.{is_enable_server, get_available_job_instances}
use elastic_job_lite.Sharding.Service.Available.{still, get_available_job_instances-still}
use elastic_job_lite.Operations.{
  Outcome, returned, server_node_path, disable_or_enable_jobs, disable, perform,
}
use elastic_job_lite.Operations.Servers.{mark, names_server, IsGiven, disable_or_enable_jobs-look}

-- The methods that disable, with the job and the ip that they are given.
pub data Disables : Rest.Action → Option String → Option String → Type 0 where
  of_job : (j : String) → Disables (Rest.disable_job j) (some j) none
  of_server : (ip : String) → Disables (Rest.disable_server ip) none (some ip)
  of_server_job : (ip j : String) → Disables (Rest.disable_server_job ip j) (some j) (some ip)

module _ (R : Registry) where
  open R use {World, look, children}

  marked_is_enable_server :
      (j i : String) (named disabled : Bool) (w w' : World)
      → look (server_node_path j i) w'
        ≡ (if named then some (mark disabled) else look (server_node_path j i) w)
      → is_enable_server (below j R) i w'
        ≡ (if named then not disabled else is_enable_server (below j R) i w)
  unfolding is_enable_server
  marked_is_enable_server j i true true w w' h = rw (is_enable_server, h) refl
  marked_is_enable_server j i true false w w' h = rw (is_enable_server, h) refl
  marked_is_enable_server j i false disabled w w' h = rw (is_enable_server, h) refl

  -- Given a job or an ip, disabling and enabling return, and the scheduler of each job then finds just
  -- the servers changed that these name.
  pub is_enable_server-disable_or_enable_jobs :
      (job ip : Option String) (disabled : Bool) (w : World)
      → IsGiven job ip
      → (w' : World) × (disable_or_enable_jobs R job ip disabled w ≡ returned w')
        × ((j i : String)
            → is_enable_server (below j R) i w' ≡ (
                if names_server R job ip w j i
                then not disabled
                else is_enable_server (below j R) i w))
  is_enable_server-disable_or_enable_jobs job ip disabled w given =
      let (w', e, f, g) = disable_or_enable_jobs-look R job ip disabled w given in
      (
        w',
        e,
        λ j i. marked_is_enable_server j i (names_server R job ip w j i) disabled w w' (f j i),
      )

  hidden_of : (named on : Bool) → (if named then not true else on) ≡ (not named && on)
  hidden_of true on = refl
  hidden_of false on = refl

  -- What is left for the scheduler of each job: its instances on other servers.
  Leaves : Option String → Option String → World → Option (Outcome World) → Type 0
  Leaves job ip w o =
      (w' : World) × (o ≡ some (returned w'))
      × ((j : String)
          → get_available_job_instances (below j R) w'
            ≡ Option.map (still (names_server R job ip w j))
                (get_available_job_instances (below j R) w))

  disable-Leaves :
      (job ip : Option String) (w : World)
      → IsGiven job ip
      → Leaves job ip w (some (disable R job ip w))
  unfolding Leaves disable
  disable-Leaves job ip w given =
      let (w', e, f, g) = disable_or_enable_jobs-look R job ip true w given in
      (
        w',
        ap some e,
        λ j.
            get_available_job_instances-still (below j R) (names_server R job ip w j) w' w (g j)
              (λ i.
                marked_is_enable_server j i (names_server R job ip w j i) true w w' (f j i)
                ∙ hidden_of (names_server R job ip w j i) (is_enable_server (below j R) i w)),
      )

  perform-Leaves :
      (a : Rest.Action) (job ip : Option String) (w : World)
      → Disables a job ip
      → Leaves job ip w (perform R a w)
  unfolding perform
  perform-Leaves _ _ _ w (of_job j) = disable-Leaves (some j) none w tt
  perform-Leaves _ _ _ w (of_server ip) = disable-Leaves none (some ip) w tt
  perform-Leaves _ _ _ w (of_server_job ip j) = disable-Leaves (some j) (some ip) w tt

-- A button that disables, on names of unreserved characters, sends one request, which the server gives to
-- the method that is meant; that method returns, and the instances of each job that get items are those
-- from before, less the ones on the servers that are named. No job is named `config`.
pub get_available_job_instances-run :
    (B : Browser) (S : Server Rest.Action) (R : Registry) (h : Handler) (e : Event) (v : B.World)
    (w : R.World) (a : Rest.Action) (job ip : Option String)
    → Means B h e v a
    → Disables a job ip
    → All (λ s. is_name s ≡ true) (segments_of a)
    → is_apart a ≡ true
    → (r : Request) × ((k : Success) × (requests (B.calls (run B h e v))
          ≡ requests (B.calls v) ++ (r, k) ∷ []))
      × (Rest.served S r.method r.url ≡ some a)
      × ((w' : R.World) × (perform R a w ≡ some (returned w'))
          × ((j : String)
              → get_available_job_instances (below j R) w'
                ≡ Option.map
                    (still (names_server R job ip w j))
                    (get_available_job_instances (below j R) w)))
unfolding Leaves
get_available_job_instances-run B S R h e v w a job ip means disables names apart =
    let (r, sent, served) = served-run B S h e v a means names apart in
    (r, sent, served, perform-Leaves R a job ip w disables)
