-- ===== src/Statistics/Shown.antt =====
-- What the tables show after an operation, next to what the scheduler sees.
use elastic_job_lite.Prelude.{
  ℕ, suc, String, ◌≡◌, refl, ap, ◌∙◌, Bool, true, false, ◌&&◌, not, none, some, List, [], ◌∷◌,
  length, ◌==◌, ◌===◌, if◌then◌else◌, each, arith, All, Bool-cases, inl, inr,
}
use text.Mathlib.TextPositions.{eq_refl}
use elastic_job_lite.Registry.{Node, Registry}
use elastic_job_lite.Sharding.Service.Run.{contains}
use elastic_job_lite.Operations.{
  returned, get_server_node_path, server_node_path, get_instances_node_path,
  persist_disabled_or_enabled_job, disable_or_enable_jobs,
}
use elastic_job_lite.Operations.Servers.{mark, look-persist, look-each_server, children-each_server}
use elastic_job_lite.Statistics.Jobs.{
  JobStatus, crashed, disabled, count_disabled, is_all_disabled, is_empty, get_job_status,
}

abbrev pub is_disabled : JobStatus → Bool
is_disabled disabled = true
is_disabled _ = false

abbrev pub is_crashed : JobStatus → Bool
is_crashed crashed = true
is_crashed _ = false

module _ (R : Registry) where
  open R use {World, look, children}

  -- each of the servers has a node
  abbrev pub Exist : String → List String → World → Type 0
  Exist job ips w = All (λ ip. (d : String) × (look (server_node_path job ip) w ≡ some d)) ips

  Exist-persist :
      (job ip : String) (d : Bool) (ips : List String) (w : World)
      → Exist job ips w
      → Exist job ips (persist_disabled_or_enabled_job R job ip d w)
  Exist-persist job ip d [] w h = tt
  Exist-persist job ip d (i ∷ ips) w ((old, there), h) =
      let step = look-persist R job ip job i d w in
      (
        elim (Bool-cases (job === job && ip === i)) [
          | inl same ↦ (mark d, step ∙ rw same refl)
          | inr apart ↦ (old, step ∙ rw apart there)
        ],
        Exist-persist job ip d ips w h,
      )

  -- Data for the servers that are listed leaves the list.
  children-each_listed :
      (job : String) (d : Bool) (n : Node) (ips : List String) (w : World)
      → Exist job ips w
      → children n (each (λ ip. persist_disabled_or_enabled_job R job ip d) ips w) ≡ children n w
  unfolding persist_disabled_or_enabled_job
  children-each_listed job d n [] w h = refl
  children-each_listed job true n (ip ∷ ips) w ((old, there), h) =
      children-each_listed job true n ips (persist_disabled_or_enabled_job R job ip true w)
        (Exist-persist job ip true ips w h)
      ∙ R.children-put_there n (server_node_path job ip) "DISABLED" old w there
  children-each_listed job false n (ip ∷ ips) w ((old, there), h) =
      children-each_listed job false n ips (persist_disabled_or_enabled_job R job ip false w)
        (Exist-persist job ip false ips w h)
      ∙ R.children-put_there n (server_node_path job ip) "" old w there

  count_disabled-mark :
      (job : String) (d : Bool) (ips all : List String) (w : World)
      → ((i : String) → contains i all ≡ true → look (server_node_path job i) w ≡ some (mark d))
      → All (λ i. contains i all ≡ true) ips
      → count_disabled R job ips w ≡ (if d then length ips else 0)
  unfolding count_disabled
  count_disabled-mark job true [] all w h m = refl
  count_disabled-mark job false [] all w h m = refl
  count_disabled-mark job true (i ∷ ips) all w h (m, ms) =
      rw (count_disabled, h i m, count_disabled-mark job true ips all w h ms) (ground arith)
  count_disabled-mark job false (i ∷ ips) all w h (m, ms) =
      rw (count_disabled, h i m, count_disabled-mark job false ips all w h ms) (ground arith)

counted : (d : Bool) (n : ℕ) → ((if d then suc n else 0) == suc n) ≡ d
counted true n = ground arith
counted false n = ground arith

contains_more :
    (x : String) (xs ys : List String)
    → All (λ i. contains i xs ≡ true) ys
    → All (λ i. contains i (x ∷ xs) ≡ true) ys
unfolding contains
contains_more x xs [] h = tt
contains_more x xs (y ∷ ys) (h, hs) = (ground arith, contains_more x xs ys hs)

self_listed : (xs : List String) → All (λ i. contains i xs ≡ true) xs
unfolding contains
self_listed [] = tt
self_listed (x ∷ xs) = (rw (eq_refl x) refl, contains_more x xs xs (self_listed xs))

module _ (R : Registry) where
  open R use {World, look, children}

  shown_disabled :
      (job : String) (d : Bool) (w w' : World)
      → children (get_instances_node_path job) w' ≡ children (get_instances_node_path job) w
      → is_all_disabled R job w' ≡ d
      → is_disabled (get_job_status R job w')
        ≡ (d && not (is_empty (children (get_instances_node_path job) w)))
  unfolding get_job_status
  shown_disabled job d w w' ids all = ground (arith, ids, all)

  shown_crashed :
      (job : String) (w w' : World)
      → children (get_instances_node_path job) w' ≡ children (get_instances_node_path job) w
      → is_crashed (get_job_status R job w') ≡ is_empty (children (get_instances_node_path job) w)
  unfolding get_job_status
  shown_crashed job w w' ids = ground (arith, ids)

  is_all_disabled-each_server :
      (job first : String) (others : List String) (d : Bool) (w : World)
      → children (get_server_node_path job) w ≡ first ∷ others
      → Exist R job (first ∷ others) w
      → is_all_disabled R job
          (each (λ ip. persist_disabled_or_enabled_job R job ip d) (first ∷ others) w)
        ≡ d
  unfolding is_all_disabled
  is_all_disabled-each_server job first others d w listed exist =
      let ips = first ∷ others in
      let w' = each (λ ip. persist_disabled_or_enabled_job R job ip d) ips w in
      let list : children (get_server_node_path job) w' ≡ ips =
        children-each_listed R job d (get_server_node_path job) ips w exist ∙ listed in
      let marked : (i : String)
          → contains i ips ≡ true
          → look (server_node_path job i) w' ≡ some (mark d) =
        λ i c. look-each_server R job job i d ips w ∙ rw (eq_refl job, c) refl in
      let count = count_disabled-mark R job d ips ips w' marked (self_listed ips) in
      ap (λ l. count_disabled R job l w' == length l) list ∙ rw count (counted d (length others))

  -- A job with servers, each of which has a node, is shown as disabled after its disabling and as not
  -- disabled after its enabling, if it has instances; without instances it is shown as crashed.
  pub get_job_status-disable_or_enable_jobs :
      (job first : String) (others : List String) (d : Bool) (w : World)
      → children (get_server_node_path job) w ≡ first ∷ others
      → Exist R job (first ∷ others) w
      → (w' : World) × (disable_or_enable_jobs R (some job) none d w ≡ returned w')
        × (is_disabled (get_job_status R job w')
            ≡ (d && not (is_empty (children (get_instances_node_path job) w))))
        × (is_crashed (get_job_status R job w')
            ≡ is_empty (children (get_instances_node_path job) w))
  unfolding disable_or_enable_jobs persist_disabled_or_enabled_job
  get_job_status-disable_or_enable_jobs job first others d w listed exist =
      let w' = each (λ ip. persist_disabled_or_enabled_job R job ip d) (first ∷ others) w in
      let all = is_all_disabled-each_server job first others d w listed exist in
      let ids = children-each_server R job job d (first ∷ others) w in
      (
        w',
        ap (λ l. returned (each (λ ip. persist_disabled_or_enabled_job R job ip d) l w)) listed,
        shown_disabled job d w w' ids all,
        shown_crashed job w w' ids,
      )
