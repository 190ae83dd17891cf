-- ===== src/Operations/Instances.antt =====
-- What shutting down leaves of the nodes of the instances.
use elastic_job_lite.Prelude.{
  String, ◌≡◌, refl, ap, sym, ◌∙◌, inl, inr, Bool, true, false, not, ◌&&◌, ◌||◌, Option, none, some,
  List, [], ◌∷◌, ◌===◌, if◌then◌else◌, each, arith, All, Bool-cases,
}
use mathlib.Core.Path.{subst}
use text.Mathlib.TextEquality.{eq_iff}
use elastic_job_lite.Registry.{Node, is_under, Registry}
use elastic_job_lite.Sharding.Service.Run.{contains}
use elastic_job_lite.Operations.{
  Outcome, returned, after, each_until, first_part, get_instances_node_path, get_instance_node_path,
  shutdown_at, shutdown_instances, shutdown,
}

-- whether an instance runs at an ip
abbrev pub runs_at : String → String → Bool
runs_at ip id = elim (first_part id) [ none ↦ false | some part ↦ ip === part ]

-- whether a node is that of one of the instances at an ip, or stands below it
abbrev pub shut_at : String → String → List String → Node → Bool
shut_at ip job [] m = false
shut_at ip job (id ∷ ids) m =
    (runs_at ip id && is_under (get_instance_node_path job id) m) || shut_at ip job ids m

abbrev pub shut_of : String → List String → Node → Bool
shut_of job [] m = false
shut_of job (id ∷ ids) m = is_under (get_instance_node_path job id) m || shut_of job ids m

-- an id of which `split` leaves something
abbrev pub HasPart : String → Type 0
HasPart id = (part : String) × (first_part id ≡ some part)

abbrev pub distinct : List String → Bool
distinct [] = true
distinct (x ∷ xs) = not (contains x xs) && distinct xs

module _ (R : Registry) where
  open R use {World, look, children, remove}

  -- What a loop at an ip leaves: the nodes that stay, and the children of the nodes of another job.
  abbrev Left : String → (Node → Bool) → Outcome World → World → Type 0
  Left job gone o w =
      (w' : World) × (o ≡ returned w')
      × ((m : Node) → look m w' ≡ (if gone m then none else look m w))
      × ((j : String)
          → job === j ≡ false
          → children (get_instances_node_path j) w' ≡ children (get_instances_node_path j) w)

  shutdown_at-Left :
      (ip job id : String) (w : World)
      → HasPart id
      → Left job
          (λ m. runs_at ip id && is_under (get_instance_node_path job id) m)
          (shutdown_at R ip job id w)
          w
  unfolding shutdown_at
  shutdown_at-Left ip job id w (part, e) = elim (Bool-cases (ip === part)) [
    | inl here ↦ (
      remove (get_instance_node_path job id) w,
      rw (shutdown_at, e, here) refl,
      λ m. rw (runs_at, e, here) (R.look-remove (get_instance_node_path job id) m w),
      λ j apart.
          R.children-remove (get_instances_node_path j) (get_instance_node_path job id) w
            (ground arith) (ground arith),
    )
    | inr away ↦
        (w, rw (shutdown_at, e, away) refl, λ m. rw (runs_at, e, away) refl, λ j apart. refl)
  ]

  each_until-Left :
      (ip job : String) (ids : List String) (w : World)
      → All HasPart ids
      → Left job (shut_at ip job ids) (each_until (shutdown_at R ip job) ids w) w
  each_until-Left ip job [] w h = (w, refl, λ m. refl, λ j apart. refl)
  each_until-Left ip job (id ∷ ids) w (h, hs) =
      let (w1, e1, f1, g1) = shutdown_at-Left ip job id w h in
      let (w2, e2, f2, g2) = each_until-Left ip job ids w1 hs in
      (
        w2,
        ap (λ o. after o (each_until (shutdown_at R ip job) ids)) e1 ∙ e2,
        λ m. (let f = f1 m in let g = f2 m in ground (arith, f, g)),
        λ j apart. g2 j apart ∙ g1 j apart,
      )

  abbrev pub ids_of : String → World → List String
  ids_of job w = children (get_instances_node_path job) w

  abbrev pub shut_jobs : String → List String → World → Node → Bool
  shut_jobs ip [] w m = false
  shut_jobs ip (job ∷ jobs) w m = shut_at ip job (ids_of job w) m || shut_jobs ip jobs w m

  abbrev pub HaveParts : List String → World → Type 0
  HaveParts jobs w = All (λ job. All HasPart (ids_of job w)) jobs

  Same : World → World → List String → Type 0
  Same v w jobs = All (λ j. ids_of j v ≡ ids_of j w) jobs

  kept_elsewhere :
      (job : String) (jobs : List String) (v w : World)
      → ((j : String) → job === j ≡ false → ids_of j v ≡ ids_of j w)
      → contains job jobs ≡ false
      → Same v w jobs
  unfolding contains Same
  kept_elsewhere job [] v w g h = tt
  kept_elsewhere job (j ∷ jobs) v w g h = (
    g j (ground (arith, eq_iff job j, eq_iff j job)),
    kept_elsewhere job jobs v w g (ground arith),
  )

  shut_jobs-Same :
      (ip : String) (jobs : List String) (v w : World) (m : Node)
      → Same v w jobs
      → shut_jobs ip jobs v m ≡ shut_jobs ip jobs w m
  unfolding Same
  shut_jobs-Same ip [] v w m h = refl
  shut_jobs-Same ip (job ∷ jobs) v w m (h, hs) = rw (h, shut_jobs-Same ip jobs v w m hs) refl

  HaveParts-Same :
      (jobs : List String) (v w : World) → Same v w jobs → HaveParts jobs w → HaveParts jobs v
  unfolding Same
  HaveParts-Same [] v w h p = p
  HaveParts-Same (job ∷ jobs) v w (h, hs) (p, ps) =
      (subst (All HasPart) (sym h) p, HaveParts-Same jobs v w hs ps)

  each_job-look :
      (ip : String) (jobs : List String) (w : World)
      → HaveParts jobs w
      → distinct jobs ≡ true
      → (w' : World) × (each_until (shutdown_instances R ip) jobs w ≡ returned w')
        × ((m : Node) → look m w' ≡ (if shut_jobs ip jobs w m then none else look m w))
  unfolding shutdown_instances
  each_job-look ip [] w p d = (w, refl, λ m. refl)
  each_job-look ip (job ∷ jobs) w (p, ps) d =
      let (w1, e1, f1, g1) = each_until-Left ip job (ids_of job w) w p in
      let same = kept_elsewhere job jobs w1 w g1 (ground arith) in
      let (w2, e2, f2) =
        each_job-look ip jobs w1 (HaveParts-Same jobs w1 w same ps) (ground arith) in
      (
        w2,
        ap (λ o. after o (each_until (shutdown_instances R ip) jobs)) e1 ∙ e2,
        λ m.
            (let f = f1 m in
              let g = f2 m in
              let s = shut_jobs-Same ip jobs w1 w m same in ground (arith, f, g, s)),
      )

  loop_over_instances :
      (job : String) (ids : List String) (w : World) (m : Node)
      → look m (each (λ id. remove (get_instance_node_path job id)) ids w)
        ≡ (if shut_of job ids m then none else look m w)
  loop_over_instances job [] w m = refl
  loop_over_instances job (id ∷ ids) w m =
      let rest = loop_over_instances job ids (remove (get_instance_node_path job id) w) m in
      let step = R.look-remove (get_instance_node_path job id) m w in ground (arith, rest, step)

  -- the nodes that the arguments name
  abbrev pub names_instance : Option String → Option String → World → Node → Bool
  names_instance (some job) (some ip) w m = shut_at ip job (ids_of job w) m
  names_instance (some job) none w m = shut_of job (ids_of job w) m
  names_instance none (some ip) w m = shut_jobs ip (children [] w) w m
  names_instance none none w m = false

  abbrev pub IsClear : Option String → Option String → World → Type 0
  IsClear (some job) (some ip) w = All HasPart (ids_of job w)
  IsClear (some job) none w = Unit
  IsClear none (some ip) w = HaveParts (children [] w) w × (distinct (children [] w) ≡ true)
  IsClear none none w = ⊥

  -- Given a job or an ip, with ids of which `split` leaves something and, without a job, jobs of
  -- different names, the call returns, and what is gone is the nodes of the instances that these name,
  -- and what stood below them.
  pub shutdown-look :
      (job ip : Option String) (w : World)
      → IsClear job ip w
      → (w' : World) × (shutdown R job ip w ≡ returned w')
        × ((m : Node) → look m w' ≡ (if names_instance job ip w m then none else look m w))
  unfolding shutdown shutdown_instances
  shutdown-look (some job) (some ip) w h =
      let (w', e, f, g) = each_until-Left ip job (ids_of job w) w h in (w', e, f)
  shutdown-look (some job) none w h = (_, refl, λ m. loop_over_instances job (ids_of job w) w m)
  shutdown-look none (some ip) w (p, d) = each_job-look ip (children [] w) w p d
  shutdown-look none none w h = absurd h
