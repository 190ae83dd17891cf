-- ===== src/Operations/Servers.antt =====
-- What disabling and enabling leaves of the nodes of the servers.
use elastic_job_lite.Prelude.{
  String, ◌≡◌, refl, ap, sym, ◌∙◌, inl, inr, Bool, true, false, ◌&&◌, Option, none, some, List, [],
  ◌∷◌, ◌===◌, if◌then◌else◌, each, arith, Bool-cases, Option-cases,
}
use text.Mathlib.TextEquality.{eq_iff}
use elastic_job_lite.Registry.{Mode, Registry}
use elastic_job_lite.Sharding.Service.Run.{contains}
use elastic_job_lite.Operations.{
  returned, get_server_node_path, server_node_path, get_instances_node_path,
  persist_disabled_or_enabled_job, is_existed, disable_or_enable_at, disable_or_enable_jobs,
}

-- the data of the node of a server that is disabled, or not
abbrev pub mark : Bool → String
mark disabled = if disabled then "DISABLED" else ""

-- A job or an ip is given.
abbrev pub IsGiven : Option String → Option String → Type 0
IsGiven none none = ⊥
IsGiven _ _ = Unit

module _ (R : Registry) where
  open R use {World, look, children, put, remove}

  -- One server's node does not stand below another's.
  look-put_server :
      (job ip j i v : String) (w : World)
      → look (server_node_path j i) (put Mode.persistent (server_node_path job ip) v w)
        ≡ (if job === j && ip === i then some v else look (server_node_path j i) w)
  look-put_server job ip j i v w = elim (Bool-cases (job === j && ip === i)) [
    | inl same ↦
        let p : job ≡ j = ground (arith, eq_iff job j) in
        let q : ip ≡ i = ground (arith, eq_iff ip i) in
        rw same (
          ap (λ k. look (server_node_path k i) (put Mode.persistent (server_node_path job ip) v w))
            (sym p)
          ∙ ap
              (λ k.
                look (server_node_path job k) (put Mode.persistent (server_node_path job ip) v w))
              (sym q)
          ∙ R.look-put Mode.persistent (server_node_path job ip) v w)
    | inr apart ↦ rw apart (
        R.look-put_apart Mode.persistent (server_node_path job ip) (server_node_path j i) v w
          (ground (arith, eq_iff job j, eq_iff j job, eq_iff ip i, eq_iff i ip)) (ground arith))
  ]

  pub look-persist :
      (job ip j i : String) (disabled : Bool) (w : World)
      → look (server_node_path j i) (persist_disabled_or_enabled_job R job ip disabled w)
        ≡ (if job === j && ip === i then some (mark disabled) else look (server_node_path j i) w)
  unfolding persist_disabled_or_enabled_job
  look-persist job ip j i true w = look-put_server job ip j i "DISABLED" w
  look-persist job ip j i false w = look-put_server job ip j i "" w

  -- the loop over the servers of a job
  pub look-each_server :
      (job j i : String) (disabled : Bool) (ips : List String) (w : World)
      → look
          (server_node_path j i)
          (each (λ ip. persist_disabled_or_enabled_job R job ip disabled) ips w)
        ≡ (if job === j && contains i ips
            then some (mark disabled)
            else look (server_node_path j i) w)
  unfolding contains
  look-each_server job j i disabled [] w = ground arith
  look-each_server job j i disabled (ip ∷ ips) w =
      let step = look-persist job ip j i disabled w in
      let rest =
        look-each_server job j i disabled ips
          (persist_disabled_or_enabled_job R job ip disabled w) in
      ground (arith, step, rest)

  existed_same :
      (job ip j i : String) (w : World)
      → (job === j && ip === i) ≡ true
      → is_existed R (server_node_path job ip) w ≡ is_existed R (server_node_path j i) w
  existed_same job ip j i w h =
      let p : job ≡ j = ground (arith, eq_iff job j) in
      let q : ip ≡ i = ground (arith, eq_iff ip i) in
      ap (λ k. is_existed R (server_node_path k ip) w) p
      ∙ ap (λ k. is_existed R (server_node_path j k) w) q

  -- the body of the loop over the jobs
  look-disable_or_enable_at :
      (job ip j i : String) (disabled : Bool) (w : World)
      → look (server_node_path j i) (disable_or_enable_at R ip disabled job w) ≡ (
          if ip === i && job === j && is_existed R (server_node_path j i) w
          then some (mark disabled)
          else look (server_node_path j i) w)
  unfolding disable_or_enable_at
  look-disable_or_enable_at job ip j i disabled w =
      let step = look-persist job ip j i disabled w in
      elim (Bool-cases (is_existed R (server_node_path job ip) w)) [
        | inl there ↦ rw there (elim (Bool-cases (job === j && ip === i)) [
          | inl same ↦ let e = existed_same job ip j i w same in ground (arith, step, e)
          | inr apart ↦ ground (arith, step)
        ])
        | inr gone ↦ rw gone (elim (Bool-cases (job === j && ip === i)) [
          | inl same ↦ let e = existed_same job ip j i w same in ground (arith, e)
          | inr apart ↦ ground arith
        ])
      ]

  -- A node that was there is there after the step.
  is_existed-disable_or_enable_at :
      (job ip j i : String) (disabled : Bool) (w : World)
      → is_existed R (server_node_path j i) (disable_or_enable_at R ip disabled job w)
        ≡ is_existed R (server_node_path j i) w
  unfolding is_existed
  is_existed-disable_or_enable_at job ip j i disabled w =
      let step = look-disable_or_enable_at job ip j i disabled w in
      elim (Option-cases (look (server_node_path j i) w)) [
        | inl gone ↦ rw (step, is_existed, gone) (ground arith)
        | inr (d, there) ↦ rw (step, is_existed, there) (ground arith)
      ]

  look-each_job :
      (ip j i : String) (disabled : Bool) (jobs : List String) (w : World)
      → look (server_node_path j i) (each (disable_or_enable_at R ip disabled) jobs w) ≡ (
          if ip === i && contains j jobs && is_existed R (server_node_path j i) w
          then some (mark disabled)
          else look (server_node_path j i) w)
  unfolding contains
  look-each_job ip j i disabled [] w = ground arith
  look-each_job ip j i disabled (job ∷ jobs) w =
      let step = look-disable_or_enable_at job ip j i disabled w in
      let kept = is_existed-disable_or_enable_at job ip j i disabled w in
      let rest = look-each_job ip j i disabled jobs (disable_or_enable_at R ip disabled job w) in
      ground (arith, step, kept, rest)

  -- The nodes of the servers are apart from the list of the instances.
  children-persist :
      (j job ip : String) (disabled : Bool) (w : World)
      → children (get_instances_node_path j) (persist_disabled_or_enabled_job R job ip disabled w)
        ≡ children (get_instances_node_path j) w
  unfolding persist_disabled_or_enabled_job
  children-persist j job ip true w =
      R.children-put Mode.persistent (get_instances_node_path j) (server_node_path job ip)
        "DISABLED" w (ground arith) (ground arith)
  children-persist j job ip false w =
      R.children-put Mode.persistent (get_instances_node_path j) (server_node_path job ip) "" w
        (ground arith) (ground arith)

  pub children-each_server :
      (j job : String) (disabled : Bool) (ips : List String) (w : World)
      → children
          (get_instances_node_path j)
          (each (λ ip. persist_disabled_or_enabled_job R job ip disabled) ips w)
        ≡ children (get_instances_node_path j) w
  children-each_server j job disabled [] w = refl
  children-each_server j job disabled (ip ∷ ips) w =
      children-each_server j job disabled ips (persist_disabled_or_enabled_job R job ip disabled w)
      ∙ children-persist j job ip disabled w

  children-disable_or_enable_at :
      (j ip job : String) (disabled : Bool) (w : World)
      → children (get_instances_node_path j) (disable_or_enable_at R ip disabled job w)
        ≡ children (get_instances_node_path j) w
  unfolding disable_or_enable_at
  children-disable_or_enable_at j ip job disabled w =
      elim (Bool-cases (is_existed R (server_node_path job ip) w)) [
        | inl there ↦ rw there (children-persist j job ip disabled w)
        | inr gone ↦ rw gone refl
      ]

  children-each_job :
      (j ip : String) (disabled : Bool) (jobs : List String) (w : World)
      → children (get_instances_node_path j) (each (disable_or_enable_at R ip disabled) jobs w)
        ≡ children (get_instances_node_path j) w
  children-each_job j ip disabled [] w = refl
  children-each_job j ip disabled (job ∷ jobs) w =
      children-each_job j ip disabled jobs (disable_or_enable_at R ip disabled job w)
      ∙ children-disable_or_enable_at j ip job disabled w

  -- the servers that the arguments name
  abbrev pub names_server : Option String → Option String → World → String → String → Bool
  names_server (some job) (some ip) w j i = job === j && ip === i
  names_server (some job) none w j i =
      job === j && contains i (children (get_server_node_path job) w)
  names_server none (some ip) w j i =
      ip === i && contains j (children [] w) && is_existed R (server_node_path j i) w
  names_server none none w j i = false

  -- Given a job or an ip, the call returns, it marks the servers that these name, and it leaves the
  -- nodes of the other servers and the lists of the instances as they are.
  pub disable_or_enable_jobs-look :
      (job ip : Option String) (disabled : Bool) (w : World)
      → IsGiven job ip
      → (w' : World) × (disable_or_enable_jobs R job ip disabled w ≡ returned w')
        × ((j i : String)
            → look (server_node_path j i) w' ≡ (
                if names_server job ip w j i
                then some (mark disabled)
                else look (server_node_path j i) w))
        × ((j : String)
            → children (get_instances_node_path j) w' ≡ children (get_instances_node_path j) w)
  unfolding disable_or_enable_jobs persist_disabled_or_enabled_job
  disable_or_enable_jobs-look (some job) (some ip) disabled w _ = (
    _,
    refl,
    (λ j i. look-persist job ip j i disabled w),
    λ j. children-persist j job ip disabled w,
  )
  disable_or_enable_jobs-look (some job) none disabled w _ =
      let ips = children (get_server_node_path job) w in
      (
        _,
        refl,
        (λ j i. look-each_server job j i disabled ips w),
        λ j. children-each_server j job disabled ips w,
      )
  disable_or_enable_jobs-look none (some ip) disabled w _ = (
    _,
    refl,
    (λ j i. look-each_job ip j i disabled (children [] w) w),
    λ j. children-each_job j ip disabled (children [] w) w,
  )
  disable_or_enable_jobs-look none none disabled w h = absurd h
