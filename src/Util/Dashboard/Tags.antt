-- ===== src/Util/Dashboard/Tags.antt =====
-- The counters of the sidebar, the marked item of a list, and the skin.
use elastic_job_lite.Prelude.{
  String, ◌≡◌, refl, ◌∙◌, inl, inr, Bool, true, false, ◌||◌, List, [], ◌∷◌, ◌++◌, append_assoc,
  append-nil, arith, each, skip, length, ltb, if◌then◌else◌, Bool-cases, numeral_text,
}
use mathlib.Core.Bool.{Bool-set}
use mathlib.Core.List.{Perm, foldr}
use mathlib.Core.List.Perm
use elastic_job_lite.Browser.{Browser, text_after}
use elastic_job_lite.Browser.Closures.{Success, Center}
use elastic_job_lite.Browser.Calls.{Call, Request, set_text}
use elastic_job_lite.Browser.Requests.{requests, exec-requests}
use elastic_job_lite.Util.Dashboard.{
  got_job_tag, got_server_tag, tag_round, clear_tags, got_reg_centers_tag, get_from,
}

-- Whether a center of the list is activated.
abbrev pub any_activated : List Center → Bool
any_activated [] = false
any_activated (c ∷ cs) = c.activated || any_activated cs

-- two requests for every activated center
abbrev pub count_requests : List Center → List (Request × Success)
count_requests [] = []
count_requests (c ∷ cs) =
    (if c.activated
      then (get_from "/api/jobs/count", Success.got_job_tag)
        ∷ (get_from "/api/servers/count", Success.got_server_tag)
        ∷ []
      else [])
    ++ count_requests cs

-- whether the list has a center that is not activated, or none at all
abbrev pub is_cleared : List Center → Bool
is_cleared [] = false
is_cleared (c ∷ cs) = (if c.activated then false else true) || is_cleared cs

-- whether a request is one for the count of the jobs, or of the servers
abbrev is_job : Request × Success → Bool
is_job (_, Success.got_job_tag) = true
is_job _ = false

abbrev is_server : Request × Success → Bool
is_server (_, Success.got_server_tag) = true
is_server _ = false

abbrev any : {A : Type 0} → (A → Bool) → List A → Bool
any p = foldr (λ x b. p x || b) false

any-Perm : {A : Type 0} (p : A → Bool) (xs ys : List A) → Perm xs ys → any p xs ≡ any p ys
any-Perm p xs ys h = Perm.foldr-eq Bool-set (λ x b. p x || b) (λ x y b. ground arith) h false

any_counted :
    (cs : List Center)
    → (any is_job (count_requests cs) ≡ any_activated cs)
      × (any is_server (count_requests cs) ≡ any_activated cs)
any_counted [] = (refl, refl)
any_counted (c ∷ cs) = elim (Bool-cases c.activated) [
  | inl on ↦ rw on (refl, refl)
  | inr off ↦ rw off (any_counted cs)
]

is_filled : (c : Center) (cs : List Center) → ltb 0 (length (c ∷ cs)) ≡ true
is_filled c cs = ground arith

module _ (B : Browser) where
  each_round-requests :
      (cs : List Center) (w : B.World)
      → requests (B.calls (each (tag_round B) cs w)) ≡ requests (B.calls w) ++ count_requests cs
  unfolding tag_round requests
  each_round-requests [] w = rw append-nil
  each_round-requests (c ∷ cs) w = elim (Bool-cases c.activated) [
    | inl on ↦ rw on (each_round-requests cs _ ∙ simp (exec-requests B, append_assoc))
    | inr off ↦ rw off (each_round-requests cs _ ∙ simp (exec-requests B, append-nil))
  ]

  job_text :
      (c : Call) (w : B.World)
      → B.text "#job-nav-tag" (B.exec c w) ≡ text_after c "#job-nav-tag" (B.text "#job-nav-tag" w)
  job_text c w = B.text-exec c w "#job-nav-tag" refl

  server_text :
      (c : Call) (w : B.World)
      → B.text "#server-nav-tag" (B.exec c w)
        ≡ text_after c "#server-nav-tag" (B.text "#server-nav-tag" w)
  server_text c w = B.text-exec c w "#server-nav-tag" refl

  round-text :
      (c : Center) (w : B.World)
      → (B.text "#job-nav-tag" (tag_round B c w)
          ≡ (if c.activated then B.text "#job-nav-tag" w else "0"))
        × (B.text "#server-nav-tag" (tag_round B c w)
            ≡ (if c.activated then B.text "#server-nav-tag" w else "0"))
  unfolding tag_round
  round-text c w = elim (Bool-cases c.activated) [
    | inl on ↦ rw on (simp job_text, simp server_text)
    | inr off ↦ rw off (simp job_text, simp server_text)
  ]

  -- The two counters after the loop.
  each_round-text :
      (cs : List Center) (w : B.World)
      → (B.text "#job-nav-tag" (each (tag_round B) cs w)
          ≡ (if is_cleared cs then "0" else B.text "#job-nav-tag" w))
        × (B.text "#server-nav-tag" (each (tag_round B) cs w)
            ≡ (if is_cleared cs then "0" else B.text "#server-nav-tag" w))
  each_round-text [] w = (refl, refl)
  each_round-text (c ∷ cs) w =
      let ih = each_round-text cs (tag_round B c w) in
      let step = round-text c w in ground (arith, ih.0, ih.1, step.0, step.1)

  -- The answer of one of the two counting requests comes.
  abbrev pub deliver : String → String → Request × Success → B.World → B.World
  deliver jobs servers (r, Success.got_job_tag) = got_job_tag B jobs
  deliver jobs servers (r, Success.got_server_tag) = got_server_tag B servers
  deliver jobs servers _ = skip

  deliver-text :
      (rs : List (Request × Success)) (jobs servers : String) (w : B.World)
      → (B.text "#job-nav-tag" (each (deliver jobs servers) rs w)
          ≡ (if any is_job rs then jobs else B.text "#job-nav-tag" w))
        × (B.text "#server-nav-tag" (each (deliver jobs servers) rs w)
            ≡ (if any is_server rs then servers else B.text "#server-nav-tag" w))
  unfolding got_job_tag got_server_tag
  deliver-text [] jobs servers w = (refl, refl)
  deliver-text ((r, Success.got_job_tag) ∷ rs) jobs servers w =
      let v = got_job_tag B jobs w in
      let ih = deliver-text rs jobs servers v in
      let job : B.text "#job-nav-tag" v ≡ jobs = simp job_text in
      let server : B.text "#server-nav-tag" v ≡ B.text "#server-nav-tag" w = simp server_text in
      ground (arith, ih.0, ih.1, job, server)
  deliver-text ((r, Success.got_server_tag) ∷ rs) jobs servers w =
      let v = got_server_tag B servers w in
      let ih = deliver-text rs jobs servers v in
      let job : B.text "#job-nav-tag" v ≡ B.text "#job-nav-tag" w = simp job_text in
      let server : B.text "#server-nav-tag" v ≡ servers = simp server_text in
      ground (arith, ih.0, ih.1, job, server)
  deliver-text ((r, _) ∷ rs) jobs servers w = deliver-text rs jobs servers w

  none-IsCleared :
      (c : Center) (cs : List Center) → any_activated (c ∷ cs) ≡ false → is_cleared (c ∷ cs) ≡ true
  none-IsCleared c cs h = ground arith

  cleared :
      (w : B.World)
      → (B.text "#job-nav-tag" (clear_tags B w) ≡ "0")
        × (B.text "#server-nav-tag" (clear_tags B w) ≡ "0")
  unfolding clear_tags
  cleared w = (simp job_text, simp server_text)

  -- With no registry center activated the counters are cleared at once.
  tag-text :
      (cs : List Center) (w : B.World)
      → (any_activated cs ≡ false → B.text "#job-nav-tag" (got_reg_centers_tag B cs w) ≡ "0")
        × (any_activated cs ≡ false → B.text "#server-nav-tag" (got_reg_centers_tag B cs w) ≡ "0")
  unfolding got_reg_centers_tag
  tag-text [] w = (λ h. (cleared _).0, λ h. (cleared _).1)
  tag-text (c ∷ cs) w =
      let shown =
        each_round-text (c ∷ cs)
          (B.exec (set_text "#reg-nav-tag" (numeral_text (length (c ∷ cs)))) w) in
      (
        λ h. rw (is_filled c cs) (shown.0 ∙ rw (none-IsCleared c cs h)),
        λ h. rw (is_filled c cs) (shown.1 ∙ rw (none-IsCleared c cs h)),
      )

  -- Once the answers to its requests have come, in whatever order, the two counters show the counts
  -- of the server if some registry center is activated, and "0" if none is.
  pub got_reg_centers_tag-text :
      (cs : List Center) (arrived : List (Request × Success)) (jobs servers : String) (w : B.World)
      → Perm arrived (count_requests cs)
      → (B.text "#job-nav-tag" (each (deliver jobs servers) arrived (got_reg_centers_tag B cs w))
          ≡ (if any_activated cs then jobs else "0"))
        × (B.text "#server-nav-tag"
              (each (deliver jobs servers) arrived (got_reg_centers_tag B cs w))
            ≡ (if any_activated cs then servers else "0"))
  got_reg_centers_tag-text cs arrived jobs servers w h =
      let told = deliver-text arrived jobs servers (got_reg_centers_tag B cs w) in
      let shown = tag-text cs w in
      let job = any-Perm is_job arrived (count_requests cs) h ∙ (any_counted cs).0 in
      let server = any-Perm is_server arrived (count_requests cs) h ∙ (any_counted cs).1 in
      (told.0 ∙ rw job (ground (arith, shown.0)), told.1 ∙ rw server (ground (arith, shown.1)))

  -- The requests that the answer sends are those two for each activated center, and no other.
  pub got_reg_centers_tag-requests :
      (cs : List Center) (w : B.World)
      → requests (B.calls (got_reg_centers_tag B cs w)) ≡ requests (B.calls w) ++ count_requests cs
  unfolding got_reg_centers_tag requests clear_tags
  got_reg_centers_tag-requests [] w = simp (exec-requests B, append-nil)
  got_reg_centers_tag-requests (c ∷ cs) w =
      rw (is_filled c cs) (each_round-requests (c ∷ cs) _ ∙ simp (exec-requests B, append-nil))

  -- The answer with the registry centers sends two counting requests for each activated one, and no
  -- other request; once their answers have come, in whatever order, the two counters show the counts of
  -- the server if some registry center is activated, and "0" if none is.
  pub got_reg_centers_tag_lem :
      (cs : List Center) (arrived : List (Request × Success)) (jobs servers : String) (w : B.World)
      → Perm arrived (count_requests cs)
      → (requests (B.calls (got_reg_centers_tag B cs w))
          ≡ requests (B.calls w) ++ count_requests cs)
        × (B.text "#job-nav-tag" (each (deliver jobs servers) arrived (got_reg_centers_tag B cs w))
            ≡ (if any_activated cs then jobs else "0"))
        × (B.text "#server-nav-tag"
              (each (deliver jobs servers) arrived (got_reg_centers_tag B cs w))
            ≡ (if any_activated cs then servers else "0"))
  got_reg_centers_tag_lem cs arrived jobs servers w h =
      let shown = got_reg_centers_tag-text cs arrived jobs servers w h in
      (got_reg_centers_tag-requests cs w, shown.0, shown.1)
