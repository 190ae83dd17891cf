-- ===== src/Util/Idioms/Bindings.antt =====
-- What rebinding leaves bound.
use elastic_job_lite.Prelude.{String, ◌≡◌, inl, inr, [], ◌∷◌, ◌===◌, if◌then◌else◌, Bool-cases}
use elastic_job_lite.Browser.{Browser}
use elastic_job_lite.Browser.Closures.{Handler}
use elastic_job_lite.Util.Idioms.{rebind, rebind_confirm}

module _ (B : Browser) (h : Handler) (w : B.World) (s : String) where
  -- The selector has this one handler, and every other selector has the handlers that it had.
  pub rebind-handlers :
      (t : String) → B.handlers s (rebind B t h w) ≡ (if t === s then h ∷ [] else B.handlers s w)
  unfolding rebind
  rebind-handlers t = elim (Bool-cases (t === s)) [
    | inl same ↦ simp (B.handlers-exec, same)
    | inr other ↦ simp (B.handlers-exec, other)
  ]

  pub rebind_confirm-handlers :
      B.handlers s (rebind_confirm B h w)
      ≡ (if "#confirm-btn" === s then h ∷ [] else B.handlers s w)
  unfolding rebind_confirm
  rebind_confirm-handlers = rebind-handlers "#confirm-btn"
