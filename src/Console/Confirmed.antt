-- ===== src/Console/Confirmed.antt =====
-- What a click sends in a state that the console can be in.
use elastic_job_lite.Prelude.{◌≡◌, ◌∙◌, ◌⊎◌, inl, inr, true, ◌++◌}
use elastic_job_lite.Browser.{Browser}
use elastic_job_lite.Browser.Closures.{Handler}
use elastic_job_lite.Console.{Event, run}
use elastic_job_lite.Console.Bindings.{is_confirm}
use elastic_job_lite.Browser.Requests.{requests}
use elastic_job_lite.Console.Requests.{confirmed}
use elastic_job_lite.Console.Requests.Unconfirmed.{requests_of-confirmed}
use elastic_job_lite.Console.Requests.Events.{run-requests}
use elastic_job_lite.Console.Steps.{click, Reach, IsSafe, Reach-IsSafe}

module _ (B : Browser) where
  -- In every such state a click on the confirm button does nothing, or it runs the one operation
  -- that waits, and sends just the one request of that operation.
  pub confirm-requests :
      {w v : B.World} (e : Event)
      → IsSafe B w
      → Reach B w v
      → (click B "#confirm-btn" e v ≡ v)
        ⊎ ((h : Handler) × (is_confirm h ≡ true)
            × (click B "#confirm-btn" e v ≡ run B h e v)
            × (requests (B.calls (click B "#confirm-btn" e v))
                ≡ requests (B.calls v) ++ confirmed h))
  unfolding click
  confirm-requests {v} e safe r = elim (Reach-IsSafe B r safe).waits [
    | inl none_waits ↦ inl (rw none_waits)
    | inr (h, waits, bound) ↦ inr (
      h,
      waits,
      rw bound,
      rw bound (run-requests B h e v ∙ rw (requests_of-confirmed B h e v waits)),
    )
  ]
