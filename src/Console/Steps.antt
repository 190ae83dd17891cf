-- ===== src/Console/Steps.antt =====
-- Runs of the console as sequences of steps: clicks, other events, answers of the server and
-- scripts that are loaded, in any order.
use elastic_job_lite.Prelude.{
  ◌≤◌, String, ◌≡◌, refl, ◌⊎◌, inl, inr, true, false, List, [], ◌∷◌, ◌===◌, arith, length,
  if◌then◌else◌, each, All, Bool-cases,
}
use elastic_job_lite.Browser.{Browser}
use elastic_job_lite.Browser.Closures.{Handler, Success, Reply}
use elastic_job_lite.Console.{Event, Page, run, answer, load_script}
use elastic_job_lite.Console.Bindings.{is_confirm, OpensAt, run-OpensAtMost}
use elastic_job_lite.Console.Answers.{IsRebound, answer-KeepsRebound}
use elastic_job_lite.Console.Scripts.{bindings, bound_by, load_script-handlers}

-- A click runs the handlers that are bound when it comes, in their order.
unfoldable pub click : (B : Browser) → String → Event → B.World → B.World
click B s e w = each (λ h. run B h e) (B.handlers s w) w

-- An event of an element itself, or the end of a page's loading, runs a handler that was bound to
-- it. What the user, the server and the page do beside the console binds nothing to the document.
pub data Step (B : Browser) : B.World → B.World → Type 0 where
  clicks : (s : String) (e : Event) (w : B.World) → Step B w (click B s e w)
  fires : (h : Handler) (e : Event) (w : B.World) → Step B w (run B h e w)
  receives : (k : Success) (r : Reply k) (w : B.World) → Step B w (answer B k r w)
  loads : (p : Page) (w : B.World) → Step B w (load_script B p w)
  idles : (w v : B.World) → ((s : String) → B.handlers s v ≡ B.handlers s w) → Step B w v

pub data Reach (B : Browser) (w : B.World) : B.World → Type 0 where
  here : Reach B w w
  next : {u v : B.World} → Reach B w u → Step B u v → Reach B w v

-- The confirm button has nothing to do, or one operation that waits for it.
abbrev pub Waits : (B : Browser) → B.World → Type 0
Waits B w =
    (B.handlers "#confirm-btn" w ≡ [])
    ⊎ ((h : Handler) × (is_confirm h ≡ true) × (B.handlers "#confirm-btn" w ≡ h ∷ []))

pub record IsSafe (B : Browser) (w : B.World) : Type 0 where
  pub tidy : (s : String) → IsRebound s → length (B.handlers s w) ≤ 1
  pub waits : Waits B w
  -- no other button does at once what waits for the confirm button
  pub plain :
      (s : String)
      → IsRebound s
      → ("#confirm-btn" === s) ≡ false
      → All (λ h. is_confirm h ≡ false) (B.handlers s w)

confirm_IsRebound : IsRebound "#confirm-btn"
confirm_IsRebound = (refl, refl, refl, refl)

module _ (B : Browser) where
  same-IsSafe :
      (w v : B.World)
      → ((s : String) → IsRebound s → B.handlers s v ≡ B.handlers s w)
      → IsSafe B w
      → IsSafe B v
  same-IsSafe w v same h = record {
    tidy = λ s q. rw (same s q) (h.tidy s q);
    waits = rw (same "#confirm-btn" confirm_IsRebound) h.waits;
    plain = λ s q n. rw (same s q) (h.plain s q n);
  }

  OpensAt-IsSafe : (w v : B.World) → OpensAt B w v → IsSafe B w → IsSafe B v
  OpensAt-IsSafe w v (inl kept) h = same-IsSafe w v (λ s q. kept s) h
  OpensAt-IsSafe w v (inr (o, waiting, bound)) h = record {
    tidy = λ s q. rw (bound s) (ground (arith, h.tidy s q));
    waits = inr (o, waiting, bound "#confirm-btn");
    plain = λ s q n. rw (bound s, n) (h.plain s q n);
  }

  bound_by-le :
      (bs : List (String × Handler)) (s : String) (old : List Handler)
      → length old ≤ 1
      → length (bound_by bs s old) ≤ 1
  bound_by-le [] s old h = h
  bound_by-le ((t, o) ∷ bs) s old h =
      bound_by-le bs s (if t === s then o ∷ [] else old) (ground arith)

  bindings-confirm :
      (p : Page) (old : List Handler) → bound_by (bindings p) "#confirm-btn" old ≡ old
  bindings-confirm Page.index old = refl
  bindings-confirm _ old = refl

  bound_by-plain :
      (bs : List (String × Handler)) (s : String) (old : List Handler)
      → All (λ b. is_confirm b.1 ≡ false) bs
      → All (λ h. is_confirm h ≡ false) old
      → All (λ h. is_confirm h ≡ false) (bound_by bs s old)
  bound_by-plain [] s old hs h = h
  bound_by-plain ((t, o) ∷ bs) s old (ho, hs) h =
      bound_by-plain bs s (if t === s then o ∷ [] else old) hs
        (elim (Bool-cases (t === s)) [ inl same ↦ rw same (ho, tt) | inr other ↦ rw other h ])

  bindings-plain : (p : Page) → All (λ b. is_confirm b.1 ≡ false) (bindings p)
  bindings-plain Page.servers = (refl, (refl, (refl, (refl, (refl, tt)))))
  bindings-plain Page.server = (refl, (refl, (refl, (refl, tt))))
  bindings-plain Page.jobs = (refl, (refl, (refl, (refl, (refl, (refl, (refl, tt)))))))
  bindings-plain Page.job = (refl, (refl, tt))
  bindings-plain Page.reg_center = (refl, (refl, tt))
  bindings-plain Page.data_source = (refl, (refl, tt))
  bindings-plain _ = tt

  load_script-IsSafe : (p : Page) (w : B.World) → IsSafe B w → IsSafe B (load_script B p w)
  load_script-IsSafe p w h = record {
    tidy = λ s q. rw (load_script-handlers B p w s q) (bound_by-le (bindings p) s _ (h.tidy s q));
    waits =
        rw (load_script-handlers B p w "#confirm-btn" confirm_IsRebound, bindings-confirm p)
          h.waits;
    plain = λ s q n.
        rw (load_script-handlers B p w s q)
          (bound_by-plain (bindings p) s _ (bindings-plain p) (h.plain s q n));
  }

  each-run-IsSafe :
      (hs : List Handler) (e : Event) (w : B.World)
      → IsSafe B w
      → IsSafe B (each (λ h. run B h e) hs w)
  each-run-IsSafe [] e w h = h
  each-run-IsSafe (o ∷ hs) e w h =
      each-run-IsSafe hs e (run B o e w) (OpensAt-IsSafe w _ (run-OpensAtMost B o e w) h)

  Step-IsSafe : {w v : B.World} → Step B w v → IsSafe B w → IsSafe B v
  unfolding click
  Step-IsSafe (clicks s e w) h = each-run-IsSafe (B.handlers s w) e w h
  Step-IsSafe (fires o e w) h = OpensAt-IsSafe w _ (run-OpensAtMost B o e w) h
  Step-IsSafe (receives k r w) h = same-IsSafe w _ (answer-KeepsRebound B k r w) h
  Step-IsSafe (loads p w) h = load_script-IsSafe p w h
  Step-IsSafe (idles w v same) h = same-IsSafe w v (λ s q. same s) h

  -- In every run from a safe state, however often pages are loaded and dialogs opened, a button of
  -- the tables has at most one handler, which is no operation that waits for a confirmation, and the
  -- confirm button has no handler or one, which is such an operation.
  pub Reach-IsSafe : {w v : B.World} → Reach B w v → IsSafe B w → IsSafe B v
  Reach-IsSafe here h = h
  Reach-IsSafe (next r st) h = Step-IsSafe st (Reach-IsSafe r h)
