-- ===== src/Browser/Requests.antt =====
-- The requests among the calls.
use elastic_job_lite.Prelude.{String, ◌≡◌, refl, List, [], ◌∷◌, ◌++◌}
use elastic_job_lite.Browser.{Browser}
use elastic_job_lite.Browser.Closures.{Success}
use elastic_job_lite.Browser.Calls.{Call, Request, ajax, get_sync}

-- Every request that does not block, with what runs on its answer.
unfoldable pub requests : List Call → List (Request × Success)
requests [] = []
requests (ajax r k ∷ cs) = (r, k) ∷ requests cs
requests (_ ∷ cs) = requests cs

-- Every request that blocks: the urls of the GETs with `async: false`.
unfoldable pub reads : List Call → List String
reads [] = []
reads (get_sync url ∷ cs) = url ∷ reads cs
reads (_ ∷ cs) = reads cs

requests-append : (cs ds : List Call) → requests (cs ++ ds) ≡ requests cs ++ requests ds
unfolding requests
requests-append [] ds = refl
requests-append (ajax r k ∷ cs) ds = rw (requests-append cs ds)
requests-append (_ ∷ cs) ds = requests-append cs ds

pub exec-requests :
    (B : Browser) (c : Call) (w : B.World)
    → requests (B.calls (B.exec c w)) ≡ requests (B.calls w) ++ requests (c ∷ [])
exec-requests B c w = rw B.calls-exec (requests-append (B.calls w) (c ∷ []))

reads-append : (cs ds : List Call) → reads (cs ++ ds) ≡ reads cs ++ reads ds
unfolding reads
reads-append [] ds = refl
reads-append (get_sync url ∷ cs) ds = rw (reads-append cs ds)
reads-append (_ ∷ cs) ds = reads-append cs ds

pub exec-reads :
    (B : Browser) (c : Call) (w : B.World)
    → reads (B.calls (B.exec c w)) ≡ reads (B.calls w) ++ reads (c ∷ [])
exec-reads B c w = rw B.calls-exec (reads-append (B.calls w) (c ∷ []))
