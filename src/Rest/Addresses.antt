-- ===== src/Rest/Addresses.antt =====
-- The addresses of the operations, as the scripts put them together.
use text.Mathlib.TextLemmas.{append_assoc}
use elastic_job_lite.Prelude.{String, ◌≡◌, ap, sym, ◌∙◌, List, [], ◌∷◌, ◌<>◌}
use elastic_job_lite.Rest.Url.{path, append_nil}
use elastic_job_lite.Rest
use elastic_job_lite.Rest.Served.{url_of}

-- The parts of an address that the scripts write as one text.
two_words :
    (u v : String) (ss : List String) → path (u ∷ v ∷ ss) ≡ ("/" <> u <> "/") <> v <> path ss
two_words u v ss = sym (
    append_assoc "/" (u <> "/") (v <> path ss)
    ∙ ap (λ t. "/" <> t) (append_assoc u "/" (v <> path ss)))

three_words :
    (u v s : String) (ss : List String)
    → path (u ∷ v ∷ s ∷ ss) ≡ ("/" <> u <> "/" <> v <> "/") <> s <> path ss
three_words u v s ss = simp append_assoc

pub job_url :
    (j s : String) → path ("api" ∷ "jobs" ∷ j ∷ s ∷ []) ≡ "/api/jobs/" <> j <> path (s ∷ [])
job_url j s = three_words "api" "jobs" j (s ∷ [])

one_word : (j : String) → path (j ∷ []) ≡ "/" <> j
one_word j = ap (λ t. "/" <> t) (append_nil j)

pub removal_url : (j : String) → url_of (Rest.remove_job j) ≡ "/api/jobs/config/" <> j
removal_url j =
    three_words "api" "jobs" "config" (j ∷ [])
    ∙ sym (append_assoc "/api/jobs/" "config" (path (j ∷ [])))
    ∙ ap (λ t. "/api/jobs/config" <> t) (one_word j)
    ∙ sym (append_assoc "/api/jobs/config" "/" j)

pub sharding_url :
    (j i s : String)
    → path ("api" ∷ "jobs" ∷ j ∷ "sharding" ∷ i ∷ s ∷ [])
      ≡ "/api/jobs/" <> j <> "/sharding/" <> i <> path (s ∷ [])
sharding_url j i s =
    three_words "api" "jobs" j ("sharding" ∷ i ∷ s ∷ [])
    ∙ ap (λ t. "/api/jobs/" <> j <> t) (two_words "sharding" i (s ∷ []))

pub server_url :
    (ip : String) (ss : List String)
    → path ("api" ∷ "servers" ∷ ip ∷ ss) ≡ "/api/servers/" <> ip <> path ss
server_url ip ss = three_words "api" "servers" ip ss

pub server_job_url :
    (ip j : String) (ss : List String)
    → path ("api" ∷ "servers" ∷ ip ∷ "jobs" ∷ j ∷ ss)
      ≡ "/api/servers/" <> ip <> "/jobs/" <> j <> path ss
server_job_url ip j ss =
    server_url ip ("jobs" ∷ j ∷ ss) ∙ ap (λ t. "/api/servers/" <> ip <> t) (two_words "jobs" j ss)
