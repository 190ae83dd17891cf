-- ===== src/Statistics/OnServer.antt =====
-- The status of a job on one server, after an operation.
use elastic_job_lite.Prelude.{String, ◌≡◌, refl, Bool, true, false, Option, some, if◌then◌else◌}
use elastic_job_lite.Registry.{Registry}
use elastic_job_lite.Operations.{returned, server_node_path, disable_or_enable_jobs}
use elastic_job_lite.Operations.Servers.{mark, names_server, IsGiven, disable_or_enable_jobs-look}
use elastic_job_lite.Statistics.Jobs.{
  ok, disabled, is_disabled_text, get_job_status_by_job_name_and_ip,
}

module _ (R : Registry) where
  open R use {World, look}

  marked_status :
      (j i : String) (named d : Bool) (w w' : World)
      → look (server_node_path j i) w'
        ≡ (if named then some (mark d) else look (server_node_path j i) w)
      → get_job_status_by_job_name_and_ip R j i w' ≡ (
          if named then (if d then disabled else ok) else get_job_status_by_job_name_and_ip R j i w)
  unfolding get_job_status_by_job_name_and_ip is_disabled_text
  marked_status j i true true w w' h = rw (get_job_status_by_job_name_and_ip, h) refl
  marked_status j i true false w w' h = rw (get_job_status_by_job_name_and_ip, h) refl
  marked_status j i false d w w' h = rw (get_job_status_by_job_name_and_ip, h) refl

  -- Given a job or an ip, the table of each server shows the jobs that these name as disabled or as
  -- enabled, as was asked, and the others as before.
  get_job_status_by_job_name_and_ip-disable_or_enable_jobs :
      (job ip : Option String) (d : Bool) (w : World)
      → IsGiven job ip
      → (w' : World) × (disable_or_enable_jobs R job ip d w ≡ returned w')
        × ((j i : String)
            → get_job_status_by_job_name_and_ip R j i w' ≡ (
                if names_server R job ip w j i
                then (if d then disabled else ok)
                else get_job_status_by_job_name_and_ip R j i w))
  get_job_status_by_job_name_and_ip-disable_or_enable_jobs job ip d w given =
      let (w', e, f, g) = disable_or_enable_jobs-look R job ip d w given in
      (w', e, λ j i. marked_status j i (names_server R job ip w j i) d w w' (f j i))
