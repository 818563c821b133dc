-- ===== src/ExternalResource/Tests.antt =====
-- Resources of one executor.
use microcosm.Base.{String, false, none, Option, List, [], ◌∷◌, refl, pos, Returns, String_eq}
use microcosm.ServerMaster.Resource.{running, register}
use microcosm.ServerMaster.ExecutorManager.{ExecutorManager}
use microcosm.ServerMaster.Scheduler.{SchedulerRequest, schedule_task}
use microcosm.ServerMaster.Scheduler.Capacity.{provider}
use microcosm.ServerMaster.Scheduler.Cost.{Shuffles}
use microcosm.ExternalResource.{Table, CreateResourceRequest, remove_resource, find}
use microcosm.ExternalResource.Rows.{IsTable, Removed, remove_resource-Removed}
use microcosm.ExternalResource.Placing.{place, Scheduled, schedule_task-Scheduled}

abbrev creation : CreateResourceRequest
creation = record {
  resource_id = "/local/b";
  job_id = "j";
  creator_worker_id = "w";
  creator_executor = "x";
}

abbrev stored : Table
stored = record { id = "/local/a"; job = "j"; worker = "w"; executor = "x"; deleted = false } ∷ []

stored-IsTable : IsTable stored
unfolding find
stored-IsTable = (refl, tt)

remove_resource-Removed_example :
    Returns (remove_resource none none "/local/a" stored) (Removed "/local/a" stored)
remove_resource-Removed_example = remove_resource-Removed none "/local/a" stored stored-IsTable

abbrev cluster : ExecutorManager
cluster = record {
  executors =
      (
        "x",
        record {
          info = record { id = "x"; addr = "x:1"; capability = pos 90 };
          status = running;
          last_update_time = 0;
          heartbeat_ttl = 10;
        },
      )
      ∷ [];
  init_heartbeat_ttl = 10;
  resc_mgr = register "x" "x:1" (pos 90) [];
}

abbrev no_fault : String → Option String
no_fault id = none

abbrev unshuffled : List String → List String
unshuffled ids = ids

unshuffled-Shuffles : Shuffles unshuffled
unshuffled-Shuffles ids x = refl

abbrev request : SchedulerRequest
request = record { tenant_id = "t"; cost = pos 50; external_resources = "/local/a" ∷ [] }

schedule_task-Scheduled_example :
    Returns
      (schedule_task unshuffled (provider cluster.resc_mgr) (place cluster no_fault stored) request)
      (Scheduled cluster no_fault stored request)
schedule_task-Scheduled_example =
    schedule_task-Scheduled cluster no_fault stored unshuffled request unshuffled-Shuffles
