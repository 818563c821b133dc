-- ===== src/Dm/Tests/Stores.antt =====
-- The job store and the ticker, on a job with one task.
use microcosm.Base.{none, some, [], ◌∷◌, ◌≡◌, ◌≢◌, refl, String_eq}
use microcosm.Dm.Runtime.{stage_running, stage_paused}
use microcosm.Dm.Store.{TomlStore, got, get, put, delete_state, update_stages}
use microcosm.Dm.Store.Coherent.{
  IsCoherent, Keeps, StagesSet, get-put, get-delete_state_unread, update_stages-StagesSet,
}
use microcosm.Dm.Tests.{one_task, one_task_codec, one_task_codec-RoundTrips}

-- A store that has read nothing; the metastore has the job.
abbrev unread : TomlStore
unread = record { state = none; kept = some "running" }

unread-IsCoherent : IsCoherent one_task_codec unread
unread-IsCoherent job q = absurd (cc)

kept : Keeps one_task_codec unread (one_task stage_running)
kept = ("running", refl, refl)

get-put_example :
    IsCoherent one_task_codec (put one_task_codec none (one_task stage_paused) unread).0
    × ((put one_task_codec none (one_task stage_paused) unread).1 ≡ none
        → (get one_task_codec none [] (put one_task_codec none (one_task stage_paused) unread).0).1
          ≡ got (one_task stage_paused))
    × ((put one_task_codec none (one_task stage_paused) unread).1 ≢ none
        → (put one_task_codec none (one_task stage_paused) unread).0 ≡ unread)
get-put_example =
    get-put one_task_codec one_task_codec-RoundTrips none [] (one_task stage_paused) unread
      unread-IsCoherent

get-delete_state_unread_example :
    ((delete_state one_task_codec none unread).1 ≡ none)
    × ((get one_task_codec none [] (delete_state one_task_codec none unread).0).1
        ≡ got (one_task stage_running))
get-delete_state_unread_example =
    get-delete_state_unread one_task_codec one_task_codec-RoundTrips none []
      (one_task stage_running) unread refl kept

update_stages-StagesSet_example :
    StagesSet one_task_codec one_task_codec-RoundTrips
      ("t1" ∷ [])
      stage_paused
      (one_task stage_running)
      unread
      (update_stages one_task_codec none none [] ("t1" ∷ []) stage_paused unread)
update_stages-StagesSet_example =
    update_stages-StagesSet one_task_codec one_task_codec-RoundTrips none []
      (one_task stage_running) ("t1" ∷ []) stage_paused unread unread-IsCoherent kept
