-- ===== src/ServerMaster/Resource.antt =====
-- servermaster/resource/ and servermaster/scheduler/model/capacity.go: the capacity of each executor.
-- A method of CapRescMgr holds the lock from its first to its last line.
use microcosm.Base.{
  String, Option, none, some, [], ◌∷◌, Map, lookup, insert, delete, String_eq, if◌then◌else◌, ℤ,
  pos, ltℤ, sub64,
}

-- model.ExecutorStatus.
pub data ExecutorStatus : Type 0 where
  initing running disconnected tombstone : ExecutorStatus

pub record ExecutorResource : Type 0 where
  pub id : String
  pub status : ExecutorStatus
  pub capacity : ℤ
  pub reserved : ℤ
  pub used : ℤ
  pub addr : String

pub record ExecutorResourceStatus : Type 0 where
  pub capacity : ℤ
  pub reserved : ℤ
  pub used : ℤ

unfoldable pub remaining : ExecutorResourceStatus → ℤ
remaining s = if ltℤ s.reserved s.used then sub64 s.capacity s.used else sub64 s.capacity s.reserved

pub data RescError : Type 0 where
  unknown_executor_id : String → RescError

abbrev pub CapRescMgr : Type 0
CapRescMgr = Map String ExecutorResource

unfoldable pub register : String → String → ℤ → CapRescMgr → CapRescMgr
register id addr capacity m =
    insert id
      (record {
        id = id;
        status = initing;
        capacity = capacity;
        reserved = pos 0;
        used = pos 0;
        addr = addr;
      })
      m

unfoldable pub unregister : String → CapRescMgr → CapRescMgr
unregister id m = delete id m

unfoldable pub update : String → ℤ → ℤ → ExecutorStatus → CapRescMgr → CapRescMgr × Option RescError
update id used reserved status m = elim (lookup id m) [
  | none ↦ (m, some (unknown_executor_id id))
  | some exec ↦
      (insert id (record exec { used = used; reserved = reserved; status = status }) m, none)
]

abbrev pub status_of : ExecutorResource → ExecutorResourceStatus
status_of resc = record { capacity = resc.capacity; reserved = resc.reserved; used = resc.used }

unfoldable pub capacities_for_all_executors : CapRescMgr → Map String ExecutorResourceStatus
capacities_for_all_executors [] = []
capacities_for_all_executors ((id, resc) ∷ m) =
    (id, status_of resc) ∷ capacities_for_all_executors m

unfoldable pub capacity_for_executor : String → CapRescMgr → Option ExecutorResourceStatus
capacity_for_executor executor m = elim (lookup executor m) [
  | none ↦ none
  | some resc ↦ some (status_of resc)
]
