-- ===== src/ExternalResource.antt =====
-- pkg/externalresource/manager/service.go, the path of a resource in resourcemeta/model/model.go, and
-- the resource operations of pkg/orm/client.go. The table is its rows, in the order of their keys; what
-- else a query of gorm may answer, and what PreRPC answers, are arguments.
pub mod Rows
pub mod Placing
mod Tests
use microcosm.Base.{
  ℕ, suc, String, Bool, true, false, not, Option, none, some, List, [], ◌∷◌, ◌++◌, ◌==◌, String_eq,
  if◌then◌else◌, eqb, ltb, Outcome, returns, panics, Text, slash, split, path_join, text_of,
}
use microcosm.ServerMaster.Scheduler.{
  Placement, constrained, unconstrained, placement_error, resource_does_not_exist, other_error,
}

pub data ResourceType : Type 0 where
  local_file s3 : ResourceType

abbrev local_segment : Text
local_segment = text_of "local"

abbrev s3_segment : Text
s3_segment = text_of "s3"

abbrev pub same_text : Text → Text → Bool
same_text [] [] = true
same_text (c ∷ s) (d ∷ t) = let rest = same_text s t in if eqb c d then rest else false
same_text _ _ = false

abbrev pub of_segments : List Text → Option (ResourceType × Text)
of_segments [] = none
of_segments (tp ∷ rest) =
    if same_text tp local_segment
    then some (local_file, path_join rest)
    else if same_text tp s3_segment
    then some (s3, path_join rest)
    else none

-- ParseResourcePath, where `none` is ErrIllegalResourcePath.
unfoldable pub parse_resource_path : Text → Option (ResourceType × Text)
parse_resource_path [] = none
parse_resource_path (c ∷ rpath) = if eqb c slash then of_segments (split rpath) else none

pub record ResourceMeta : Type 0 where
  pub id : String
  pub job : String
  pub worker : String
  pub executor : String
  pub deleted : Bool

abbrev pub Table : Type 0
Table = List ResourceMeta

-- The first row with the id.
unfoldable pub find : String → Table → Option ResourceMeta
find id [] = none
find id (m ∷ t) = if m.id == id then some m else find id t

unfoldable pub count : String → Table → ℕ
count id [] = 0
count id (m ∷ t) = let rest = count id t in if m.id == id then suc rest else rest

unfoldable pub delete_rows : String → Table → Table
delete_rows id [] = []
delete_rows id (m ∷ t) = let rest = delete_rows id t in if m.id == id then rest else m ∷ rest

pub data MetaError : Type 0 where
  not_found duplicate_resource_id : MetaError
  meta_op_fail : String → MetaError

pub data Got (A : Type 0) : Type 0 where
  got : A → Got A
  failed : MetaError → Got A

abbrev pub found : Option ResourceMeta → Got ResourceMeta
found none = failed not_found
found (some m) = got m

-- metaOpsClient.GetResourceByID; `fault` is an error of the query.
unfoldable pub get_resource_by_id : Option String → String → Table → Got ResourceMeta
get_resource_by_id (some e) id t = failed (meta_op_fail e)
get_resource_by_id none id t = found (find id t)

-- metaOpsClient.CreateResource, a transaction of a count and an insertion.
unfoldable pub insert_resource :
    Option String → Option String → ResourceMeta → Table → Table × Option MetaError
insert_resource (some e) inserting m t = (t, some (meta_op_fail e))
insert_resource none inserting m t =
    if ltb 0 (count m.id t)
    then (t, some duplicate_resource_id)
    else elim inserting [ some e ↦ (t, some (meta_op_fail e)) | none ↦ (t ++ m ∷ [], none) ]

-- metaOpsClient.DeleteResource, with RowsAffected.
unfoldable pub delete_resource : Option String → String → Table → Table × Got ℕ
delete_resource (some e) id t = (t, failed (meta_op_fail e))
delete_resource none id t = (delete_rows id t, got (count id t))

-- grpc's codes.
pub data Code : Type 0 where
  not_found aborted already_exists unknown invalid_argument : Code

pub data Answer (A : Type 0) : Type 0 where
  answer : A → Answer A
  refuse : Code → Answer A

pub record QueryResourceResponse : Type 0 where
  pub creator_executor : String
  pub job_id : String
  pub creator_worker_id : String

abbrev pub to_query_resource_response : ResourceMeta → QueryResourceResponse
to_query_resource_response m = record {
  creator_executor = m.executor;
  job_id = m.job;
  creator_worker_id = m.worker;
}

abbrev pub queried : Got ResourceMeta → Answer QueryResourceResponse
queried (failed MetaError.not_found) = refuse Code.not_found
queried (failed _) = refuse aborted
queried (got m) = if m.deleted then refuse Code.not_found else answer (to_query_resource_response m)

-- `hook` is what PreRPC has the call return at once.
unfoldable pub query_resource :
    Option (Answer QueryResourceResponse)
    → Option String
    → String
    → Table
    → Answer QueryResourceResponse
query_resource (some a) fault id t = a
query_resource none fault id t = queried (get_resource_by_id fault id t)

pub record CreateResourceRequest : Type 0 where
  pub resource_id : String
  pub job_id : String
  pub creator_worker_id : String
  pub creator_executor : String

abbrev pub meta_of : CreateResourceRequest → ResourceMeta
meta_of r = record {
  id = r.resource_id;
  job = r.job_id;
  worker = r.creator_worker_id;
  executor = r.creator_executor;
  deleted = false;
}

abbrev pub inserted : Table × Option MetaError → Table × Answer Unit
inserted (t, none) = (t, answer tt)
inserted (t, some duplicate_resource_id) = (t, refuse already_exists)
inserted (t, some _) = (t, refuse unknown)

unfoldable pub create_resource :
    Option (Answer Unit)
    → Option String
    → Option String
    → CreateResourceRequest
    → Table
    → Table × Answer Unit
create_resource (some a) counting inserting r t = (t, a)
create_resource none counting inserting r t =
    inserted (insert_resource counting inserting (meta_of r) t)

-- More than one affected row is a panic.
abbrev pub removed : Table × Got ℕ → Outcome (Table × Answer Unit)
removed (t, failed e) = returns (t, refuse aborted)
removed (t, got rows) =
    if eqb rows 0
    then returns (t, refuse Code.not_found)
    else if ltb 1 rows
    then panics
    else returns (t, answer tt)

unfoldable pub remove_resource :
    Option (Answer Unit) → Option String → String → Table → Outcome (Table × Answer Unit)
remove_resource (some a) fault id t = returns (t, a)
remove_resource none fault id t =
    if id == "" then returns (t, refuse invalid_argument) else removed (delete_resource fault id t)

abbrev pub placed_at : (String → Bool) → String → Got ResourceMeta → Placement
placed_at has_executor id (failed MetaError.not_found) =
    placement_error (resource_does_not_exist id)
placed_at has_executor id (failed duplicate_resource_id) = placement_error (other_error "duplicate")
placed_at has_executor id (failed (meta_op_fail e)) = placement_error (other_error e)
placed_at has_executor id (got m) =
    if m.deleted
    then placement_error (resource_does_not_exist id)
    else if not (has_executor m.executor)
    then placement_error (resource_does_not_exist id)
    else constrained m.executor

abbrev pub constraint_of :
    (String → Bool) → Option String → String → Table → ResourceType → Placement
constraint_of has_executor fault id t s3 = unconstrained
constraint_of has_executor fault id t local_file =
    placed_at has_executor id (get_resource_by_id fault id t)

-- The query of a resource may fail.
unfoldable pub get_placement_constraint :
    (String → Bool) → (String → Option String) → Table → String → Placement
get_placement_constraint has_executor fault t id = elim (parse_resource_path (text_of id)) [
  | none ↦ placement_error (other_error "ErrIllegalResourcePath")
  | some (tp, _) ↦ constraint_of has_executor (fault id) id t tp
]
