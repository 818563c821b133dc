-- ===== src/Dm/Store.antt =====
-- jobmaster/dm/metadata/state.go and JobStore of job.go: the state of a job, with a copy in memory. What
-- a transaction, a read and the TOML codec answer are arguments; the codec is used on states whose fields
-- are all public. A method that holds ds.mu is one step; Get, which takes it twice, checks again.
-- A transaction that answers an error is taken to have had no effect on the metastore.
pub mod Coherent
use microcosm.Base.{
  String, Bool, true, false, not, Option, none, some, List, [], ◌∷◌, lookup, insert, String_eq,
  if◌then◌else◌,
}
use microcosm.Dm.Runtime.{
  Job, Task, TaskStage, DmError, state_not_found, task_not_found, from_outside,
}

-- The TOML codec: what it encodes, which may fail, and what it decodes.
pub record Codec : Type 0 where
  pub encode : Job → Option String
  pub decode : String → Option Job

-- The copy in memory, and the value of the store's key in the metastore. CreateState is a job without
-- tasks, and decoding writes into it.
pub record TomlStore : Type 0 where
  pub state : Option Job
  pub kept : Option String

pub data Got : Type 0 where
  got : Job → Got
  get_failed : DmError → Got

-- Does a call of the metastore fail?
abbrev pub Fault : Type 0
Fault = Option DmError

module _ (codec : Codec) where
  unfoldable pub put : Fault → Job → TomlStore → TomlStore × Option DmError
  put fault state ds = elim (codec.encode state) [
    | none ↦ (ds, some (from_outside "encode"))
    | some text ↦ elim fault [
      | some e ↦ (ds, some e)
      | none ↦ (record { state = some state; kept = some text }, none)
    ]
  ]

  unfoldable pub delete_state : Fault → TomlStore → TomlStore × Option DmError
  delete_state fault ds = elim ds.state [
    | none ↦ (ds, none)
    | some _ ↦ elim fault [
      | some e ↦ (ds, some e)
      | none ↦ (record { state = none; kept = none }, none)
    ]
  ]

  unfoldable pub clone_state : Job → Got
  clone_state state = elim (codec.encode state) [
    | none ↦ get_failed (from_outside "encode")
    | some text ↦ elim (codec.decode text) [
      | none ↦ get_failed (from_outside "decode")
      | some clone ↦ got clone
    ]
  ]

  -- The state that is read first; `half` is what a decoding that fails has written until then.
  unfoldable pub read_state : Job → String → TomlStore → TomlStore × Got
  read_state half text ds = elim (codec.decode text) [
    | none ↦ (record ds { state = some half }, get_failed (from_outside "decode"))
    | some state ↦ (record ds { state = some state }, clone_state state)
  ]

  unfoldable pub get : Fault → Job → TomlStore → TomlStore × Got
  get fault half ds = elim ds.state [
    | some state ↦ (ds, clone_state state)
    | none ↦ elim fault [
      | some e ↦ (ds, get_failed e)
      | none ↦ elim ds.kept [
        | none ↦ (ds, get_failed state_not_found)
        | some text ↦ read_state half text ds
      ]
    ]
  ]

-- The loop of UpdateStages over the ids: the job, or the id that is missing.
pub data Staged : Type 0 where
  staged : Job → Staged
  missing : String → Staged

unfoldable pub set_stages : List String → TaskStage → Job → Staged
set_stages [] stage job = staged job
set_stages (task_id ∷ rest) stage job = elim (lookup task_id job) [
  | none ↦ missing task_id
  | some t ↦ set_stages rest stage (insert task_id (record t { stage = stage }) job)
]

module _ (codec : Codec) where
  abbrev pub put_staged : Fault → Staged → TomlStore → TomlStore × Option DmError
  put_staged fault (missing task_id) ds = (ds, some (task_not_found task_id))
  put_staged fault (staged job) ds = put codec fault job ds

  abbrev pub then_stages :
      Fault → List String → TaskStage → TomlStore × Got → TomlStore × Option DmError
  then_stages fault task_ids stage (ds, get_failed e) = (ds, some e)
  then_stages fault task_ids stage (ds, got job) =
      put_staged fault (set_stages task_ids stage job) ds

  unfoldable pub update_stages :
      Fault → Fault → Job → List String → TaskStage → TomlStore → TomlStore × Option DmError
  update_stages reading writing half task_ids stage ds =
      then_stages writing task_ids stage (get codec reading half ds)
