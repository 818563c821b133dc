-- ===== src/Dm/Tests.antt =====
-- A job with one task, and its job master.
mod Stores
mod Managers
mod JobMasters
use microcosm.Base.{
  ℕ, String, Bool, true, false, ◌&&◌, Option, none, some, List, [], ◌∷◌, ◌≡◌, refl, sym, ap, ◌∙◌,
  Bool-cases, ◌⊎◌, inl, inr, String_eq, ◌==◌, eq_iff, if◌then◌else◌, arith,
}
use microcosm.Dm.Runtime.{
  Job, Task, TaskCfg, TaskMode, mode_all, mode_full, mode_increment, other_mode, TaskStage,
  stage_init, stage_running, stage_paused, stage_finished, stage_unscheduled,
}
use microcosm.Dm.Store.{Codec}
use microcosm.Dm.Store.Coherent.{RoundTrips}

abbrev pub task_with : String → String → TaskMode → TaskStage → Task
task_with name source_id mode stage = record {
  cfg = record { name = name; task_mode = mode; source_id = source_id };
  stage = stage;
}

abbrev pub one_task : TaskStage → Job
one_task stage = ("t1", task_with "job" "t1" mode_full stage) ∷ []

abbrev is_full : TaskMode → Bool
is_full mode_full = true
is_full _ = false

is_full_lem : (m : TaskMode) → is_full m ≡ true → m ≡ mode_full
is_full_lem mode_full h = refl
is_full_lem mode_all h = absurd (cc)
is_full_lem mode_increment h = absurd (cc)
is_full_lem (other_mode s) h = absurd (cc)

abbrev stage_text : TaskStage → String
stage_text stage_init = "init"
stage_text stage_running = "running"
stage_text stage_paused = "paused"
stage_text stage_finished = "finished"
stage_text stage_unscheduled = "unscheduled"

abbrev stage_of : String → TaskStage
stage_of text =
    if text == "init"
    then stage_init
    else if text == "running"
    then stage_running
    else if text == "paused"
    then stage_paused
    else if text == "finished"
    then stage_finished
    else stage_unscheduled

stage_of_text : (st : TaskStage) → stage_of (stage_text st) ≡ st
stage_of_text stage_init = refl
stage_of_text stage_running = refl
stage_of_text stage_paused = refl
stage_of_text stage_finished = refl
stage_of_text stage_unscheduled = refl

abbrev is_one_task : String → Task → Bool
is_one_task id t =
    id == "t1" && (t.cfg.name == "job" && (t.cfg.source_id == "t1" && is_full t.cfg.task_mode))

abbrev encode_one : Job → Option String
encode_one [] = none
encode_one ((id, t) ∷ []) = if is_one_task id t then some (stage_text t.stage) else none
encode_one (_ ∷ _ ∷ _) = none

-- A codec that knows the jobs with the one task.
abbrev pub one_task_codec : Codec
one_task_codec = record { encode = encode_one; decode = λ text. some (one_task (stage_of text)) }

same_job : (id : String) (t : Task) → is_one_task id t ≡ true → one_task t.stage ≡ (id, t) ∷ []
same_job id t h =
    let at_id : id ≡ "t1" = ground (arith, h, eq_iff id "t1") in
    let at_name : t.cfg.name ≡ "job" = ground (arith, h, eq_iff t.cfg.name "job") in
    let at_source : t.cfg.source_id ≡ "t1" = ground (arith, h, eq_iff t.cfg.source_id "t1") in
    let at_mode : t.cfg.task_mode ≡ mode_full = is_full_lem t.cfg.task_mode (ground (arith, h)) in
    ap (λ x. (x, task_with "job" "t1" mode_full t.stage) ∷ []) (sym at_id)
    ∙ ap (λ x. (id, task_with x "t1" mode_full t.stage) ∷ []) (sym at_name)
    ∙ ap (λ x. (id, task_with t.cfg.name x mode_full t.stage) ∷ []) (sym at_source)
    ∙ ap (λ x. (id, task_with t.cfg.name t.cfg.source_id x t.stage) ∷ []) (sym at_mode)

pub one_task_codec-RoundTrips : RoundTrips one_task_codec
one_task_codec-RoundTrips [] text h = absurd (cc)
one_task_codec-RoundTrips ((id, t) ∷ []) text h = elim (Bool-cases (is_one_task id t)) [
  | inl q ↦
      let same_text : stage_text t.stage ≡ text = ground (arith, q, h) in
      ap (λ x. some (one_task (stage_of x))) (sym same_text)
      ∙ ap (λ st. some (one_task st)) (stage_of_text t.stage)
      ∙ ap (λ j. some j) (same_job id t q)
  | inr q ↦ absurd (ground (arith, q, h))
]
one_task_codec-RoundTrips (_ ∷ _ ∷ _) text h = absurd (cc)
