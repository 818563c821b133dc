-- ===== src/Dm/Store/Coherent.antt =====
-- The job store against the job that is in the metastore.
use microcosm.Base.{
  String, Option, none, some, List, [], ◌∷◌, ◌≡◌, ◌≢◌, refl, sym, ◌∙◌, subst, ap, arith, Bool,
  false, ◌||◌, ◌==◌, String_eq, eq_iff, lookup, insert, lookup-insert, if◌then◌else◌, Option-cases,
  inl, inr,
}
use mathlib.Core.Option
use microcosm.Dm.Runtime.{Job, Task, TaskStage, DmError}
use microcosm.Dm.Store.{
  Codec, TomlStore, Fault, got, put, delete_state, clone_state, read_state, get, Staged, staged,
  missing, set_stages, put_staged, then_stages, update_stages,
}

-- What the TOML codec does: what is encoded is decoded again.
abbrev pub RoundTrips : Codec → Type 0
RoundTrips codec =
    (job : Job) (text : String) → codec.encode job ≡ some text → codec.decode text ≡ some job

module _ (codec : Codec) where
  -- The metastore has the job.
  abbrev pub Keeps : TomlStore → Job → Type 0
  Keeps ds job = (text : String) × (ds.kept ≡ some text) × (codec.encode job ≡ some text)

  -- The copy in memory, if there is one, is the job of the metastore.
  abbrev pub IsCoherent : TomlStore → Type 0
  IsCoherent ds = (job : Job) → ds.state ≡ some job → Keeps ds job

  -- A Put that succeeds makes the job the one of the metastore, and of the copy in memory; one that
  -- fails changes nothing.
  abbrev pub WasPut : Job → TomlStore → TomlStore × Option DmError → Type 0
  WasPut job ds (ds', none) = IsCoherent ds' × Keeps ds' job
  WasPut job ds (ds', some e) = ds' ≡ ds

module _ (codec : Codec) (trips : RoundTrips codec) where
  clone_state_lem :
      (job : Job) (text : String) → codec.encode job ≡ some text → clone_state codec job ≡ got job
  unfolding clone_state
  clone_state_lem job text q = let back = trips job text q in ground (arith, q, back)

  Keeps-unique : (ds : TomlStore) (a b : Job) → Keeps codec ds a → Keeps codec ds b → a ≡ b
  Keeps-unique ds a b (s, p, q) (t, p', q') = let ja = trips a s q in let jb = trips b t q' in cc

  -- What a Get that reaches the metastore answers.
  pub get-Keeps :
      (half job : Job) (ds : TomlStore)
      → IsCoherent codec ds
      → Keeps codec ds job
      → get codec none half ds ≡ (record ds { state = some job }, got job)
  unfolding get read_state
  get-Keeps half job ds co k = elim (Option-cases ds.state) [
    | inr (j, q) ↦
        let same = Keeps-unique ds j job (co j q) k in
        let (text, _, encodes) = k in
        let clone = clone_state_lem job text encodes in ground (arith, q, same, clone)
    | inl q ↦
        let (text, there, encodes) = k in
        let clone = clone_state_lem job text encodes in
        let back = trips job text encodes in ground (arith, q, there, clone, back)
  ]

  put-WasPut :
      (fault : Fault) (job : Job) (ds : TomlStore) → WasPut codec job ds (put codec fault job ds)
  unfolding put
  put-WasPut fault job ds = elim (Option-cases (codec.encode job)) [
    | inl q ↦ rw (put, q) refl
    | inr (text, q) ↦ elim (Option-cases fault) [
      | inr (e, f) ↦ rw (put, q, f) refl
      | inl f ↦ rw (put, q, f) (λ j p. (text, refl, cc), (text, refl, q))
    ]
  ]

  -- With a codec that decodes what it encodes, and a store whose copy in memory is the job of the
  -- metastore, if it has one: after a Put that succeeds Get answers the job that was put, one that fails
  -- changes nothing, where a transaction that fails has no effect, and the copy agrees with the metastore
  -- in any case.
  pub get-put :
      (fault : Fault) (half job : Job) (ds : TomlStore)
      → IsCoherent codec ds
      → IsCoherent codec (put codec fault job ds).0
        × ((put codec fault job ds).1 ≡ none
            → (get codec none half (put codec fault job ds).0).1 ≡ got job)
        × ((put codec fault job ds).1 ≢ none → (put codec fault job ds).0 ≡ ds)
  get-put fault half job ds co = by_result (put codec fault job ds) (put-WasPut fault job ds)
    where
      by_result :
          (r : TomlStore × Option DmError)
          → WasPut codec job ds r
          → IsCoherent codec r.0
            × (r.1 ≡ none → (get codec none half r.0).1 ≡ got job)
            × (r.1 ≢ none → r.0 ≡ ds)
      by_result (ds', none) (co', k) =
          (co', λ e. ap (λ r. r.1) (get-Keeps half job ds' co' k), λ n. absurd (n refl))
      by_result (ds', some e) same =
          (subst (IsCoherent codec) (sym same) co, λ n. absurd (cc), λ n. same)

  -- A deletion on a store that has read nothing yet answers that there is no error, and the job stays:
  -- a Get that follows answers it.
  pub get-delete_state_unread :
      (fault : Fault) (half job : Job) (ds : TomlStore)
      → ds.state ≡ none
      → Keeps codec ds job
      → ((delete_state codec fault ds).1 ≡ none)
        × ((get codec none half (delete_state codec fault ds).0).1 ≡ got job)
  unfolding delete_state
  get-delete_state_unread fault half job ds q k =
      let co : IsCoherent codec ds = λ j p. absurd (cc) in
      let same : delete_state codec fault ds ≡ (ds, none) = ground (arith, q) in
      (
        ap (λ r. r.1) same,
        ap (λ r. (get codec none half r.0).1) same ∙ ap (λ r. r.1) (get-Keeps half job ds co k),
      )

abbrev pub is_in : String → List String → Bool
is_in id [] = false
is_in id (x ∷ xs) = (x == id) || is_in id xs

abbrev pub with_stage : TaskStage → Task → Task
with_stage stage t = record t { stage = stage }

-- Each named task gets the stage, the others stay.
abbrev pub Sets : List String → TaskStage → Job → Job → Type 0
Sets ids stage job job' =
    (id : String)
    → lookup id job'
      ≡ (if is_in id ids then Option.map (with_stage stage) (lookup id job) else lookup id job)

set_stages-Sets :
    (ids : List String) (stage : TaskStage) (job job' : Job)
    → set_stages ids stage job ≡ staged job'
    → Sets ids stage job job'
unfolding set_stages
set_stages-Sets [] stage job job' h id = let same : job ≡ job' = cc in ap (lookup id) (sym same)
set_stages-Sets (x ∷ xs) stage job job' h id = elim (Option-cases (lookup x job)) [
  | inl gone ↦ absurd (ground (arith, gone, h))
  | inr (t, held) ↦
      let rest : set_stages xs stage (insert x (with_stage stage t) job) ≡ staged job' =
        ground (arith, held, h) in
      let ih = set_stages-Sets xs stage (insert x (with_stage stage t) job) job' rest id in
      let at_x = lookup-insert x id (with_stage stage t) job in staged_at x id t held ih at_x
]
  where
    staged_at :
        (x id : String) (t : Task)
        → lookup x job ≡ some t
        → lookup id job' ≡ (
            if is_in id xs
            then Option.map (with_stage stage) (lookup id (insert x (with_stage stage t) job))
            else lookup id (insert x (with_stage stage t) job))
        → lookup id (insert x (with_stage stage t) job)
          ≡ (if x == id then some (with_stage stage t) else lookup id job)
        → lookup id job' ≡ (
            if (x == id) || is_in id xs
            then Option.map (with_stage stage) (lookup id job)
            else lookup id job)
    staged_at x id t held ih at_x = ground (arith, eq_iff x id)

module _ (codec : Codec) (trips : RoundTrips codec) where
  abbrev pub StagesSet :
      List String → TaskStage → Job → TomlStore → TomlStore × Option DmError → Type 0
  StagesSet ids stage job ds (ds', some e) = ds'.kept ≡ ds.kept
  StagesSet ids stage job ds (ds', none) =
      IsCoherent codec ds' × ((job' : Job) × Keeps codec ds' job' × Sets ids stage job job')

  put_staged-StagesSet :
      (fault : Fault) (ids : List String) (stage : TaskStage) (job : Job) (ds : TomlStore)
      (o : Staged)
      → set_stages ids stage job ≡ o
      → StagesSet ids stage job ds (put_staged codec fault o ds)
  put_staged-StagesSet fault ids stage job ds (missing id) q = refl
  put_staged-StagesSet fault ids stage job ds (staged job') q =
      by_result (put codec fault job' ds) (put-WasPut codec trips fault job' ds)
    where
      by_result :
          (r : TomlStore × Option DmError) → WasPut codec job' ds r → StagesSet ids stage job ds r
      by_result (ds', some e) same = ap (λ d. d.kept) same
      by_result (ds', none) (co, k) = (co, (job', k, set_stages-Sets ids stage job job' q))

  -- UpdateStages on a job store that agrees with the metastore, whose reading does not fail: without an
  -- error the job of the metastore is the one before with the stage of each named task set and all else
  -- kept; with an error the metastore is as before, where a transaction that fails has no effect.
  pub update_stages-StagesSet :
      (writing : Fault) (half job : Job) (ids : List String) (stage : TaskStage) (ds : TomlStore)
      → IsCoherent codec ds
      → Keeps codec ds job
      → StagesSet ids stage job ds (update_stages codec none writing half ids stage ds)
  unfolding update_stages
  update_stages-StagesSet writing half job ids stage ds co k =
      subst (λ r. StagesSet ids stage job ds (then_stages codec writing ids stage r))
        (sym (get-Keeps codec trips half job ds co k))
        (put_staged-StagesSet writing ids stage job (record ds { state = some job })
          (set_stages ids stage job) refl)
