-- ===== src/Dm/JobMaster/Init.antt =====
-- The job master after createComponents.
use microcosm.Base.{
  ℕ, String, Bool, true, false, Option, none, some, List, [], ◌∷◌, ◌++◌, ◌≡◌, refl, ap, ◌∙◌, sym,
  subst, Bool-cases, Option-cases, Map, IsMap, lookup, insert, lookup-insert, insert-IsMap,
  String_eq, ◌==◌, eq_iff, if◌then◌else◌, ◌⊎◌, inl, inr, arith,
}
use microcosm.Dm.Runtime.{TaskStatus, unmarshal_task_status, WorkerStatus, worker_online}
use microcosm.Dm.WorkerManager.{update_worker_status, new_statuses}
use microcosm.Dm.MessageAgent.{MessageAgent, update_worker_handle, with_senders, new_message_agent}
use microcosm.Dm.JobMaster.{
  WorkerHandle, JobMaster, InitStatus, status_of, add_status, at_handle, get_init_status, no_status,
  components, create_components,
}
use microcosm.Dm.JobMaster.Agrees.{Agrees}

-- A status and a handle of the same worker, which is online.
pub online-Agrees :
    (handles : Map String String) (workers : Map String WorkerStatus) (id worker_id : String)
    (w : WorkerStatus)
    → w.id ≡ worker_id
    → w.stage ≡ worker_online
    → Agrees handles workers
    → Agrees (insert id worker_id handles) (insert id w workers)
online-Agrees handles workers id worker_id w same is_online h =
    (insert-IsMap id w workers h.0, λ j x v at held. by_key j x v at held (Bool-cases (id == j)))
  where
    by_key :
        (j : String) (x : WorkerStatus) (v : String)
        → lookup j (insert id w workers) ≡ some x
        → lookup j (insert id worker_id handles) ≡ some v
        → ((id == j) ≡ true) ⊎ ((id == j) ≡ false)
        → (x.id ≡ v) × (x.stage ≡ worker_online)
    by_key j x v at held (inl q) =
        let is_w : some w ≡ some x =
          sym (lookup-insert id j w workers ∙ ap (λ b. if b then some w else lookup j workers) q)
          ∙ at in
        let is_id : some worker_id ≡ some v =
          sym (
            lookup-insert id j worker_id handles
            ∙ ap (λ b. if b then some worker_id else lookup j handles) q)
          ∙ held in
        let x_is : w ≡ x = cc in
        let v_is : worker_id ≡ v = cc in
        (ap (λ y. y.id) (sym x_is) ∙ same ∙ v_is, ap (λ y. y.stage) (sym x_is) ∙ is_online)
    by_key j x v at held (inr q) =
        h.1 j x v
          (sym (lookup-insert id j w workers ∙ ap (λ b. if b then some w else lookup j workers) q)
            ∙ at)
          (sym (
              lookup-insert id j worker_id handles
              ∙ ap (λ b. if b then some worker_id else lookup j handles) q)
            ∙ held)

-- The statuses and handles collected so far.
abbrev pub IsCollected : InitStatus → Type 0
IsCollected acc = IsMap acc.senders × Agrees acc.senders (new_statuses acc.worker_statuses [])

new_statuses-append :
    (ws : List WorkerStatus) (w : WorkerStatus) (m : Map String WorkerStatus)
    → new_statuses (ws ++ w ∷ []) m ≡ insert w.task_id w (new_statuses ws m)
unfolding new_statuses update_worker_status
new_statuses-append [] w m = refl
new_statuses-append (x ∷ ws) w m = new_statuses-append ws w (update_worker_status x m)

add_status-IsCollected :
    (id : String) (acc acc' : InitStatus) (o : Option TaskStatus)
    → add_status id acc o ≡ some acc'
    → IsCollected acc
    → IsCollected acc'
add_status-IsCollected id acc acc' none q h = absurd (cc)
add_status-IsCollected id acc acc' (some s) q (unique, h) =
    let w = status_of s id worker_online in
    let next : InitStatus = record {
      task_statuses = acc.task_statuses ++ s ∷ [];
      worker_statuses = acc.worker_statuses ++ w ∷ [];
      senders = insert s.task id acc.senders;
    } in
    let same : next ≡ acc' = cc in
    subst IsCollected same (
      insert-IsMap s.task id acc.senders unique,
      subst (Agrees (insert s.task id acc.senders))
          (sym (new_statuses-append acc.worker_statuses w []))
          (online-Agrees acc.senders (new_statuses acc.worker_statuses []) s.task id w refl refl h),
    )

at_handle-IsCollected :
    (h : WorkerHandle) (acc acc' : InitStatus) (b : Bool)
    → (if b then some acc else add_status h.id acc (unmarshal_task_status h.ext)) ≡ some acc'
    → IsCollected acc
    → IsCollected acc'
at_handle-IsCollected h acc acc' true q k = let same : acc ≡ acc' = cc in subst IsCollected same k
at_handle-IsCollected h acc acc' false q k =
    add_status-IsCollected h.id acc acc' (unmarshal_task_status h.ext) q k

get_init_status-IsCollected :
    (handles : List WorkerHandle) (acc init : InitStatus)
    → get_init_status handles acc ≡ some init
    → IsCollected acc
    → IsCollected init
unfolding get_init_status
get_init_status-IsCollected [] acc init q k = let same : acc ≡ init = cc in subst IsCollected same k
get_init_status-IsCollected (h ∷ rest) acc init q k = elim (Option-cases (at_handle h acc)) [
  | inl gone ↦ absurd (ground (arith, gone, q))
  | inr (acc', there) ↦
      let later : get_init_status rest acc' ≡ some init = ground (arith, there, q) in
      get_init_status-IsCollected rest acc' init later
        (at_handle-IsCollected h acc acc' h.is_tombstone there k)
]

-- The handles of the new message agent are the ones collected.
with_senders_lem :
    {M : Type 0} (ss : Map String String) (agent : MessageAgent M) (id : String)
    → IsMap ss
    → lookup id (with_senders ss agent).send_handles
      ≡ (elim (lookup id ss) [ none ↦ lookup id agent.send_handles | some v ↦ some v ])
unfolding with_senders update_worker_handle lookup
with_senders_lem [] agent id h = refl
with_senders_lem ((k, v) ∷ ss) agent id (missing, h) =
    let next = update_worker_handle k (some v) agent in
    let ih = with_senders_lem ss next id h in
    let here = lookup-insert k id v agent.send_handles in
    elim (Bool-cases (k == id)) [
      | inl q ↦
          let gone : lookup id ss ≡ none =
            subst (λ x. lookup x ss ≡ none) ((eq_iff k id).0 q) missing in
          ground (arith, q, gone, ih, here)
      | inr q ↦ ground (arith, q, ih, here)
    ]

at_nothing : (id : String) → lookup {V = String} id [] ≡ none
unfolding lookup
at_nothing id = refl

new_message_agent_lem :
    {M : Type 0} (ss : Map String String) (m : M) (id : String)
    → IsMap ss
    → lookup id (new_message_agent ss m).send_handles ≡ lookup id ss
unfolding new_message_agent
new_message_agent_lem ss m id h =
    with_senders_lem ss (record { send_handles = []; master = m }) id h
    ∙ nothing_else (lookup id ss)
  where
    nothing_else :
        (o : Option String) → (elim o [ none ↦ lookup {V = String} id [] | some v ↦ some v ]) ≡ o
    nothing_else none = at_nothing id
    nothing_else (some v) = refl

none-IsCollected : IsCollected no_status
unfolding new_statuses lookup
none-IsCollected = (tt, (tt, λ id w v at held. absurd (cc)))

components-Agrees :
    {M : Type 0} (now : ℕ) (kept : Option String) (m : M) (init : InitStatus)
    → IsCollected init
    → Agrees (components now kept m init).agent.send_handles (components now kept m init).workers
components-Agrees now kept m init (unique, h) = (
  h.0,
  λ id w v at held. h.1 id w v at (sym (new_message_agent_lem init.senders m id unique) ∙ held),
)

-- createComponents makes a job master whose statuses agree with its handles.
pub create_components-Agrees :
    {M : Type 0} (now : ℕ) (kept : Option String) (m : M) (handles : List WorkerHandle)
    (jm : JobMaster M)
    → create_components now kept m handles ≡ some jm
    → Agrees jm.agent.send_handles jm.workers
unfolding create_components
create_components-Agrees {M} now kept m handles jm q =
    by_status (get_init_status handles no_status) refl q
  where
    by_status :
        (o : Option InitStatus)
        → get_init_status handles no_status ≡ o
        → (elim o [ none ↦ none | some init ↦ some (components now kept m init) ]) ≡ some jm
        → Agrees jm.agent.send_handles jm.workers
    by_status none got_it r = absurd (cc)
    by_status (some init) got_it r =
        let same : components now kept m init ≡ jm = cc in
        subst (λ j. Agrees j.agent.send_handles j.workers) same
          (components-Agrees now kept m init
            (get_init_status-IsCollected handles no_status init got_it none-IsCollected))
