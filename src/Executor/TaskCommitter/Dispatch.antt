-- ===== src/Executor/TaskCommitter/Dispatch.antt =====
-- The two phases of a dispatch, and the requests that expire between them.
use microcosm.Base.{
  ℕ, String, true, false, not, none, some, Option, ◌≡◌, refl, inl, inr, arith, sym, subst, lookup,
  has, delete, lookup-insert_self, lookup-delete, lookup-delete_self, String_eq, Option-cases,
  returns, Returns, Returns-bind,
}
use microcosm.Executor.TaskCommitter.{
  TaskCommitter, RequestEntry, WrappedTask, task_id_of, remove_stale, new_request, add_request,
  pre_dispatch_task, confirm_dispatch_task, confirmed, Confirmed, done, not_found,
}
use microcosm.Executor.TaskCommitter.Inv.{
  Inv, forget, forget-Inv, remove_request_by_id_lem, add_request-Inv,
}

-- What is left once a stale request for the task is gone.
record Freed (r_id task_id : String) (c c' : TaskCommitter) : Type 0 where
  inv : Inv c'
  same_ttl : c'.request_ttl ≡ c.request_ttl
  no_task : lookup task_id c'.requests_by_task_id ≡ none
  no_more : (k : String) → lookup k c.pending_requests ≡ none → lookup k c'.pending_requests ≡ none

remove_stale-Freed :
    (r_id task_id : String) (c : TaskCommitter)
    → Inv c
    → Returns (remove_stale task_id c) (Freed r_id task_id c)
unfolding remove_stale
remove_stale-Freed r_id task_id c v = elim (Option-cases (lookup task_id c.requests_by_task_id)) [
  | inl q ↦
      rw (q, remove_stale) (record { inv = v; same_ttl = refl; no_task = q; no_more = λ k h. h })
  | inr (r, q) ↦
      let (own, back) = v.by_task task_id r q in
      rw (q, remove_stale, remove_request_by_id_lem r.request_id r c back v)
        (record {
          inv = forget-Inv r.request_id r c back v;
          same_ttl = unfold forget in refl;
          no_task =
              unfold forget in
              subst (λ t. lookup task_id (delete t c.requests_by_task_id) ≡ none) (sym own)
                (lookup-delete_self task_id c.requests_by_task_id);
          no_more =
              unfold forget in
              λ k h. ground (arith, lookup-delete r.request_id k c.pending_requests);
        })
]

-- On a sound committer PreDispatchTask does not panic: a request with a new id is accepted and stands
-- under its id and under its task; one whose id is in use is refused, and changes nothing. The
-- committer stays sound.
pub pre_dispatch_task_registers :
    (now : ℕ) (r_id task_id : String) (c : TaskCommitter)
    → Inv c
    → Returns (pre_dispatch_task now r_id task_id c) (λ (c', accepted).
      Inv c'
      × (accepted ≡ not (has r_id c.pending_requests))
      × (accepted ≡ false → c' ≡ c)
      × (accepted ≡ true
          → (lookup r_id c'.pending_requests ≡ some (new_request now r_id task_id c))
            × (lookup task_id c'.requests_by_task_id ≡ some (new_request now r_id task_id c))))
unfolding pre_dispatch_task
pre_dispatch_task_registers now r_id task_id c v =
    elim (Option-cases (lookup r_id c.pending_requests)) [
      | inr (r, q) ↦ rw (q, pre_dispatch_task) (v, refl, λ _. refl, λ e. absurd (cc))
      | inl q ↦
          rw (q, pre_dispatch_task)
            (Returns-bind (Freed r_id task_id c) _ (remove_stale task_id c) _
              (remove_stale-Freed r_id task_id c v)
              (λ c' f.
                let r = new_request now r_id task_id c in
                (
                  add_request-Inv r c' (f.no_more r_id q) f.no_task f.inv,
                  refl,
                  λ e. absurd (cc),
                  λ _.
                      unfold add_request in
                      (
                        lookup-insert_self r_id r c'.pending_requests,
                        lookup-insert_self task_id r c'.requests_by_task_id,
                      ),
                )))
    ]

module _ {R E : Type 0} (add_wrapped_task : WrappedTask → R → R × Option E) where
  -- A confirmation of a request that is gone does nothing.
  confirm_missing :
      (r_id task_id : String) (c : TaskCommitter) (runner : R)
      → lookup r_id c.pending_requests ≡ none
      → confirm_dispatch_task add_wrapped_task r_id task_id c runner
        ≡ returns (c, runner, not_found)
  unfolding confirm_dispatch_task
  confirm_missing r_id task_id c runner q = rw (q, confirm_dispatch_task) refl

  abbrev pub HandedOver :
      String → String → RequestEntry → R → TaskCommitter × R × Confirmed E → Type 0
  HandedOver r_id task_id r runner (c', runner', answer) =
      Inv c'
      × (runner' ≡ (add_wrapped_task r.task runner).0)
      × ((add_wrapped_task r.task runner).1 ≡ none → answer ≡ done)
      × ((other : R)
          → confirm_dispatch_task add_wrapped_task r_id task_id c' other
            ≡ returns (c', other, not_found))

  answer_HandedOver :
      (r_id task_id : String) (r : RequestEntry) (runner : R) (c' : TaskCommitter)
      (p : R × Option E)
      → add_wrapped_task r.task runner ≡ p
      → Inv c'
      → lookup r_id c'.pending_requests ≡ none
      → HandedOver r_id task_id r runner (confirmed p c')
  answer_HandedOver r_id task_id r runner c' (runner', none) e v q =
      (v, cc, λ _. refl, λ other. confirm_missing r_id task_id c' other q)
  answer_HandedOver r_id task_id r runner c' (runner', some x) e v q =
      (v, cc, λ h. ground arith, λ other. confirm_missing r_id task_id c' other q)

  -- On a sound committer the confirmation of a registered request does not panic and hands the task to
  -- the runner; it answers success if the runner gives no error. A second confirmation finds nothing
  -- and leaves the runner alone.
  pub confirm_dispatch_task_once :
      (r_id task_id : String) (c : TaskCommitter) (runner : R) (r : RequestEntry)
      → Inv c
      → lookup r_id c.pending_requests ≡ some r
      → Returns
          (confirm_dispatch_task add_wrapped_task r_id task_id c runner)
          (HandedOver r_id task_id r runner)
  unfolding confirm_dispatch_task
  confirm_dispatch_task_once r_id task_id c runner r v q =
      rw (q, confirm_dispatch_task, remove_request_by_id_lem r_id r c q v)
        (answer_HandedOver r_id task_id r runner (forget r_id (task_id_of r) c)
          (add_wrapped_task r.task runner) refl (forget-Inv r_id r c q v)
          (unfold forget in lookup-delete_self r_id c.pending_requests))
