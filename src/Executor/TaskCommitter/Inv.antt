-- ===== src/Executor/TaskCommitter/Inv.antt =====
-- The two maps of the committer mirror one another, so the places marked as unreachable are.
use microcosm.Base.{
  ℕ, String, none, some, ◌≡◌, arith, lookup, delete, lookup-insert, lookup-delete, String_eq,
  eq_iff, returns,
}
use microcosm.Executor.TaskCommitter.{
  TaskCommitter, RequestEntry, task_id_of, new_task_committer, remove_request_by_id, add_request,
}

-- Each entry stands in both maps, under its request id and under its task id.
pub record Inv (c : TaskCommitter) : Type 0 where
  pub by_request :
      (id : String) (r : RequestEntry)
      → lookup id c.pending_requests ≡ some r
      → (r.request_id ≡ id) × (lookup (task_id_of r) c.requests_by_task_id ≡ some r)
  pub by_task :
      (id : String) (r : RequestEntry)
      → lookup id c.requests_by_task_id ≡ some r
      → (task_id_of r ≡ id) × (lookup r.request_id c.pending_requests ≡ some r)

pub new_task_committer-Inv : (ttl : ℕ) → Inv (new_task_committer ttl)
unfolding new_task_committer lookup
new_task_committer-Inv ttl = record {
  by_request = λ id r q. absurd (cc);
  by_task = λ id r q. absurd (cc);
}

unfoldable pub forget : String → String → TaskCommitter → TaskCommitter
forget id task_id c = record c {
  pending_requests = delete id c.pending_requests;
  requests_by_task_id = delete task_id c.requests_by_task_id;
}

pub forget-Inv :
    (id : String) (r : RequestEntry) (c : TaskCommitter)
    → lookup id c.pending_requests ≡ some r
    → Inv c
    → Inv (forget id (task_id_of r) c)
unfolding forget
forget-Inv id r c q v = record {
  by_request = λ k x p. grind (
    arith,
    lookup-delete,
    eq_iff id k,
    eq_iff (task_id_of r) (task_id_of x),
    v.by_request k x,
    v.by_request id r,
  );
  by_task = λ k x p. grind (
    arith,
    lookup-delete,
    eq_iff (task_id_of r) k,
    eq_iff id x.request_id,
    v.by_task k x,
    v.by_request id r,
  );
}

pub remove_request_by_id_lem :
    (id : String) (r : RequestEntry) (c : TaskCommitter)
    → lookup id c.pending_requests ≡ some r
    → Inv c
    → remove_request_by_id id c ≡ returns (forget id (task_id_of r) c)
unfolding remove_request_by_id forget
remove_request_by_id_lem id r c q v = ground (arith, v.by_request id r)

pub add_request-Inv :
    (r : RequestEntry) (c : TaskCommitter)
    → lookup r.request_id c.pending_requests ≡ none
    → lookup (task_id_of r) c.requests_by_task_id ≡ none
    → Inv c
    → Inv (add_request r c)
unfolding add_request
add_request-Inv r c p t v = record {
  by_request = λ k x q. grind (
    arith,
    lookup-insert,
    eq_iff r.request_id k,
    eq_iff (task_id_of r) (task_id_of x),
    v.by_request k x,
  );
  by_task = λ k x q. grind (
    arith,
    lookup-insert,
    eq_iff (task_id_of r) k,
    eq_iff r.request_id x.request_id,
    v.by_task k x,
  );
}
