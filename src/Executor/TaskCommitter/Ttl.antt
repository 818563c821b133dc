-- ===== src/Executor/TaskCommitter/Ttl.antt =====
-- The requests that run out of time.
use microcosm.Base.{
  ℕ, String, Bool, true, false, none, some, [], ◌∷◌, ◌≡◌, inl, inr, arith, Map, All, All-mono,
  lookup, has, IsMap, lookup-delete, lookup-delete_self, lookup-All, String_eq, eq_iff,
  if◌then◌else◌, Bool-cases, Option-cases, Returns, Returns-bind, Returns-mono, ltb,
}
use microcosm.Executor.TaskCommitter.{
  TaskCommitter, RequestEntry, task_id_of, expire_entry, expire_from, check_ttl_once,
}
use microcosm.Executor.TaskCommitter.Inv.{Inv, forget, forget-Inv, remove_request_by_id_lem}

abbrev is_expired : ℕ → RequestEntry → Bool
is_expired now r = ltb r.expire_at now

-- What a round of the loop, and the whole loop, does to the pending requests.
record Expires (now : ℕ) (c c' : TaskCommitter) : Type 0 where
  inv : Inv c'
  no_more :
      (k : String) (x : RequestEntry)
      → lookup k c'.pending_requests ≡ some x
      → lookup k c.pending_requests ≡ some x
  keeps :
      (k : String) (x : RequestEntry)
      → lookup k c.pending_requests ≡ some x
      → is_expired now x ≡ false
      → lookup k c'.pending_requests ≡ some x

Present : TaskCommitter → Map String RequestEntry → Type 0
Present c = All λ e. lookup e.0 c.pending_requests ≡ some e.1

abbrev Gone : ℕ → TaskCommitter → Map String RequestEntry → Type 0
Gone now c = All λ e. is_expired now e.1 ≡ true → has e.0 c.pending_requests ≡ false

Present-forget :
    (id task_id : String) (c : TaskCommitter) (rest : Map String RequestEntry)
    → lookup id rest ≡ none
    → Present c rest
    → Present (forget id task_id c) rest
unfolding Present lookup forget
Present-forget id task_id c [] h p = tt
Present-forget id task_id c ((k, x) ∷ rest) h p = (
  ground (arith, eq_iff k id, eq_iff id k, lookup-delete id k c.pending_requests),
  Present-forget id task_id c rest (ground arith) p.1,
)

record Round (now : ℕ) (id : String) (r : RequestEntry) (c c' : TaskCommitter) : Type 0 where
  does : Expires now c c'
  gone : is_expired now r ≡ true → has id c'.pending_requests ≡ false
  spares :
      (rest : Map String RequestEntry) → lookup id rest ≡ none → Present c rest → Present c' rest

expire_entry-Round :
    (now : ℕ) (id : String) (r : RequestEntry) (c : TaskCommitter)
    → Inv c
    → lookup id c.pending_requests ≡ some r
    → Returns (expire_entry now id r c) (Round now id r c)
unfolding expire_entry
expire_entry-Round now id r c v q = elim (Bool-cases (ltb r.expire_at now)) [
  | inr fresh ↦ rw fresh (record {
    does = record { inv = v; no_more = λ k x h. h; keeps = λ k x h e. h };
    gone = λ e. absurd (cc);
    spares = λ rest n p. p;
  })
  | inl old ↦
      rw (old, remove_request_by_id_lem id r c q v)
        (record {
          does = record {
            inv = forget-Inv id r c q v;
            no_more =
                unfold forget in λ k x h. ground (arith, lookup-delete id k c.pending_requests);
            keeps =
                unfold forget in λ k x h e. grind (arith, lookup-delete, eq_iff id k, q, h, e, old);
          };
          gone = unfold forget in λ e. ground (arith, lookup-delete_self id c.pending_requests);
          spares = λ rest n p. Present-forget id (task_id_of r) c rest n p;
        })
]

Expires-trans :
    (now : ℕ) (a b c : TaskCommitter) → Expires now a b → Expires now b c → Expires now a c
Expires-trans now a b c f g = record {
  inv = g.inv;
  no_more = λ k x h. f.no_more k x (g.no_more k x h);
  keeps = λ k x h e. g.keeps k x (f.keeps k x h e) e;
}

-- No later round brings a request back.
stays_gone :
    (now : ℕ) (k : String) (a b : TaskCommitter)
    → Expires now a b
    → has k a.pending_requests ≡ false
    → has k b.pending_requests ≡ false
stays_gone now k a b f h = elim (Option-cases (lookup k b.pending_requests)) [
  | inl n ↦ ground arith
  | inr (x, s) ↦ absurd (ground (arith, f.no_more k x s))
]

abbrev Expired : ℕ → Map String RequestEntry → TaskCommitter → TaskCommitter → Type 0
Expired now rest c c' = Expires now c c' × Gone now c' rest

expire_from_lem :
    (now : ℕ) (rest : Map String RequestEntry) (c : TaskCommitter)
    → Inv c
    → IsMap rest
    → Present c rest
    → Returns (expire_from now rest c) (Expired now rest c)
unfolding expire_from Present
expire_from_lem now [] c v m p =
    (record { inv = v; no_more = λ k x h. h; keeps = λ k x h e. h }, tt)
expire_from_lem now ((id, r) ∷ rest) c v m p =
    Returns-bind (Round now id r c) (Expired now ((id, r) ∷ rest) c) (expire_entry now id r c)
      (expire_from now rest) (expire_entry-Round now id r c v p.0)
      (λ c1 d.
        Returns-mono (Expired now rest c1) (Expired now ((id, r) ∷ rest) c)
          (expire_from now rest c1)
          (expire_from_lem now rest c1 d.does.inv m.1 (d.spares rest m.0 p.1))
          (λ c' (e, g). (
            Expires-trans now c c1 c' d.does e,
            (λ old. stays_gone now id c1 c' e (d.gone old), g),
          )))

abbrev pub TtlDone : ℕ → TaskCommitter → TaskCommitter → Type 0
TtlDone now c c' =
    Inv c'
    × ((k : String) (x : RequestEntry)
        → lookup k c.pending_requests ≡ some x
        → lookup k c'.pending_requests ≡ (if ltb x.expire_at now then none else some x))
    × ((k : String) → lookup k c.pending_requests ≡ none → lookup k c'.pending_requests ≡ none)

ttl_lookup :
    (now : ℕ) (c c' : TaskCommitter)
    → Expires now c c'
    → Gone now c' c.pending_requests
    → (k : String) (x : RequestEntry) → lookup k c.pending_requests ≡ some x
    → lookup k c'.pending_requests ≡ (if ltb x.expire_at now then none else some x)
ttl_lookup now c c' e g k x q = elim (Bool-cases (ltb x.expire_at now)) [
  | inr fresh ↦ rw fresh (e.keeps k x q fresh)
  | inl old ↦
      let gone : has k c'.pending_requests ≡ false =
        lookup-All (λ i. is_expired now i.1 ≡ true → has i.0 c'.pending_requests ≡ false) k
          c.pending_requests x q g old in
      ground arith
]

gone_lookup :
    (now : ℕ) (c c' : TaskCommitter)
    → Expires now c c'
    → (k : String) → lookup k c.pending_requests ≡ none
    → lookup k c'.pending_requests ≡ none
gone_lookup now c c' e k q = elim (Option-cases (lookup k c'.pending_requests)) [
  | inl n ↦ n
  | inr (x, s) ↦ absurd (ground (arith, e.no_more k x s))
]

present : (m : Map String RequestEntry) → IsMap m → All (λ i. lookup i.0 m ≡ some i.1) m
unfolding lookup
present [] h = tt
present ((k, x) ∷ m) h = (ground (arith, eq_iff k k), present_tail k x m h.0 m (present m h.1))
  where
    present_tail :
        (k : String) (x : RequestEntry) (m : Map String RequestEntry)
        → lookup k m ≡ none
        → (rest : Map String RequestEntry) → All (λ i. lookup i.0 m ≡ some i.1) rest
        → All (λ i. lookup i.0 ((k, x) ∷ m) ≡ some i.1) rest
    present_tail k x m n rest = All-mono rest (λ i s. ground (arith, eq_iff k i.0))

all-Present : (c : TaskCommitter) → IsMap c.pending_requests → Present c c.pending_requests
unfolding Present
all-Present c h = present c.pending_requests h

-- On a sound committer with no key twice the check of the deadlines does not panic and removes exactly
-- the requests that are past theirs: the others stay as they are, and none appears. The committer
-- stays sound.
pub check_ttl_once_removes :
    (now : ℕ) (c : TaskCommitter)
    → Inv c
    → IsMap c.pending_requests
    → Returns (check_ttl_once now c) (TtlDone now c)
unfolding check_ttl_once
check_ttl_once_removes now c v m =
    Returns-mono (Expired now c.pending_requests c) (TtlDone now c)
      (expire_from now c.pending_requests c)
      (expire_from_lem now c.pending_requests c v m (all-Present c m))
      (λ c' (e, g).
        (e.inv, (λ k x q. ttl_lookup now c c' e g k x q), λ k q. gone_lookup now c c' e k q))
