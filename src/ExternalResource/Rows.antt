-- ===== src/ExternalResource/Rows.antt =====
-- The resource service against a map from ids to resources.
use microcosm.Base.{
  suc, String, Option, none, some, [], ◌∷◌, ◌++◌, ◌==◌, String_eq, eq_iff, if◌then◌else◌, ltb,
  Returns, ◌≡◌, ◌≢◌, refl, ap, inl, inr, arith, Bool-cases, Option-cases,
}
use microcosm.ExternalResource.{
  ResourceMeta, Table, find, count, delete_rows, get_resource_by_id, insert_resource,
  delete_resource, MetaError, meta_op_fail, duplicate_resource_id, Got, got, failed, Code, Answer,
  answer, refuse, CreateResourceRequest, meta_of, create_resource, remove_resource, query_resource,
  QueryResourceResponse, to_query_resource_response, found,
}

-- No id stands twice: the table's unique index.
abbrev pub IsTable : Table → Type 0
IsTable [] = Unit
IsTable (m ∷ t) = (find m.id t ≡ none) × IsTable t

count_missing : (id : String) (t : Table) → find id t ≡ none → count id t ≡ 0
unfolding find count
count_missing id [] h = refl
count_missing id (m ∷ t) h = ground (arith, count_missing id t)

count_found :
    (id : String) (t : Table) → IsTable t → (m : ResourceMeta) → find id t ≡ some m → count id t ≡ 1
unfolding find count
count_found id [] v m h = absurd (cc)
count_found id (n ∷ t) v m h = elim (Bool-cases (n.id == id)) [
  | inl hit ↦
      let same : n.id ≡ id = (eq_iff n.id id).0 hit in
      rw hit (ap suc (count_missing id t (ground (arith, v.0, same))))
  | inr miss ↦ rw miss (count_found id t v.1 m (ground (arith, miss, h)))
]

find-append :
    (id : String) (m : ResourceMeta) (t : Table)
    → find m.id t ≡ none
    → find id (t ++ m ∷ []) ≡ (if m.id == id then some m else find id t)
unfolding find
find-append id m [] h = refl
find-append id m (n ∷ t) h =
    ground (arith, eq_iff n.id id, eq_iff n.id m.id, eq_iff m.id id, find-append id m t)

append-IsTable :
    (m : ResourceMeta) (t : Table) → find m.id t ≡ none → IsTable t → IsTable (t ++ m ∷ [])
unfolding find
append-IsTable m [] h v = (refl, tt)
append-IsTable m (n ∷ t) h v =
    ground (arith, eq_iff n.id m.id, eq_iff m.id n.id, find-append n.id m t, append-IsTable m t)

find-delete_rows :
    (id j : String) (t : Table) → find j (delete_rows id t) ≡ (if id == j then none else find j t)
unfolding find delete_rows
find-delete_rows id j [] = ground arith
find-delete_rows id j (m ∷ t) =
    ground (arith, eq_iff m.id id, eq_iff m.id j, eq_iff id j, find-delete_rows id j t)

delete_rows-IsTable : (id : String) (t : Table) → IsTable t → IsTable (delete_rows id t)
unfolding find delete_rows
delete_rows-IsTable id [] v = tt
delete_rows-IsTable id (m ∷ t) v =
    ground (arith, find-delete_rows id m.id t, delete_rows-IsTable id t)

-- What a creation may answer, and what it does to the map.
abbrev pub Created : CreateResourceRequest → Table → Table × Answer Unit → Type 0
Created r t (t', answer _) =
    IsTable t'
    × (find r.resource_id t ≡ none)
    × ((j : String) → find j t' ≡ (if r.resource_id == j then some (meta_of r) else find j t))
Created r t (t', refuse c) = t' ≡ t

-- Without an answer of the hook, a creation that is answered adds the resource under its id, which was
-- free, and changes nothing else; a creation that is refused changes nothing.
pub create_resource-Created :
    (counting inserting : Option String) (r : CreateResourceRequest) (t : Table)
    → IsTable t
    → Created r t (create_resource none counting inserting r t)
unfolding create_resource insert_resource
create_resource-Created (some e) inserting r t v = refl
create_resource-Created none (some e) r t v = elim (Bool-cases (ltb 0 (count r.resource_id t))) [
  | inl held ↦ rw held refl
  | inr free ↦ rw free refl
]
create_resource-Created none none r t v = elim (Option-cases (find r.resource_id t)) [
  | inl free ↦
      rw (count_missing r.resource_id t free)
        (append-IsTable (meta_of r) t free v, free, λ j. find-append j (meta_of r) t free)
  | inr (m, held) ↦ rw (count_found r.resource_id t v m held) refl
]

-- Likewise for a removal.
abbrev pub Removed : String → Table → Table × Answer Unit → Type 0
Removed id t (t', a) =
    IsTable t'
    × (a ≡ answer tt → (j : String) → find j t' ≡ (if id == j then none else find j t))
    × (a ≡ answer tt → find id t ≢ none)
    × (a ≢ answer tt → (j : String) → find j t' ≡ find j t)

found-Removed :
    (id : String) (t : Table) (m : ResourceMeta)
    → IsTable t
    → find id t ≡ some m
    → Removed id t (delete_rows id t, answer tt)
found-Removed id t m v held =
    (delete_rows-IsTable id t v, λ e j. find-delete_rows id j t, λ e n. cc, λ n. absurd (n refl))

missing-Removed :
    (id : String) (t : Table)
    → IsTable t
    → find id t ≡ none
    → Removed id t (delete_rows id t, refuse Code.not_found)
missing-Removed id t v gone = (
  delete_rows-IsTable id t v,
  λ e. absurd (cc),
  λ e. absurd (cc),
  λ n j. ground (arith, find-delete_rows id j t, eq_iff id j),
)

unchanged : (id : String) (t : Table) (c : Code) → IsTable t → Removed id t (t, refuse c)
unchanged id t c v = (v, λ e. absurd (cc), λ e. absurd (cc), λ n j. refl)

-- Without an answer of the hook, a removal does not panic on a table with unique ids: one that is
-- answered removes the resource, which was there, and nothing else, and any other leaves the map as it is.
pub remove_resource-Removed :
    (fault : Option String) (id : String) (t : Table)
    → IsTable t
    → Returns (remove_resource none fault id t) (Removed id t)
unfolding remove_resource delete_resource
remove_resource-Removed fault id t v = elim (Bool-cases (id == "")) [
  | inl empty ↦ rw empty (unchanged id t _ v)
  | inr named ↦ rw named (named-Removed fault)
]
  where
    named-Removed :
        (f : Option String)
        → Returns (microcosm.ExternalResource.removed (delete_resource f id t)) (Removed id t)
    named-Removed (some e) = unchanged id t _ v
    named-Removed none = elim (Option-cases (find id t)) [
      | inl gone ↦ rw (count_missing id t gone) (missing-Removed id t v gone)
      | inr (m, held) ↦ rw (count_found id t v m held) (found-Removed id t m v held)
    ]
