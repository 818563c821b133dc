-- ===== src/Planner/DagWalker/Visits.antt =====
-- What a walk that succeeds has visited.
use microcosm.Base.{
  ℕ, zero, suc, true, false, ◌||◌, subst, Option, none, some, List, [], ◌∷◌, ◌++◌, ◌≡◌, refl, inl,
  inr, arith, Map, All, lookup, has, has-some, ℕ_eq, eqb, eqb_iff, Bool-cases, Option-cases,
  Outcome, returns, Returns, Returns-bind, Returns-mono,
}
use microcosm.Planner.DagWalker.{
  Node, WalkError, Walk, is_in, unless_visited, walk_all, enter, do_walk, walk,
}

abbrev pub IsDistinct : List ℕ → Type 0
IsDistinct [] = Unit
IsDistinct (x ∷ xs) = (is_in x xs ≡ false) × IsDistinct xs

is_in-append : (x y : ℕ) (xs : List ℕ) → is_in x (xs ++ y ∷ []) ≡ (is_in x xs || is_in x (y ∷ []))
is_in-append x y [] = refl
is_in-append x y (z ∷ xs) = ground (arith, is_in-append x y xs)

append-IsDistinct :
    (y : ℕ) (xs : List ℕ) → is_in y xs ≡ false → IsDistinct xs → IsDistinct (xs ++ y ∷ [])
append-IsDistinct y [] h d = (refl, tt)
append-IsDistinct y (x ∷ xs) h d = (
  ground (arith, is_in-append x y xs, eqb_iff x y, eqb_iff y x),
  append-IsDistinct y xs (ground arith) d.1,
)

-- A node stands under its id, so no two nodes share one, and no output is nil.
pub record IsGraph (heap : Map ℕ Node) : Type 0 where
  pub keyed : (r : ℕ) (n : Node) → lookup r heap ≡ some n → n.id ≡ r
  pub live : (r : ℕ) (n : Node) → lookup r heap ≡ some n → All (λ y. has y heap ≡ true) n.outputs

-- From the visited ids vs to ws: none is lost, none comes twice, and what came has its outputs there.
pub record Grows (heap : Map ℕ Node) (vs ws : List ℕ) : Type 0 where
  pub keeps : (x : ℕ) → is_in x vs ≡ true → is_in x ws ≡ true
  pub closed :
      (x y : ℕ) (n : Node)
      → is_in x vs ≡ false
      → is_in x ws ≡ true
      → lookup x heap ≡ some n
      → is_in y n.outputs ≡ true
      → is_in y ws ≡ true
  pub distinct : IsDistinct vs → IsDistinct ws

Grows-refl : (heap : Map ℕ Node) (vs : List ℕ) → Grows heap vs vs
Grows-refl heap vs = record {
  keeps = λ x h. h;
  closed = λ x y n a b. absurd (cc);
  distinct = λ d. d;
}

Grows-trans :
    (heap : Map ℕ Node) (us vs ws : List ℕ) → Grows heap us vs → Grows heap vs ws → Grows heap us ws
Grows-trans heap us vs ws f g = record {
  keeps = λ x h. g.keeps x (f.keeps x h);
  closed = λ x y n a b q o. elim (Bool-cases (is_in x vs)) [
    | inl early ↦ g.keeps y (f.closed x y n a early q o)
    | inr late ↦ g.closed x y n late b q o
  ];
  distinct = λ d. g.distinct (f.distinct d);
}

module _ {S E : Type 0} (heap : Map ℕ Node) (on_vertex : Node → S → S × Option E)
    (g : IsGraph heap) where
  abbrev Visits : ℕ → Walk S → Walk S × Option (WalkError E) → Type 0
  Visits r w (w', e) = e ≡ none → Grows heap w.visited w'.visited × (is_in r w'.visited ≡ true)

  abbrev VisitsAll : List ℕ → Walk S → Walk S × Option (WalkError E) → Type 0
  VisitsAll rs w (w', e) =
      e ≡ none
      → Grows heap w.visited w'.visited × ((y : ℕ) → is_in y rs ≡ true → is_in y w'.visited ≡ true)

  abbrev IsGood : (ℕ → Walk S → Outcome (Walk S × Option (WalkError E))) → Type 0
  IsGood next = (r : ℕ) (w : Walk S) → has r heap ≡ true → Returns (next r w) (Visits r w)

  walk_all-VisitsAll :
      (next : ℕ → Walk S → Outcome (Walk S × Option (WalkError E)))
      → IsGood next
      → (rs : List ℕ) (w : Walk S) → All (λ y. has y heap ≡ true) rs
      → Returns (walk_all heap on_vertex next rs w) (VisitsAll rs w)
  unfolding walk_all
  walk_all-VisitsAll next good [] w l = λ _. (Grows-refl heap w.visited, λ y h. absurd (cc))
  walk_all-VisitsAll next good (r ∷ rs) w l =
      Returns-bind (Visits r w) (VisitsAll (r ∷ rs) w) (next r w) _ (good r w l.0)
        (λ (w1, e) v. more w1 e v (walk_all-VisitsAll next good rs w1 l.1))
    where
      more :
          (w1 : Walk S) (e : Option (WalkError E))
          → Visits r w (w1, e)
          → Returns (walk_all heap on_vertex next rs w1) (VisitsAll rs w1)
          → Returns
              (elim e [ none ↦ walk_all heap on_vertex next rs w1 | some x ↦ returns (w1, some x) ])
              (VisitsAll (r ∷ rs) w)
      more w1 (some x) v h = λ q. absurd (cc)
      more w1 none v h =
          Returns-mono (VisitsAll rs w1) (VisitsAll (r ∷ rs) w) (walk_all heap on_vertex next rs w1)
            h
            (λ (w2, e) u q.
              let (g1, s1) = v refl in
              let (g2, s2) = u q in
              (
                Grows-trans heap w.visited w1.visited w2.visited g1 g2,
                λ y k. ground (arith, g2.keeps r s1, s2 y, eqb_iff r y),
              ))

  -- What a node adds to the visited ids, when all of its outputs have been walked.
  entered-Grows :
      (r : ℕ) (node : Node) (vs ws : List ℕ)
      → lookup r heap ≡ some node
      → node.id ≡ r
      → is_in r vs ≡ false
      → Grows heap (vs ++ r ∷ []) ws
      → ((y : ℕ) → is_in y node.outputs ≡ true → is_in y ws ≡ true)
      → Grows heap vs ws × (is_in r ws ≡ true)
  entered-Grows r node vs ws found own new f s = (
    record {
      keeps = λ x h. ground (arith, f.keeps x, is_in-append x r vs);
      closed = λ x y n a b q o. elim (Bool-cases (eqb r x)) [
        | inl hit ↦ ground (arith, eqb_iff r x, s y)
        | inr miss ↦ f.closed x y n (ground (arith, is_in-append x r vs)) b q o
      ];
      distinct = λ d. f.distinct (append-IsDistinct r vs new d);
    },
    f.keeps r (ground (arith, is_in-append r r vs, eqb_iff r r)),
  )

  enter-Visits :
      (next : ℕ → Walk S → Outcome (Walk S × Option (WalkError E)))
      → IsGood next
      → (r : ℕ) (w : Walk S) (node : Node) → lookup r heap ≡ some node
      → is_in node.id w.visited ≡ false
      → Returns (enter heap on_vertex next w node) (Visits r w)
  unfolding enter
  enter-Visits next good r w node found new = elim (Option-cases (on_vertex node w.state).1) [
    | inr (x, q) ↦ rw (q, enter) (λ e. absurd (cc))
    | inl q ↦
        let w1 : Walk S = record {
          visited = w.visited ++ node.id ∷ [];
          state = (on_vertex node w.state).0;
        } in
        rw (q, enter)
          (Returns-mono (VisitsAll node.outputs w1) (Visits r w)
            (walk_all heap on_vertex next node.outputs w1)
            (walk_all-VisitsAll next good node.outputs w1 (g.live r node found))
            (λ (w2, e) u ok.
              let (f, s) = u ok in
              let own = g.keyed r node found in
              entered-Grows r node w.visited w2.visited found own
                (subst (λ i. is_in i w.visited ≡ false) own new)
                (subst (λ i. Grows heap (w.visited ++ i ∷ []) w2.visited) own f) s))
  ]

  unless_visited-Visits :
      (r : ℕ) (w : Walk S) (k : Node → Outcome (Walk S × Option (WalkError E)))
      → has r heap ≡ true
      → ((node : Node)
          → lookup r heap ≡ some node
          → is_in node.id w.visited ≡ false
          → Returns (k node) (Visits r w))
      → Returns (unless_visited heap on_vertex r w k) (Visits r w)
  unfolding unless_visited
  unless_visited-Visits r w k h f =
      let (node, found) = has-some (lookup r heap) h in
      elim (Bool-cases (is_in node.id w.visited)) [
        | inl seen ↦
            rw (found, unless_visited, seen)
              (λ _. (
                Grows-refl heap w.visited,
                subst (λ i. is_in i w.visited ≡ true) (g.keyed r node found) seen,
              ))
        | inr new ↦ rw (found, unless_visited, new) (f node found new)
      ]

  do_walk-IsGood : (left depth : ℕ) → IsGood (do_walk heap on_vertex left depth)
  unfolding do_walk
  do_walk-IsGood zero depth r w h =
      unless_visited-Visits r w _ h (λ node found new. λ e. absurd (cc))
  do_walk-IsGood (suc left) depth r w h = unless_visited-Visits r w _ h (λ node found new.
      enter-Visits (do_walk heap on_vertex left (suc depth)) (do_walk-IsGood left (suc depth)) r w
        node found new)

  -- On a graph that has the root, without nil and with one node for each id, a walk does not panic. If
  -- it gives no error it has visited the root and, of each visited node, all outputs, and no id stands
  -- twice among the visited.
  pub walk_visits :
      (root : ℕ) (s : S)
      → has root heap ≡ true
      → Returns (walk heap on_vertex root s) (λ (w, e).
        e ≡ none
        → (is_in root w.visited ≡ true)
          × ((x y : ℕ) (n : Node)
              → is_in x w.visited ≡ true
              → lookup x heap ≡ some n
              → is_in y n.outputs ≡ true
              → is_in y w.visited ≡ true)
          × IsDistinct w.visited)
  unfolding walk
  walk_visits root s h =
      let start : Walk S = record { visited = []; state = s } in
      Returns-mono (Visits root start) _ (do_walk heap on_vertex 101 0 root start)
        (do_walk-IsGood 101 0 root start h)
        (λ (w, e) v ok.
          let (f, here) = v ok in (here, (λ x y n a q o. f.closed x y n refl a q o), f.distinct tt))
