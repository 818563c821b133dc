-- ===== src/ServerMaster/Scheduler/Cost.antt =====
-- ScheduleByCost: which executor it picks.
use microcosm.Base.{
  String, Bool, true, false, ◌||◌, none, some, Option, List, [], ◌∷◌, ◌≡◌, refl, sym, subst, ◌∙◌,
  has-some, inl, inr, arith, Map, All, lookup, has, String_eq, ◌==◌, eq_iff, ℤ, ltℤ, Returns,
  Returns-mono, Bool-cases,
}
use microcosm.ServerMaster.Resource.{ExecutorResourceStatus, remaining}
use microcosm.ServerMaster.Scheduler.{CapacityProvider, keys, first_fit, schedule_by_cost}

abbrev pub elem : String → List String → Bool
elem x [] = false
elem x (y ∷ ys) = (y == x) || elem x ys

-- rand.Shuffle permutes: no id is lost and none is made up.
abbrev pub Shuffles : (List String → List String) → Type 0
Shuffles shuffle = (ids : List String) (x : String) → elem x (shuffle ids) ≡ elem x ids

-- The executor has more than the cost left.
abbrev pub fits : ℤ → Map String ExecutorResourceStatus → String → Bool
fits cost caps id = elim (lookup id caps) [ none ↦ false | some s ↦ ltℤ cost (remaining s) ]

elem-All :
    (P : String → Type 0) (xs : List String) → ((x : String) → elem x xs ≡ true → P x) → All P xs
elem-All P [] h = tt
elem-All P (x ∷ xs) h =
    (h x (ground (arith, eq_iff x x)), elem-All P xs (λ y e. h y (ground arith)))

All-elem : (P : String → Type 0) (xs : List String) (x : String) → All P xs → elem x xs ≡ true → P x
All-elem P [] x h e = absurd (cc)
All-elem P (y ∷ ys) x h e = elim (Bool-cases (y == x)) [
  | inl hit ↦ subst P ((eq_iff y x).0 hit) h.0
  | inr miss ↦ All-elem P ys x h.1 (ground arith)
]

elem-keys :
    (caps : Map String ExecutorResourceStatus) (x : String) → elem x (keys caps) ≡ has x caps
unfolding lookup
elem-keys [] x = refl
elem-keys ((k, s) ∷ caps) x = ground (arith, elem-keys caps x)

abbrev Fit : ℤ → Map String ExecutorResourceStatus → List String → Option String → Type 0
Fit cost caps ids (some id) = fits cost caps id ≡ true
Fit cost caps ids none = All (λ id. fits cost caps id ≡ false) ids

first_fit_lem :
    (cost : ℤ) (caps : Map String ExecutorResourceStatus) (ids : List String)
    → All (λ id. has id caps ≡ true) ids
    → Returns (first_fit cost caps ids) (Fit cost caps ids)
unfolding first_fit
first_fit_lem cost caps [] h = tt
first_fit_lem cost caps (id ∷ ids) h =
    let (s, q) = has-some (lookup id caps) h.0 in
    elim (Bool-cases (ltℤ cost (remaining s))) [
      | inl fit ↦ rw (q, first_fit, fit) (ground arith)
      | inr full ↦
          rw (q, first_fit, full)
            (Returns-mono (Fit cost caps ids) (Fit cost caps (id ∷ ids)) (first_fit cost caps ids)
              (first_fit_lem cost caps ids h.1) (widen id s q full))
    ]
  where
    widen :
        (id : String) (s : ExecutorResourceStatus)
        → lookup id caps ≡ some s
        → ltℤ cost (remaining s) ≡ false
        → (r : Option String) → Fit cost caps ids r
        → Fit cost caps (id ∷ ids) r
    widen id s q full (some x) f = f
    widen id s q full none f = (ground arith, f)

-- With any shuffle that permutes, ScheduleByCost does not panic; an executor that it picks has more
-- than the cost left, and it finds none only if no executor has.
pub schedule_by_cost_finds :
    (shuffle : List String → List String) (provider : CapacityProvider) (cost : ℤ)
    → Shuffles shuffle
    → let caps = provider.capacities_for_all_executors in
      Returns (schedule_by_cost shuffle provider cost) (λ r.
        ((id : String) → r ≡ some id → fits cost caps id ≡ true)
        × (r ≡ none → (id : String) → fits cost caps id ≡ false))
unfolding schedule_by_cost
schedule_by_cost_finds shuffle provider cost sh =
    Returns-mono (Fit cost caps (shuffle (keys caps))) _ (first_fit cost caps (shuffle (keys caps)))
      (first_fit_lem cost caps (shuffle (keys caps)) (elem-All (λ id. has id caps ≡ true) _ known))
      spell
  where
    caps : Map String ExecutorResourceStatus
    caps = provider.capacities_for_all_executors

    known : (x : String) → elem x (shuffle (keys caps)) ≡ true → has x caps ≡ true
    known x e = sym (elem-keys caps x) ∙ sym (sh (keys caps) x) ∙ e

    spell :
        (r : Option String)
        → Fit cost caps (shuffle (keys caps)) r
        → ((id : String) → r ≡ some id → fits cost caps id ≡ true)
          × (r ≡ none → (id : String) → fits cost caps id ≡ false)
    spell (some x) f = (λ id e. ground arith, λ e. absurd (cc))
    spell none f = (
      λ id e. absurd (cc),
      λ e id. elim (Bool-cases (has id caps)) [
        | inr missing ↦ ground arith
        | inl there ↦
            All-elem (λ x. fits cost caps x ≡ false) _ id f
              (sh (keys caps) id ∙ elem-keys caps id ∙ there)
      ],
    )
