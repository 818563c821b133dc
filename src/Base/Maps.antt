-- ===== src/Base/Maps.antt =====
-- Go's maps as association lists. A range over a map visits the entries in the list's order;
-- statements hold for every list, so for every order that Go may choose.
use Prim.Native.Nat.{ℕ, suc, ◌+◌}
use mathlib.Core.Path.{◌≡◌, refl, subst₂}
use mathlib.Core.Logic.{inl, inr}
use mathlib.Core.Bool.{Bool, true}
use mathlib.Core.Option.{Option, none, some}
use mathlib.Core.List.{List, [], ◌∷◌, ◌++◌}
use native.Mathlib.Omega.{arith}
use microcosm.Base.Tests.{Eq, ◌==◌, ==-self, Bool-cases, if◌then◌else◌, is_some}

abbrev pub Map {ℓ κ} : Type ℓ → Type κ → Type (ℓ ⊔ κ)
Map K V = List (K × V)

module _ {ℓ} {A : Type ℓ} where
  abbrev pub length : List A → ℕ
  length [] = 0
  length (x ∷ xs) = suc (length xs)

  pub length-append : (xs ys : List A) → length (xs ++ ys) ≡ length xs + length ys
  length-append [] ys = omega arith
  length-append (x ∷ xs) ys = omega (arith, length-append xs ys)

-- A predicate of every element.
abbrev pub All {ℓ κ} : {A : Type ℓ} → (A → Type κ) → List A → Type κ
All P [] = Unit
All P (x ∷ xs) = P x × All P xs

pub All-mono {ℓ κ ι} :
    {A : Type ℓ} {P : A → Type κ} {Q : A → Type ι} (xs : List A)
    → ((a : A) → P a → Q a)
    → All P xs
    → All Q xs
All-mono [] f h = tt
All-mono (x ∷ xs) f h = (f x h.0, All-mono xs f h.1)

module _ {ℓ κ} {K : Type ℓ} {V : Type κ} ⦃e : Eq K⦄ where
  unfoldable pub lookup : K → Map K V → Option V
  lookup k [] = none
  lookup k ((j, v) ∷ m) = if j == k then some v else lookup k m

  unfoldable pub insert : K → V → Map K V → Map K V
  insert k v [] = (k, v) ∷ []
  insert k v ((i, w) ∷ rest) = if i == k then (k, v) ∷ rest else (i, w) ∷ insert k v rest

  unfoldable pub delete : K → Map K V → Map K V
  delete k [] = []
  delete k ((j, w) ∷ m) = let rest = delete k m in if j == k then rest else (j, w) ∷ rest

  abbrev pub has : K → Map K V → Bool
  has k m = is_some (lookup k m)

  pub lookup-insert :
      (k j : K) (v : V) (m : Map K V)
      → lookup j (insert k v m) ≡ (if k == j then some v else lookup j m)
  unfolding insert lookup
  lookup-insert k j v [] = refl
  lookup-insert k j v ((i, w) ∷ m) =
      let ih = lookup-insert k j v m in
      ground (arith, e.tests_eq i j, e.tests_eq i k, e.tests_eq k j, ih)

  pub lookup-delete :
      (k j : K) (m : Map K V) → lookup j (delete k m) ≡ (if k == j then none else lookup j m)
  unfolding lookup delete
  lookup-delete k j [] = ground arith
  lookup-delete k j ((i, w) ∷ m) =
      ground (arith, e.tests_eq k j, e.tests_eq i k, e.tests_eq i j, lookup-delete k j m)

  pub lookup-insert_self : (k : K) (v : V) (m : Map K V) → lookup k (insert k v m) ≡ some v
  lookup-insert_self k v m = ground (arith, lookup-insert k k v m, ==-self k)

  pub lookup-delete_self : (k : K) (m : Map K V) → lookup k (delete k m) ≡ none
  lookup-delete_self k m = ground (arith, lookup-delete k k m, ==-self k)

  -- No key stands twice: what a Go map keeps by itself.
  abbrev pub IsMap : Map K V → Type κ
  IsMap [] = Unit
  IsMap ((k, v) ∷ m) = (lookup k m ≡ none) × IsMap m

  pub insert-IsMap : (k : K) (v : V) (m : Map K V) → IsMap m → IsMap (insert k v m)
  unfolding insert lookup
  insert-IsMap k v [] h = (refl, tt)
  insert-IsMap k v ((i, w) ∷ m) h =
      ground (arith, e.tests_eq i k, e.tests_eq k i, lookup-insert k i v m, insert-IsMap k v m h.1)

  pub delete-IsMap : (k : K) (m : Map K V) → IsMap m → IsMap (delete k m)
  unfolding lookup delete
  delete-IsMap k [] h = tt
  delete-IsMap k ((i, w) ∷ m) h = ground (arith, lookup-delete k i m, delete-IsMap k m h.1)

  pub delete_missing : (k : K) (m : Map K V) → lookup k m ≡ none → delete k m ≡ m
  unfolding lookup delete
  delete_missing k [] h = refl
  delete_missing k ((i, w) ∷ m) h = ground (arith, delete_missing k m)

  pub length-insert :
      (k : K) (v : V) (m : Map K V)
      → length (insert k v m) ≡ (if has k m then length m else suc (length m))
  unfolding insert lookup
  length-insert k v [] = refl
  length-insert k v ((i, w) ∷ m) = ground (arith, length-insert k v m)

  pub length-delete :
      (k : K) (m : Map K V)
      → IsMap m
      → (if has k m then suc (length (delete k m)) else length (delete k m)) ≡ length m
  unfolding lookup delete
  length-delete k [] h = refl
  length-delete k ((i, w) ∷ m) h =
      ground (arith, e.tests_eq i k, delete_missing k m, length-delete k m h.1)

  -- Every key of a map is found in it.
  pub keys-has : (m : Map K V) → All (λ entry. has entry.0 m ≡ true) m
  unfolding lookup
  keys-has [] = tt
  keys-has ((k, v) ∷ m) =
      (ground (arith, ==-self k), All-mono m (λ entry h. ground arith) (keys-has m))

  -- What holds of every entry holds of one that is found.
  pub lookup-All {ι} :
      (P : K × V → Type ι) (k : K) (m : Map K V) (v : V) → lookup k m ≡ some v → All P m → P (k, v)
  unfolding lookup
  lookup-All P k [] v q h = cc
  lookup-All P k ((j, w) ∷ m) v q h = elim (Bool-cases (j == k)) [
    | inl hit ↦
        let same : w ≡ v = ground arith in
        subst₂ (λ a b. P (a, b)) ((e.tests_eq j k).0 hit) same h.0
    | inr miss ↦ let found : lookup k m ≡ some v = ground arith in lookup-All P k m v found h.1
  ]

  pub insert-All {ι} :
      (P : K × V → Type ι) (k : K) (v : V) (m : Map K V) → P (k, v) → All P m → All P (insert k v m)
  unfolding insert
  insert-All P k v [] p h = (p, tt)
  insert-All P k v ((j, w) ∷ m) p h = elim (Bool-cases (j == k)) [
    | inl hit ↦ rw hit (p, h.1)
    | inr miss ↦ rw miss (h.0, insert-All P k v m p h.1)
  ]

  pub delete-All {ι} : (P : K × V → Type ι) (k : K) (m : Map K V) → All P m → All P (delete k m)
  unfolding delete
  delete-All P k [] h = tt
  delete-All P k ((j, w) ∷ m) h = elim (Bool-cases (j == k)) [
    | inl hit ↦ rw hit (delete-All P k m h.1)
    | inr miss ↦ rw miss (h.0, delete-All P k m h.1)
  ]
