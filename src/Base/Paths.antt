-- ===== src/Base/Paths.antt =====
-- What the repository uses of Go's strings and path packages, on texts as lists of their code points.
use microcosm.Base.Tests.{eqb, if◌then◌else◌, ℕ_eq}
use microcosm.Base.Maps.{All}
use Prim.Native.Nat.{ℕ}
use mathlib.Core.Path.{◌≡◌, refl, ap, sym, ◌∙◌}
use mathlib.Core.Bool.{Bool, true, false, ◌&&◌}
use mathlib.Core.Option.{Option, none, some}
use mathlib.Core.List.{List, [], ◌∷◌, ◌++◌}
use native.Mathlib.Omega.{arith}

abbrev pub Text : Type 0
Text = List ℕ

abbrev pub slash : ℕ
slash = 47

abbrev pub dot : ℕ
dot = 46

abbrev pub is_dot : Text → Bool
is_dot (c ∷ []) = eqb c dot
is_dot _ = false

abbrev pub is_dot_dot : Text → Bool
is_dot_dot (c ∷ d ∷ []) = eqb c dot && eqb d dot
is_dot_dot _ = false

abbrev pub add_to_first : ℕ → List Text → List Text
add_to_first c [] = (c ∷ []) ∷ []
add_to_first c (x ∷ xs) = (c ∷ x) ∷ xs

-- strings.Split at a slash.
unfoldable pub split : Text → List Text
split [] = [] ∷ []
split (c ∷ s) = let rest = split s in if eqb c slash then [] ∷ rest else add_to_first c rest

-- strings.Join with a slash.
unfoldable pub join : List Text → Text
join [] = []
join (x ∷ []) = x
join (x ∷ y ∷ ys) = x ++ slash ∷ join (y ∷ ys)

unfoldable pub strip : Text → Text → Option Text
strip [] s = some s
strip (c ∷ p) [] = none
strip (c ∷ p) (d ∷ s) = let rest = strip p s in if eqb c d then rest else none

-- strings.TrimPrefix, with the text first.
unfoldable pub trim_prefix : Text → Text → Text
trim_prefix s p = elim (strip p s) [ none ↦ s | some rest ↦ rest ]

unfoldable pub rev_onto : List Text → List Text → List Text
rev_onto [] acc = acc
rev_onto (x ∷ xs) acc = rev_onto xs (x ∷ acc)

-- What ".." does to the elements so far, the last one first.
abbrev pub go_up : Bool → List Text → List Text
go_up true [] = []
go_up false [] = (dot ∷ dot ∷ []) ∷ []
go_up rooted (x ∷ xs) = if is_dot_dot x then (dot ∷ dot ∷ []) ∷ x ∷ xs else xs

abbrev pub is_empty_text : Text → Bool
is_empty_text [] = true
is_empty_text (_ ∷ _) = false

-- An element of a path that path.Clean reads.
abbrev pub step_into : Bool → Text → List Text → List Text
step_into rooted x stack =
    if is_empty_text x
    then stack
    else if is_dot x
    then stack
    else if is_dot_dot x
    then go_up rooted stack
    else x ∷ stack

unfoldable pub clean_from : Bool → List Text → List Text → List Text
clean_from rooted stack [] = rev_onto stack []
clean_from rooted stack (x ∷ xs) = clean_from rooted (step_into rooted x stack) xs

abbrev pub or_dot : Text → Text
or_dot [] = dot ∷ []
or_dot (c ∷ s) = c ∷ s

-- path.Clean.
unfoldable pub clean : Text → Text
clean [] = dot ∷ []
clean (c ∷ s) =
    if eqb c slash
    then slash ∷ join (clean_from true [] (split (c ∷ s)))
    else or_dot (join (clean_from false [] (split (c ∷ s))))

-- path.Join.
unfoldable pub path_join : List Text → Text
path_join [] = []
path_join ([] ∷ xs) = path_join xs
path_join ((c ∷ x) ∷ xs) = clean (join ((c ∷ x) ∷ xs))

-- A part of a path that is kept as it is: not empty, without slashes and dots.
abbrev pub IsPlainChar : ℕ → Type 0
IsPlainChar c = (eqb c slash ≡ false) × (eqb c dot ≡ false)

abbrev pub IsPlain : Text → Type 0
IsPlain x = (is_empty_text x ≡ false) × All IsPlainChar x

abbrev pub NotNil : List Text → Type 0
NotNil [] = ⊥
NotNil (_ ∷ _) = Unit

pub append_assoc {ℓ} : {A : Type ℓ} (xs ys zs : List A) → (xs ++ ys) ++ zs ≡ xs ++ (ys ++ zs)
append_assoc [] ys zs = refl
append_assoc (x ∷ xs) ys zs = ap (λ l. x ∷ l) (append_assoc xs ys zs)

pub append_nil {ℓ} : {A : Type ℓ} (xs : List A) → xs ++ [] ≡ xs
append_nil [] = refl
append_nil (x ∷ xs) = ap (λ l. x ∷ l) (append_nil xs)

split_at_slash : (x s : Text) → All IsPlainChar x → split (x ++ slash ∷ s) ≡ x ∷ split s
unfolding split
split_at_slash [] s h = refl
split_at_slash (c ∷ x) s h = rw (h.0.0, split_at_slash x s h.1) refl

split_plain : (x : Text) → All IsPlainChar x → split x ≡ x ∷ []
unfolding split
split_plain [] h = refl
split_plain (c ∷ x) h = rw (h.0.0, split_plain x h.1) refl

pub split-join : (xs : List Text) → NotNil xs → All IsPlain xs → split (join xs) ≡ xs
unfolding join
split-join [] n h = absurd n
split-join (x ∷ []) n h = split_plain x h.0.1
split-join (x ∷ y ∷ ys) n h =
    split_at_slash x (join (y ∷ ys)) h.0.1 ∙ ap (λ l. x ∷ l) (split-join (y ∷ ys) tt h.1)

pub split_joined :
    (xs : List Text) (s : Text)
    → NotNil xs
    → All IsPlain xs
    → split (join xs ++ slash ∷ s) ≡ xs ++ split s
unfolding join
split_joined [] s n h = absurd n
split_joined (x ∷ []) s n h = split_at_slash x s h.0.1
split_joined (x ∷ y ∷ ys) s n h =
    ap split (append_assoc x (slash ∷ join (y ∷ ys)) (slash ∷ s))
    ∙ split_at_slash x (join (y ∷ ys) ++ slash ∷ s) h.0.1
    ∙ ap (λ l. x ∷ l) (split_joined (y ∷ ys) s tt h.1)

pub join_append :
    (xs ys : List Text) → NotNil xs → NotNil ys → join (xs ++ ys) ≡ join xs ++ slash ∷ join ys
unfolding join
join_append [] ys n m = absurd n
join_append (x ∷ []) [] n m = absurd m
join_append (x ∷ []) (y ∷ ys) n m = refl
join_append (x ∷ z ∷ xs) ys n m =
    ap (λ l. x ++ slash ∷ l) (join_append (z ∷ xs) ys tt m)
    ∙ sym (append_assoc x (slash ∷ join (z ∷ xs)) (slash ∷ join ys))

step_into_plain :
    (rooted : Bool) (x : Text) (stack : List Text)
    → IsPlain x
    → step_into rooted x stack ≡ x ∷ stack
step_into_plain rooted [] stack h = absurd (cc)
step_into_plain rooted (c ∷ []) stack h = ground (arith, h.1.0.1)
step_into_plain rooted (c ∷ d ∷ []) stack h = ground (arith, h.1.0.1)
step_into_plain rooted (c ∷ d ∷ e ∷ x) stack h = refl

pub clean_from_plain :
    (rooted : Bool) (xs ys stack : List Text)
    → All IsPlain xs
    → clean_from rooted stack (xs ++ ys) ≡ clean_from rooted (rev_onto xs stack) ys
unfolding clean_from rev_onto
clean_from_plain rooted [] ys stack h = refl
clean_from_plain rooted (x ∷ xs) ys stack h =
    ap (λ st. clean_from rooted st (xs ++ ys)) (step_into_plain rooted x stack h.0)
    ∙ clean_from_plain rooted xs ys (x ∷ stack) h.1

pub rev_onto_twice :
    (xs stack acc : List Text) → rev_onto (rev_onto xs stack) acc ≡ rev_onto stack (xs ++ acc)
unfolding rev_onto
rev_onto_twice [] stack acc = refl
rev_onto_twice (x ∷ xs) stack acc = rev_onto_twice xs (x ∷ stack) acc

cleaned :
    (segs hs : List Text)
    → All IsPlain segs
    → All IsPlain hs
    → clean_from true [] ([] ∷ segs ++ [] ∷ hs) ≡ segs ++ hs
unfolding clean_from rev_onto
cleaned segs hs p q =
    clean_from_plain true segs ([] ∷ hs) [] p
    ∙ ap (clean_from true (rev_onto segs [])) (sym (append_nil hs))
    ∙ clean_from_plain true hs [] (rev_onto segs []) q
    ∙ rev_onto_twice hs (rev_onto segs []) []
    ∙ ap (rev_onto (rev_onto segs [])) (append_nil hs)
    ∙ rev_onto_twice segs [] hs

-- A prefix of plain parts that ends with a slash, joined to plain parts.
pub path_join_plain :
    (segs hs : List Text)
    → NotNil segs
    → NotNil hs
    → All IsPlain segs
    → All IsPlain hs
    → path_join ((slash ∷ join segs ++ slash ∷ []) ∷ hs) ≡ slash ∷ join (segs ++ hs)
unfolding path_join clean join split
path_join_plain segs [] n m p q = absurd m
path_join_plain segs (h ∷ hs) n m p q =
    ap (λ t. slash ∷ join (clean_from true [] (split (slash ∷ t))))
      (append_assoc (join segs) (slash ∷ []) (slash ∷ join (h ∷ hs)))
    ∙ ap (λ l. slash ∷ join (clean_from true [] ([] ∷ l)))
        (split_joined segs (slash ∷ join (h ∷ hs)) n p
          ∙ ap (λ l. segs ++ [] ∷ l) (split-join (h ∷ hs) tt q))
    ∙ ap (λ l. slash ∷ join l) (cleaned segs (h ∷ hs) p q)
