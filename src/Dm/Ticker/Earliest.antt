-- ===== src/Dm/Ticker/Earliest.antt =====
-- The next check is due as soon as one of the times has come that were asked for.
use microcosm.Base.{
  ℕ, ◌<◌, Bool, true, false, ◌||◌, List, [], ◌∷◌, ltb, leb, All, ◌≡◌, refl, ◌∙◌, ap, inl, inr,
  arith, Bool-cases,
}
use microcosm.Dm.Ticker.{DefaultTicker, set_next_check_time, is_due, advance_check_time}

-- The calls of SetNextCheckTime, the first one first.
unfoldable pub set_all : List ℕ → DefaultTicker → DefaultTicker
set_all [] s = s
set_all (t ∷ ts) s = set_all ts (set_next_check_time t s)

-- Has one of the times come?
unfoldable pub any_come : ℕ → List ℕ → Bool
any_come now [] = false
any_come now (t ∷ ts) = leb t now || any_come now ts

sooner_sets :
    (t : ℕ) (s : DefaultTicker)
    → s.last_check_time < t
    → ltb t s.next_check_time ≡ true
    → set_next_check_time t s ≡ record s { next_check_time = t }
unfolding set_next_check_time
sooner_sets t s after sooner = ground arith

later_keeps :
    (t : ℕ) (s : DefaultTicker)
    → s.last_check_time < s.next_check_time
    → ltb t s.next_check_time ≡ false
    → set_next_check_time t s ≡ s
unfolding set_next_check_time
later_keeps t s open_ later = ground arith

first_sets :
    (now t : ℕ) (s : DefaultTicker)
    → set_next_check_time t (advance_check_time now s)
      ≡ record (advance_check_time now s) { next_check_time = t }
unfolding set_next_check_time advance_check_time
first_sets now t s = ground arith

due_at :
    (now t : ℕ) (s : DefaultTicker) (ts : List ℕ)
    → s.next_check_time ≡ t
    → (is_due now s || any_come now ts) ≡ (leb t now || any_come now ts)
unfolding is_due
due_at now t s ts q = ground (arith, q)

due_later :
    (now : ℕ) (ts : List ℕ) (s : DefaultTicker)
    → s.last_check_time < s.next_check_time
    → All (λ t. s.last_check_time < t) ts
    → is_due now (set_all ts s) ≡ (is_due now s || any_come now ts)
unfolding set_all any_come is_due
due_later now [] s open_ h = ground arith
due_later now (t ∷ ts) s open_ h = elim (Bool-cases (ltb t s.next_check_time)) [
  | inl sooner ↦
      let set : set_next_check_time t s ≡ record s { next_check_time = t } =
        sooner_sets t s h.0 sooner in
      ap (λ s'. is_due now (set_all ts s')) set
      ∙ due_later now ts (record s { next_check_time = t }) h.0 h.1
      ∙ ground arith
  | inr later ↦
      let kept : set_next_check_time t s ≡ s = later_keeps t s open_ later in
      ap (λ s'. is_due now (set_all ts s')) kept ∙ due_later now ts s open_ h.1 ∙ ground arith
]

-- After a check at one time, and requests for checks at later ones, the next check is due exactly when
-- one of the requested times has come.
pub is_due-set_all :
    (start now t : ℕ) (ts : List ℕ) (s : DefaultTicker)
    → All (λ u. start < u) (t ∷ ts)
    → is_due now (set_all (t ∷ ts) (advance_check_time start s)) ≡ any_come now (t ∷ ts)
unfolding set_all any_come advance_check_time
is_due-set_all start now t ts s h =
    ap (λ s'. is_due now (set_all ts s')) (first_sets start t s)
    ∙ due_later now ts (record (advance_check_time start s) { next_check_time = t }) h.0 h.1
    ∙ due_at now t (record (advance_check_time start s) { next_check_time = t }) ts refl
