-- ===== src/Worker/MessageRouter/Window.antt =====
-- The buffer is a window on the last messages.
use microcosm.Base.{
  ℕ, suc, ◌≤◌, ◌<◌, true, false, Option, none, some, List, [], ◌∷◌, ◌++◌, ◌≡◌, refl, ap, ◌∙◌, sym,
  length, length-append, ltb, leb, if◌then◌else◌, append_nil, append_assoc, arith, Bool-cases, inl,
  inr,
}
use microcosm.Worker.MessageRouter.{MessageRouter, append_message}

module _ {A : Type 0} where
  -- The last n elements, or all if there are fewer.
  unfoldable pub keep_last : ℕ → List A → List A
  keep_last n [] = []
  keep_last n (x ∷ xs) =
      let later = keep_last n xs in if leb (suc (length xs)) n then x ∷ xs else later

  keep_last-append :
      (n : ℕ) (xs ys : List A) → keep_last n (keep_last n xs ++ ys) ≡ keep_last n (xs ++ ys)
  unfolding keep_last
  keep_last-append n [] ys = refl
  keep_last-append n (x ∷ xs) ys = elim (Bool-cases (leb (suc (length xs)) n)) [
    | inl q ↦ ap (λ b. keep_last n ((if b then x ∷ xs else keep_last n xs) ++ ys)) q
    | inr q ↦
        let longer : leb (suc (length (xs ++ ys))) n ≡ false =
          ground (arith, q, length-append xs (ys)) in
        ap (λ b. keep_last n ((if b then x ∷ xs else keep_last n xs) ++ ys)) q
        ∙ keep_last-append n xs ys
        ∙ sym (ap (λ b. if b then x ∷ (xs ++ ys) else keep_last n (xs ++ ys)) longer)
  ]

  length-keep_last : (n : ℕ) (xs : List A) → length (keep_last n xs) ≤ n
  unfolding keep_last
  length-keep_last n [] = omega arith
  length-keep_last n (x ∷ xs) = ground (arith, length-keep_last n xs)

  keep_last_all : (n : ℕ) (xs : List A) → length xs ≤ n → keep_last n xs ≡ xs
  unfolding keep_last
  keep_last_all n [] h = refl
  keep_last_all n (x ∷ xs) h = ground (arith, h)

  fits_after :
      (n : ℕ) (msg : A) (xs : List A)
      → length xs < n
      → keep_last n (xs ++ msg ∷ []) ≡ xs ++ msg ∷ []
  fits_after n msg xs h =
      let fits : length (xs ++ msg ∷ []) ≤ n = omega (arith, h, length-append xs (msg ∷ [])) in
      keep_last_all n (xs ++ msg ∷ []) fits

module _ {A E : Type 0} where
  has_room :
      (rounds n : ℕ) (msg : A) (xs : List A) (e : Option E)
      → length xs < n
      → append_message (suc rounds) msg (record { buffer = xs; buffer_size = n; err_ch = e })
        ≡ some (record { buffer = xs ++ msg ∷ []; buffer_size = n; err_ch = e })
  unfolding append_message
  has_room rounds n msg xs e h =
      let room : ltb (length xs) n ≡ true = ground (arith, h) in rw room refl

  is_full :
      (rounds n : ℕ) (msg x : A) (xs : List A) (e : Option E)
      → ltb (suc (length xs)) n ≡ false
      → append_message (suc rounds) msg (record { buffer = x ∷ xs; buffer_size = n; err_ch = e })
        ≡ append_message rounds msg (record { buffer = xs; buffer_size = n; err_ch = e })
  unfolding append_message
  is_full rounds n msg x xs e q = rw q refl

  append_lem :
      (rounds n : ℕ) (msg : A) (xs : List A) (e : Option E)
      → 1 ≤ n
      → length xs ≤ n
      → append_message (suc (suc rounds)) msg (record { buffer = xs; buffer_size = n; err_ch = e })
        ≡ some (record { buffer = keep_last n (xs ++ msg ∷ []); buffer_size = n; err_ch = e })
  unfolding keep_last
  append_lem rounds n msg [] e pos fits =
      has_room (suc rounds) n msg [] e (omega (arith, pos))
      ∙ ap (λ l. some (record { buffer = l; buffer_size = n; err_ch = e }))
          (sym (fits_after n msg [] (omega (arith, pos))))
  append_lem rounds n msg (x ∷ xs) e pos fits = elim (Bool-cases (ltb (suc (length xs)) n)) [
    | inl q ↦
        let room : suc (length xs) < n = ground (arith, q) in
        has_room (suc rounds) n msg (x ∷ xs) e room
        ∙ ap (λ l. some (record { buffer = l; buffer_size = n; err_ch = e }))
            (sym (fits_after n msg (x ∷ xs) room))
    | inr q ↦
        let room : length xs < n = omega (arith, fits) in
        let longer : leb (suc (length (xs ++ msg ∷ []))) n ≡ false =
          ground (arith, q, length-append xs (msg ∷ [])) in
        let shifted =
          ap (λ b. if b then x ∷ (xs ++ msg ∷ []) else keep_last n (xs ++ msg ∷ [])) longer in
        is_full (suc rounds) n msg x xs e q
        ∙ has_room rounds n msg xs e room
        ∙ ap (λ l. some (record { buffer = l; buffer_size = n; err_ch = e }))
            (sym (fits_after n msg xs room) ∙ sym shifted)
  ]

  -- Appending messages one after the other, with two rounds of the loop for each.
  unfoldable pub append_all : List A → MessageRouter A E → Option (MessageRouter A E)
  append_all [] r = some r
  append_all (msg ∷ rest) r = elim (append_message 2 msg r) [
    | none ↦ none
    | some r' ↦ append_all rest r'
  ]

  -- A router with room for at least one message, that holds no more than it has room for: two rounds of the
  -- loop append a message, and after any number of appends without a Tick between them the buffer has the last
  -- messages, in order, as many as there is room for.
  pub append_all-keep_last :
      (n : ℕ) (msgs xs : List A) (e : Option E)
      → 1 ≤ n
      → length xs ≤ n
      → append_all msgs (record { buffer = xs; buffer_size = n; err_ch = e })
        ≡ some (record { buffer = keep_last n (xs ++ msgs); buffer_size = n; err_ch = e })
  unfolding append_all
  append_all-keep_last n [] xs e pos fits =
      ap (λ l. some (record { buffer = l; buffer_size = n; err_ch = e }))
        (sym (ap (keep_last n) (append_nil xs) ∙ keep_last_all n xs fits))
  append_all-keep_last n (msg ∷ rest) xs e pos fits =
      let kept = keep_last n (xs ++ msg ∷ []) in
      ap (λ o. elim o [ none ↦ none | some r' ↦ append_all rest r' ])
        (append_lem 0 n msg xs e pos fits)
      ∙ append_all-keep_last n rest kept e pos (length-keep_last n (xs ++ msg ∷ []))
      ∙ ap (λ l. some (record { buffer = l; buffer_size = n; err_ch = e }))
          (keep_last-append n (xs ++ msg ∷ []) rest
            ∙ ap (keep_last n) (append_assoc xs (msg ∷ []) rest))
