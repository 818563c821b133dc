-- ===== src/Dm/MessagePair/Delivers.antt =====
-- The message pair against the history of its steps.
use microcosm.Base.{
  ℕ, suc, ◌<◌, Bool, true, false, Option, none, some, List, [], ◌∷◌, Map, lookup, has,
  lookup-insert, lookup-delete, ℕ_eq, eqb, eqb_iff, if◌then◌else◌, ◌≡◌, refl, ap, ◌∙◌, arith,
}
use Prim.Native.Nat.{◌^◌}
use microcosm.Dm.MessagePair.{
  MessagePair, new_message_pair, ResponseError, request_not_found, duplicated_response, alloc,
  begin_request, end_request, receive_from, receive, load_response, send_to, send_response,
}

-- A step of SendRequest or of OnResponse. A look up changes nothing.
pub data Event (R : Type 0) : Type 0 where
  began : Event R
  ended received : ℕ → Event R
  sent : ℕ → R → Event R

alloc_lem : (id : ℕ) → suc id < 2 ^ 64 → alloc id ≡ suc id
alloc_lem id h = omega (arith, h)

module _ {R : Type 0} where
  nothing : (n : ℕ) → lookup {V = Option R} n [] ≡ none
  unfolding lookup
  nothing n = refl

  -- The steps, the last one first.
  unfoldable pub after : List (Event R) → MessagePair R
  after [] = new_message_pair
  after (began ∷ es) = begin_request (after es)
  after (ended id ∷ es) = end_request id (after es)
  after (received id ∷ es) = (receive id (after es)).0
  after (sent id resp ∷ es) = (send_response id resp (after es)).0

  unfoldable pub requests : List (Event R) → ℕ
  requests [] = 0
  requests (began ∷ es) = suc (requests es)
  requests (ended id ∷ es) = requests es
  requests (received id ∷ es) = requests es
  requests (sent id resp ∷ es) = requests es

  -- Whether the n-th request has begun and has not come to its deferred deletion.
  unfoldable pub is_open : ℕ → List (Event R) → Bool
  is_open n [] = false
  is_open n (began ∷ es) =
      let before = is_open n es in if eqb (suc (requests es)) n then true else before
  is_open n (ended id ∷ es) = let before = is_open n es in if eqb id n then false else before
  is_open n (received id ∷ es) = is_open n es
  is_open n (sent id resp ∷ es) = is_open n es

  abbrev pub or_first : R → Option (Option R) → Option (Option R)
  or_first resp none = none
  or_first resp (some none) = some (some resp)
  or_first resp (some (some r)) = some (some r)

  abbrev pub taken : Option (Option R) → Option (Option R)
  taken (some _) = some none
  taken none = none

  -- What is in the channel of the n-th request: nothing before it began, and then the first response that
  -- was sent to it since it began or was last received from, if there was one.
  unfoldable pub answer_of : ℕ → List (Event R) → Option (Option R)
  answer_of n [] = none
  answer_of n (began ∷ es) =
      let before = answer_of n es in if eqb (suc (requests es)) n then some none else before
  answer_of n (ended id ∷ es) = answer_of n es
  answer_of n (received id ∷ es) =
      let before = answer_of n es in if eqb id n then taken before else before
  answer_of n (sent id resp ∷ es) =
      let before = answer_of n es in if eqb id n then or_first resp before else before

  lookup-receive_from :
      (n id : ℕ) (m : MessagePair R) (o : Option (Option R))
      → lookup id m.channels ≡ o
      → lookup n (receive_from id m o).0.channels
        ≡ (if eqb id n then taken o else lookup n m.channels)
  lookup-receive_from n id m none q = ground (arith, q, eqb_iff id n)
  lookup-receive_from n id m (some none) q = ground (arith, q, eqb_iff id n)
  lookup-receive_from n id m (some (some r)) q = lookup-insert id n none m.channels

  lookup-send_to :
      (n id : ℕ) (resp : R) (m : MessagePair R) (o : Option (Option R))
      → lookup id m.channels ≡ o
      → lookup n (send_to id resp m o).0.channels
        ≡ (if eqb id n then or_first resp o else lookup n m.channels)
  lookup-send_to n id resp m none q = ground (arith, q, eqb_iff id n)
  lookup-send_to n id resp m (some none) q = lookup-insert id n (some resp) m.channels
  lookup-send_to n id resp m (some (some r)) q = ground (arith, q, eqb_iff id n)

  -- Of two calls that agree on both numbers.
  by_number :
      (n id : ℕ) (f : Option (Option R) → Option (Option R)) (p : Map ℕ (Option R))
      (es : List (Event R))
      → lookup id p ≡ answer_of id es
      → lookup n p ≡ answer_of n es
      → (if eqb id n then f (lookup id p) else lookup n p)
        ≡ (if eqb id n then f (answer_of n es) else answer_of n es)
  by_number n id f p es a b = ground (arith, a, b, eqb_iff id n)

  -- A receive and a send leave the pending requests as they are.
  abbrev Keeps : MessagePair R → MessagePair R → Type 0
  Keeps m m' = (m'.id ≡ m.id) × (m'.pendings ≡ m.pendings)

  receive_from-Keeps :
      (id : ℕ) (m : MessagePair R) (o : Option (Option R)) → Keeps m (receive_from id m o).0
  receive_from-Keeps id m none = (refl, refl)
  receive_from-Keeps id m (some none) = (refl, refl)
  receive_from-Keeps id m (some (some r)) = (refl, refl)

  send_to-Keeps :
      (id : ℕ) (resp : R) (m : MessagePair R) (o : Option (Option R))
      → Keeps m (send_to id resp m o).0
  send_to-Keeps id resp m none = (refl, refl)
  send_to-Keeps id resp m (some none) = (refl, refl)
  send_to-Keeps id resp m (some (some r)) = (refl, refl)

  id-after : (es : List (Event R)) → requests es < 2 ^ 64 → (after es).id ≡ requests es
  unfolding after requests begin_request end_request receive send_response
  id-after [] h = refl
  id-after (began ∷ es) h =
      let fewer : requests es < 2 ^ 64 = omega (arith, h) in
      ap alloc (id-after es fewer) ∙ alloc_lem (requests es) h
  id-after (ended id ∷ es) h = id-after es h
  id-after (received id ∷ es) h =
      (receive_from-Keeps id (after es) (lookup id (after es).channels)).0 ∙ id-after es h
  id-after (sent id resp ∷ es) h =
      (send_to-Keeps id resp (after es) (lookup id (after es).channels)).0 ∙ id-after es h

  has-after :
      (n : ℕ) (es : List (Event R))
      → requests es < 2 ^ 64
      → has n (after es).pendings ≡ is_open n es
  unfolding after requests is_open begin_request end_request receive send_response lookup
  has-after n [] h = refl
  has-after n (began ∷ es) h =
      let fewer : requests es < 2 ^ 64 = omega (arith, h) in
      let it = has-after n es fewer in
      let same : alloc (after es).id ≡ suc (requests es) =
        ap alloc (id-after es fewer) ∙ alloc_lem (requests es) h in
      ground (arith, it, same, lookup-insert (alloc (after es).id) n tt (after es).pendings)
  has-after n (ended id ∷ es) h =
      let it = has-after n es h in ground (arith, it, lookup-delete id n (after es).pendings)
  has-after n (received id ∷ es) h =
      ap (has n) (receive_from-Keeps id (after es) (lookup id (after es).channels)).1
      ∙ has-after n es h
  has-after n (sent id resp ∷ es) h =
      ap (has n) (send_to-Keeps id resp (after es) (lookup id (after es).channels)).1
      ∙ has-after n es h

  lookup-after :
      (n : ℕ) (es : List (Event R))
      → requests es < 2 ^ 64
      → lookup n (after es).channels ≡ answer_of n es
  unfolding after requests answer_of begin_request end_request receive send_response
  lookup-after n [] h = nothing n
  lookup-after n (began ∷ es) h =
      let fewer : requests es < 2 ^ 64 = omega (arith, h) in
      lookup-insert (alloc (after es).id) n none (after es).channels
      ∙ ap (λ i. if eqb i n then some none else lookup n (after es).channels)
          (id-after (began ∷ es) h)
      ∙ ap (λ o. if eqb (suc (requests es)) n then some none else o) (lookup-after n es fewer)
  lookup-after n (ended id ∷ es) h = lookup-after n es h
  lookup-after n (received id ∷ es) h =
      lookup-receive_from n id (after es) (lookup id (after es).channels) refl
      ∙ by_number n id taken (after es).channels es (lookup-after id es h) (lookup-after n es h)
  lookup-after n (sent id resp ∷ es) h =
      lookup-send_to n id resp (after es) (lookup id (after es).channels) refl
      ∙ by_number n id (or_first resp) (after es).channels es (lookup-after id es h)
          (lookup-after n es h)

  abbrev pub response : Option (Option R) → Option R
  response (some (some r)) = some r
  response (some none) = none
  response none = none

  abbrev pub refusal : ℕ → Option (Option R) → Option ResponseError
  refusal n (some none) = none
  refusal n (some (some _)) = some (duplicated_response n)
  refusal n none = some (duplicated_response n)

  -- After any interleaving of the steps of requests and responses, fewer than 2^64 requests among them: the
  -- n-th request goes on with the first response that was sent to its channel since it began, or since
  -- one was received from there, and with no other; a response is refused as unknown exactly if at its look up
  -- the request has not begun or is over, its entry deleted; and its send, which may come when the request
  -- has ended, is accepted exactly if the channel is empty, and refused as duplicated else.
  pub receive-answer_of :
      (n : ℕ) (resp : R) (es : List (Event R))
      → requests es < 2 ^ 64
      → ((receive n (after es)).1 ≡ response (answer_of n es))
        × (load_response n (after es) ≡ (if is_open n es then none else some (request_not_found n)))
        × ((send_response n resp (after es)).1 ≡ refusal n (answer_of n es))
  unfolding receive load_response send_response
  receive-answer_of n resp es h =
      let m = after es in
      (
        received_is m (lookup n m.channels) ∙ ap response (lookup-after n es h),
        ap (λ b. if b then none else some (request_not_found n)) (has-after n es h),
        refused_is m (lookup n m.channels) ∙ ap (refusal n) (lookup-after n es h),
      )
    where
      received_is :
          (m : MessagePair R) (o : Option (Option R)) → (receive_from n m o).1 ≡ response o
      received_is m none = refl
      received_is m (some none) = refl
      received_is m (some (some r)) = refl

      refused_is :
          (m : MessagePair R) (o : Option (Option R)) → (send_to n resp m o).1 ≡ refusal n o
      refused_is m none = refl
      refused_is m (some none) = refl
      refused_is m (some (some r)) = refl
