-- ===== src/Containers/SliceQueue/Fifo.antt =====
-- The queue among any number of producers and consumers. A consumer takes the signal and then pops; any
-- caller may pop without it.
use microcosm.Base.{
  ℕ, suc, ◌+◌, ◌-◌, ◌≤◌, eqb, Bool-cases, inl, inr, Bool, true, false, Option, none, some, List, [],
  ◌∷◌, ◌++◌, ◌≡◌, refl, ap, arith, if◌then◌else◌,
}
use microcosm.Containers.SliceQueue.{
  SliceQueue, new_slice_queue, send, is_empty, push_elem, resignal, pop,
}

-- The queue, with the producers that have still to send and the consumers that have taken a signal and
-- have still to pop, and with the history of what came in and what went out.
pub record World (A : Type 0) : Type 0 where
  pub queue : SliceQueue A
  pub senders : ℕ
  pub consumers : ℕ
  pub pushed : List A
  pub popped : List A

pub data Event (A : Type 0) : Type 0 where
  pushes : A → Event A
  sends receives pops_on_signal pops : Event A

abbrev pub signals : Bool → ℕ
signals true = 1
signals false = 0

module _ {A : Type 0} where
  abbrev pub new_world : World A
  new_world = record {
    queue = new_slice_queue;
    senders = 0;
    consumers = 0;
    pushed = [];
    popped = [];
  }

  abbrev out : Option A → List A → List A
  out none xs = xs
  out (some x) xs = xs ++ x ∷ []

  unfoldable pub do_push : A → World A → World A
  do_push x w =
      let (q, signal) = push_elem x w.queue in
      record w {
        queue = q;
        senders = if signal then suc w.senders else w.senders;
        pushed = w.pushed ++ x ∷ [];
      }

  unfoldable pub do_send : World A → World A
  do_send w =
      if eqb w.senders 0 then w else record w { queue = send w.queue; senders = w.senders - 1 }

  -- A receive from an empty channel waits.
  unfoldable pub do_receive : World A → World A
  do_receive w =
      if w.queue.signalled
      then record w { queue = record (w.queue) { signalled = false }; consumers = suc w.consumers }
      else w

  unfoldable pub do_pop : World A → World A
  do_pop w = let (q, x) = pop w.queue in record w { queue = q; popped = out x w.popped }

  unfoldable pub do_signalled_pop : World A → World A
  do_signalled_pop w =
      if eqb w.consumers 0 then w else do_pop (record w { consumers = w.consumers - 1 })

  unfoldable pub step : Event A → World A → World A
  step (pushes x) = do_push x
  step sends = do_send
  step receives = do_receive
  step pops_on_signal = do_signalled_pop
  step pops = do_pop

  unfoldable pub run : List (Event A) → World A → World A
  run [] w = w
  run (e ∷ es) w = run es (step e w)

  -- First in, first out; and an element that waits has somebody who comes for it, or will be told to.
  pub record Inv (w : World A) : Type 0 where
    pub fifo : w.popped ++ w.queue.elems ≡ w.pushed
    pub awake :
        is_empty w.queue.elems ≡ false → 1 ≤ signals w.queue.signalled + (w.senders + w.consumers)

  append_assoc : (xs ys zs : List A) → (xs ++ ys) ++ zs ≡ xs ++ (ys ++ zs)
  append_assoc [] ys zs = refl
  append_assoc (x ∷ xs) ys zs = ap (λ l. x ∷ l) (append_assoc xs ys zs)

  do_push-Inv : (x : A) (w : World A) → Inv w → Inv (do_push x w)
  unfolding do_push push_elem
  do_push-Inv x w v = record {
    fifo = ground (arith, v.fifo, append_assoc w.popped w.queue.elems (x ∷ []));
    awake = λ h. ground (arith, v.awake);
  }

  do_send-Inv : (w : World A) → Inv w → Inv (do_send w)
  unfolding do_send send
  do_send-Inv w v = record { fifo = ground (arith, v.fifo); awake = λ h. ground (arith, v.awake) }

  do_receive-Inv : (w : World A) → Inv w → Inv (do_receive w)
  unfolding do_receive
  do_receive-Inv w v = record {
    fifo = ground (arith, v.fifo);
    awake = λ h. ground (arith, v.awake);
  }

  pop-Inv :
      (q : List A) (w : World A) → w.queue.elems ≡ q → w.popped ++ q ≡ w.pushed → Inv (do_pop w)
  unfolding do_pop pop resignal send
  pop-Inv [] w e v = record { fifo = ground (arith, v); awake = λ h. ground arith }
  pop-Inv (x ∷ q) w e v = record {
    fifo = ground (arith, v, append_assoc w.popped (x ∷ []) q);
    awake = λ h. ground arith;
  }

  do_signalled_pop-Inv : (w : World A) → Inv w → Inv (do_signalled_pop w)
  unfolding do_signalled_pop
  do_signalled_pop-Inv w v = elim (Bool-cases (eqb w.consumers 0)) [
    | inl idle ↦ rw idle v
    | inr busy ↦
        rw busy (pop-Inv w.queue.elems (record w { consumers = w.consumers - 1 }) refl v.fifo)
  ]

  step-Inv : (e : Event A) (w : World A) → Inv w → Inv (step e w)
  unfolding step
  step-Inv (pushes x) w v = do_push-Inv x w v
  step-Inv sends w v = do_send-Inv w v
  step-Inv receives w v = do_receive-Inv w v
  step-Inv pops_on_signal w v = do_signalled_pop-Inv w v
  step-Inv pops w v = pop-Inv w.queue.elems w refl v.fifo

  new_world-Inv : Inv new_world
  unfolding new_slice_queue
  new_world-Inv = record { fifo = refl; awake = λ h. absurd (cc) }

  run-Inv : (es : List (Event A)) (w : World A) → Inv w → Inv (run es w)
  unfolding run
  run-Inv [] w v = v
  run-Inv (e ∷ es) w v = run-Inv es (step e w) (step-Inv e w v)

  -- Whatever the order in which producers and consumers take their steps, the elements come out in the
  -- order in which they went in, none lost and none twice; and while an element waits, a signal stands
  -- in the channel, or a producer is about to send one, or a consumer that took one is about to pop.
  pub run-fifo :
      (es : List (Event A))
      → let w = run es new_world in
        (w.popped ++ w.queue.elems ≡ w.pushed)
        × (is_empty w.queue.elems ≡ false
            → 1 ≤ signals w.queue.signalled + (w.senders + w.consumers))
  run-fifo es = let v = run-Inv es new_world new_world-Inv in (v.fifo, v.awake)
