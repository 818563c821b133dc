-- ===== src/Containers/SliceQueue/Tests.antt =====
-- Runs of the slice queue.
use microcosm.Base.{ℕ, ◌+◌, ◌≤◌, false, some, List, [], ◌∷◌, ◌++◌, ◌≡◌, refl}
use microcosm.Containers.SliceQueue.{new_slice_queue, push_elem, pop, peek, size, is_empty}
use microcosm.Containers.SliceQueue.Fifo.{
  Event, pushes, sends, receives, pops_on_signal, run, new_world, signals, run-fifo,
}

abbrev busy : List (Event ℕ)
busy = pushes 7 ∷ pushes 8 ∷ sends ∷ receives ∷ pops_on_signal ∷ []

run-fifo_example :
    let w = run busy new_world in
    (w.popped ++ w.queue.elems ≡ w.pushed)
    × (is_empty w.queue.elems ≡ false → 1 ≤ signals w.queue.signalled + (w.senders + w.consumers))
run-fifo_example = run-fifo busy

peek_then_pop :
    let q = (push_elem {A = ℕ} 8 (push_elem 7 new_slice_queue).0).0 in
    (peek q ≡ some 7) × (size q ≡ 2) × ((pop q).1 ≡ some 7)
unfolding peek size pop push_elem new_slice_queue
peek_then_pop = (refl, refl, refl)
