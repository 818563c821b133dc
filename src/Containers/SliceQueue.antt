-- ===== src/Containers/SliceQueue.antt =====
-- pkg/containers/slice_queue.go: a queue with a signal for the consumers that wait. The channel holds
-- one signal. Push lets go of the lock before it sends, so it is two steps; Pop sends under the lock,
-- so it is one. The pool hands out slices of length 0, so it is no part of the state, and a nil slice
-- is an empty one.
pub mod Fifo
mod Tests
use microcosm.Base.{
  ℕ, zero, suc, Bool, true, false, Option, none, some, List, [], ◌∷◌, ◌++◌, length,
}

pub record SliceQueue (A : Type 0) : Type 0 where
  pub elems : List A
  pub signalled : Bool

module _ {A : Type 0} where
  unfoldable pub new_slice_queue : SliceQueue A
  new_slice_queue = record { elems = []; signalled = false }

  -- The select that sends, or finds the channel full.
  unfoldable pub send : SliceQueue A → SliceQueue A
  send q = record q { signalled = true }

  abbrev pub is_empty : List A → Bool
  is_empty [] = true
  is_empty (_ ∷ _) = false

  -- Push up to the unlock, with the flag that tells whether to send.
  unfoldable pub push_elem : A → SliceQueue A → SliceQueue A × Bool
  push_elem elem q = (record q { elems = q.elems ++ elem ∷ [] }, is_empty q.elems)

  unfoldable pub resignal : List A → SliceQueue A → SliceQueue A
  resignal [] q = q
  resignal (_ ∷ _) q = send q

  unfoldable pub pop : SliceQueue A → SliceQueue A × Option A
  pop q = elim q.elems [
    | [] ↦ (q, none)
    | ret ∷ rest ↦ (resignal rest (record q { elems = rest }), some ret)
  ]

  unfoldable pub peek : SliceQueue A → Option A
  peek q = elim q.elems [ [] ↦ none | x ∷ _ ↦ some x ]

  unfoldable pub size : SliceQueue A → ℕ
  size q = length q.elems
