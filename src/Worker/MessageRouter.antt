-- ===== src/Worker/MessageRouter.antt =====
-- lib/message_router.go: the buffer of a worker's messages, with one producer and one consumer. Each of its
-- selects is one step; which ready branch a select takes is an argument. The channels are lists with a bound.
pub mod Window
use microcosm.Base.{
  ℕ, zero, suc, Bool, true, false, Option, none, some, List, [], ◌∷◌, ◌++◌, length, ltb,
  if◌then◌else◌,
}

pub record MessageRouter (A E : Type 0) : Type 0 where
  pub buffer : List A
  pub buffer_size : ℕ
  pub err_ch : Option E

-- What Tick gives: the end of its context, nothing, or a message that is handed to the pool.
pub data Ticked (A : Type 0) : Type 0 where
  context_done nothing_there : Ticked A
  routed : A → Ticked A

module _ {A E : Type 0} where
  abbrev pub new_message_router : ℕ → MessageRouter A E
  new_message_router buffer_size = record { buffer = []; buffer_size = buffer_size; err_ch = none }

  -- The oldest message is taken from the channel, if there is one.
  abbrev pub drop_oldest : MessageRouter A E → MessageRouter A E
  drop_oldest r = record r { buffer = elim r.buffer [ [] ↦ [] | _ ∷ rest ↦ rest ] }

  -- AppendMessage, with a bound on the rounds of its loop.
  unfoldable pub append_message : ℕ → A → MessageRouter A E → Option (MessageRouter A E)
  append_message zero msg r = none
  append_message (suc rounds) msg r =
      let again = append_message rounds msg (drop_oldest r) in
      if ltb (length r.buffer) r.buffer_size
      then some (record r { buffer = r.buffer ++ msg ∷ [] })
      else again

  unfoldable pub tick_router : Bool → MessageRouter A E → MessageRouter A E × Ticked A
  tick_router sees_done r =
      let received : MessageRouter A E × Ticked A = elim r.buffer [
        | [] ↦ (r, nothing_there)
        | msg ∷ rest ↦ (record r { buffer = rest }, routed msg)
      ] in
      if sees_done then (r, context_done) else received

  -- The routing function has given an error.
  unfoldable pub on_route_error : E → MessageRouter A E → MessageRouter A E
  on_route_error e r = record r {
    err_ch = elim r.err_ch [ none ↦ some e | some first ↦ some first ];
  }
