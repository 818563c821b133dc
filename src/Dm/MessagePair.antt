-- ===== src/Dm/MessagePair.antt =====
-- pkg/dm/message_pair.go: requests and their responses. SendRequest and OnResponse are taken apart: each
-- access of pendings and of a channel is a step of its own. The channel of a request is made when it begins,
-- holds one response, and lasts for those that have loaded it.
pub mod Delivers
use microcosm.Base.{
  ℕ, ◌+◌, ◌*◌, Bool, true, false, Option, none, some, List, [], ◌∷◌, Map, lookup, insert, delete,
  has, ℕ_eq, if◌then◌else◌,
}
use Prim.Native.Nat.{◌^◌, ◌%◌}

pub record MessagePair (R : Type 0) : Type 0 where
  pub pendings : Map {0, 0} ℕ Unit
  pub channels : Map ℕ (Option R)
  pub id : ℕ

abbrev pub new_message_pair : {R : Type 0} → MessagePair R
new_message_pair = record { pendings = []; channels = []; id = 0 }

pub data ResponseError : Type 0 where
  request_not_found duplicated_response : ℕ → ResponseError

-- Alloc, of an uint64.
abbrev pub alloc : ℕ → ℕ
alloc id = (id + 1) % 2 ^ 64

module _ {R : Type 0} where
  -- SendRequest up to its SendMessage.
  unfoldable pub begin_request : MessagePair R → MessagePair R
  begin_request m = record {
    pendings = insert (alloc m.id) tt m.pendings;
    channels = insert (alloc m.id) none m.channels;
    id = alloc m.id;
  }

  -- The deferred deletion, however SendRequest ends.
  unfoldable pub end_request : ℕ → MessagePair R → MessagePair R
  end_request id m = record m { pendings = delete id m.pendings }

  abbrev pub receive_from : ℕ → MessagePair R → Option (Option R) → MessagePair R × Option R
  receive_from id m (some (some resp)) =
      (record m { channels = insert id none m.channels }, some resp)
  receive_from id m (some none) = (m, none)
  receive_from id m none = (m, none)

  -- The request takes the response out of its channel, if there is one.
  unfoldable pub receive : ℕ → MessagePair R → MessagePair R × Option R
  receive id m = receive_from id m (lookup id m.channels)

  -- OnResponse up to its look up, which finds the channel or answers an error.
  unfoldable pub load_response : ℕ → MessagePair R → Option ResponseError
  load_response id m = if has id m.pendings then none else some (request_not_found id)

  abbrev pub send_to :
      ℕ → R → MessagePair R → Option (Option R) → MessagePair R × Option ResponseError
  send_to id resp m (some none) = (record m { channels = insert id (some resp) m.channels }, none)
  send_to id resp m (some (some _)) = (m, some (duplicated_response id))
  send_to id resp m none = (m, some (duplicated_response id))

  -- The send of OnResponse on the channel that it has loaded.
  unfoldable pub send_response : ℕ → R → MessagePair R → MessagePair R × Option ResponseError
  send_response id resp m = send_to id resp m (lookup id m.channels)
