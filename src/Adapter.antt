-- ===== src/Adapter.antt =====
-- pkg/adapter/keyadapter.go: the keys of the metadata store. encoding/hex of Go's library is written
-- out here. A text is a list of bytes.
pub mod RoundTrip
mod Tests
use Prim.Native.Nat.{◌/◌, ◌%◌}
use mathlib.Core.Option
use microcosm.Base.{
  ℕ, ◌+◌, ◌*◌, ◌-◌, Bool, true, false, Option, none, some, List, [], ◌∷◌, ◌++◌, map, ltb, leb, eqb,
  ◌&&◌, not, if◌then◌else◌, Outcome, returns, panics, Text, slash, split, path_join, trim_prefix,
}

abbrev pub hex_digit : ℕ → ℕ
hex_digit d = if ltb d 10 then 48 + d else 87 + d

-- hex.EncodeToString.
unfoldable pub encode_to_string : Text → Text
encode_to_string [] = []
encode_to_string (b ∷ bs) = hex_digit (b / 16) ∷ hex_digit (b % 16) ∷ encode_to_string bs

abbrev pub from_hex_char : ℕ → Option ℕ
from_hex_char c =
    if leb 48 c && leb c 57
    then some (c - 48)
    else if leb 97 c && leb c 102
    then some (c - 87)
    else if leb 65 c && leb c 70
    then some (c - 55)
    else none

-- hex.DecodeString, where `none` is an error.
unfoldable pub decode_string : Text → Option Text
decode_string [] = some []
decode_string (c ∷ []) = none
decode_string (c ∷ d ∷ s) =
    let rest = decode_string s in
    Option.bind (from_hex_char c) (λ high.
      Option.bind (from_hex_char d) (λ low. Option.map (λ bs. (16 * high + low) ∷ bs) rest))

unfoldable pub encode : Text → List Text → Text
encode prefix keys = path_join (prefix ∷ map encode_to_string keys)

-- The key without a slash at its end; the last byte of an empty key is out of range.
unfoldable pub without_last_slash : Text → Outcome Text
without_last_slash [] = panics
without_last_slash (c ∷ []) = returns (if eqb c slash then [] else c ∷ [])
without_last_slash (c ∷ d ∷ s) = elim (without_last_slash (d ∷ s)) [
  | panics ↦ panics
  | returns rest ↦ returns (c ∷ rest)
]

unfoldable pub decode_parts : List Text → Option (List Text)
decode_parts [] = some []
decode_parts (k ∷ ks) =
    let rest = decode_parts ks in
    Option.bind (decode_string k) (λ dec. Option.map (λ decs. dec ∷ decs) rest)

unfoldable pub decode : Text → Text → Outcome (Option (List Text))
decode prefix key = elim (without_last_slash key) [
  | panics ↦ panics
  | returns k ↦ returns (decode_parts (split (trim_prefix k prefix)))
]

abbrev pub ends_with_slash : Text → Bool
ends_with_slash [] = false
ends_with_slash (c ∷ []) = eqb c slash
ends_with_slash (c ∷ d ∷ s) = ends_with_slash (d ∷ s)

-- The prefix of the adapter that Curry gives.
unfoldable pub curry : Text → List Text → Outcome Text
curry prefix keys = elim (encode prefix keys) [
  | [] ↦ panics
  | c ∷ s ↦ returns (if ends_with_slash (c ∷ s) then c ∷ s else c ∷ s ++ slash ∷ [])
]
