-- ===== src/Adapter/Tests.antt =====
-- Keys with the job adapter's prefix.
use microcosm.Base.{◌≡◌, refl, arith, List, [], ◌∷◌, All, some, returns, Text, slash, IsPlain}
use microcosm.Adapter.{encode, decode}
use microcosm.Adapter.RoundTrip.{IsKey, prefix_of, decode-encode}

-- "job" and "task", and keys with a slash and a high byte.
abbrev parts : List Text
parts = (106 ∷ 111 ∷ 98 ∷ []) ∷ (116 ∷ 97 ∷ 115 ∷ 107 ∷ []) ∷ []

abbrev one_key : List Text
one_key = (97 ∷ slash ∷ []) ∷ []

abbrev other_key : List Text
other_key = (255 ∷ []) ∷ []

parts-IsPlain : All IsPlain parts
parts-IsPlain = (
  (refl, ((refl, refl), ((refl, refl), ((refl, refl), tt)))),
  ((refl, ((refl, refl), ((refl, refl), ((refl, refl), ((refl, refl), tt))))), tt),
)

one_key-IsKey : All IsKey one_key
one_key-IsKey = ((refl, (omega arith, (omega arith, tt))), tt)

other_key-IsKey : All IsKey other_key
other_key-IsKey = ((refl, (omega arith, tt)), tt)

decode-encode_example :
    decode (prefix_of parts) (encode (prefix_of parts) one_key) ≡ returns (some one_key)
decode-encode_example = decode-encode parts one_key tt parts-IsPlain tt one_key-IsKey
