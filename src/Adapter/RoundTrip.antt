-- ===== src/Adapter/RoundTrip.antt =====
-- What is encoded is decoded again.
use Prim.Native.Nat.{◌/◌, ◌%◌}
use mathlib.Core.Option
use microcosm.Base.{
  ℕ, ◌+◌, ◌*◌, ◌<◌, ◌≡◌, refl, ap, sym, subst, ◌∙◌, false, some, List, [], ◌∷◌, ◌++◌, map, arith,
  All, Returns, returns, Text, slash, split, join, strip, trim_prefix, IsPlain, IsPlainChar, NotNil,
  is_empty_text, path_join_plain, split-join, join_append, append_assoc,
}
use microcosm.Adapter.{
  hex_digit, from_hex_char, encode_to_string, decode_string, encode, without_last_slash,
  decode_parts, decode, curry, ends_with_slash,
}

-- A key to be stored: some bytes.
abbrev pub IsKey : Text → Type 0
IsKey x = (is_empty_text x ≡ false) × All (λ b. b < 256) x

hex_digit_plain : (d : ℕ) → d < 16 → IsPlainChar (hex_digit d)
hex_digit_plain d h = ground arith

from_hex_digit : (d : ℕ) → d < 16 → from_hex_char (hex_digit d) ≡ some d
from_hex_digit d h = ground arith

halves : (b : ℕ) → b < 256 → ((b / 16 < 16) × (b % 16 < 16)) × (16 * (b / 16) + b % 16 ≡ b)
halves b h = omega arith

encode_to_string-plain : (x : Text) → All (λ b. b < 256) x → All IsPlainChar (encode_to_string x)
unfolding encode_to_string
encode_to_string-plain [] h = tt
encode_to_string-plain (b ∷ x) h =
    let d = halves b h.0 in
    (hex_digit_plain (b / 16) d.0.0, (hex_digit_plain (b % 16) d.0.1, encode_to_string-plain x h.1))

decode_string-encode :
    (x : Text) → All (λ b. b < 256) x → decode_string (encode_to_string x) ≡ some x
unfolding encode_to_string decode_string Option.bind
decode_string-encode [] h = refl
decode_string-encode (b ∷ x) h =
    let (d, e) = halves b h.0 in
    rw (from_hex_digit (b / 16) d.0, from_hex_digit (b % 16) d.1, decode_string-encode x h.1, e)
      refl

encoded-IsPlain : (keys : List Text) → All IsKey keys → All IsPlain (map encode_to_string keys)
unfolding encode_to_string
encoded-IsPlain [] h = tt
encoded-IsPlain ([] ∷ keys) h = absurd (cc)
encoded-IsPlain ((b ∷ x) ∷ keys) h =
    ((refl, encode_to_string-plain (b ∷ x) h.0.1), encoded-IsPlain keys h.1)

decode_parts-encoded :
    (keys : List Text) → All IsKey keys → decode_parts (map encode_to_string keys) ≡ some keys
unfolding decode_parts Option.bind
decode_parts-encoded [] h = refl
decode_parts-encoded (k ∷ keys) h =
    rw (decode_string-encode k h.0.1, decode_parts-encoded keys h.1) refl

NotNil-map : (keys : List Text) → NotNil keys → NotNil (map encode_to_string keys)
NotNil-map [] n = absurd n
NotNil-map (k ∷ keys) n = tt

-- A text that goes on with a plain one.
not_ending :
    (p x : Text)
    → IsPlain x
    → (without_last_slash (p ++ x) ≡ returns (p ++ x)) × (ends_with_slash (p ++ x) ≡ false)
unfolding without_last_slash
not_ending [] [] h = absurd (cc)
not_ending [] (c ∷ []) h = rw h.1.0.0 (refl, refl)
not_ending [] (c ∷ d ∷ x) h = let (w, e) = not_ending [] (d ∷ x) (refl, h.1.1) in rw w (refl, e)
not_ending (c ∷ []) [] h = absurd (cc)
not_ending (c ∷ []) (d ∷ x) h = let (w, e) = not_ending [] (d ∷ x) h in rw w (refl, e)
not_ending (c ∷ d ∷ p) x h = let (w, e) = not_ending (d ∷ p) x h in rw w (refl, e)

not_ending-join :
    (p : Text) (hs : List Text)
    → NotNil hs
    → All IsPlain hs
    → (without_last_slash (p ++ join hs) ≡ returns (p ++ join hs))
      × (ends_with_slash (p ++ join hs) ≡ false)
unfolding join
not_ending-join p [] n h = absurd n
not_ending-join p (x ∷ []) n h = not_ending p x h.0
not_ending-join p (x ∷ y ∷ hs) n h =
    subst (λ t. (without_last_slash t ≡ returns t) × (ends_with_slash t ≡ false))
      (append_assoc p (x ++ slash ∷ []) (join (y ∷ hs))
        ∙ ap (λ t. p ++ t) (append_assoc x (slash ∷ []) (join (y ∷ hs))))
      (not_ending-join (p ++ (x ++ (slash ∷ []))) (y ∷ hs) tt h.1)

strip_append : (p s : Text) → strip p (p ++ s) ≡ some s
unfolding strip
strip_append [] s = refl
strip_append (c ∷ p) s = rw (strip_append p s) (ground arith)

trimmed : (p s : Text) → trim_prefix (p ++ s) p ≡ s
unfolding trim_prefix
trimmed p s = rw (trim_prefix, strip_append p s) refl

decode_text :
    (p key k : Text)
    → without_last_slash key ≡ returns k
    → decode p key ≡ returns (decode_parts (split (trim_prefix k p)))
unfolding decode
decode_text p key k q = rw (decode, q) refl

curry_adds :
    (p : Text) (keys : List Text) (c : ℕ) (s : Text)
    → encode p keys ≡ c ∷ s
    → ends_with_slash (c ∷ s) ≡ false
    → curry p keys ≡ returns (c ∷ s ++ slash ∷ [])
unfolding curry
curry_adds p keys c s q e = rw (curry, q, e) refl

-- The prefix of an adapter: plain parts, each with a slash before and after it.
abbrev pub prefix_of : List Text → Text
prefix_of segs = slash ∷ join segs ++ slash ∷ []

module _ (segs keys : List Text) (n : NotNil segs) (p : All IsPlain segs) (m : NotNil keys)
    (h : All IsKey keys) where
  abbrev hexes : List Text
  hexes = map encode_to_string keys

  encode-parts : encode (prefix_of segs) keys ≡ slash ∷ join (segs ++ hexes)
  unfolding encode
  encode-parts = path_join_plain segs hexes n (NotNil-map keys m) p (encoded-IsPlain keys h)

  encode-prefix : encode (prefix_of segs) keys ≡ prefix_of segs ++ join hexes
  encode-prefix =
      encode-parts
      ∙ ap (λ t. slash ∷ t)
          (join_append segs hexes n (NotNil-map keys m)
            ∙ sym (append_assoc (join segs) (slash ∷ []) (join hexes)))

  ended :
      (without_last_slash (prefix_of segs ++ join hexes) ≡ returns (prefix_of segs ++ join hexes))
      × (ends_with_slash (prefix_of segs ++ join hexes) ≡ false)
  ended = not_ending-join (prefix_of segs) hexes (NotNil-map keys m) (encoded-IsPlain keys h)

  -- An adapter decodes the keys that it has encoded, if there is a key and none of them is empty, and
  -- its prefix is made of plain parts, each with a slash before and after it.
  pub decode-encode : decode (prefix_of segs) (encode (prefix_of segs) keys) ≡ returns (some keys)
  decode-encode =
      decode_text (prefix_of segs) _ _
        (ap without_last_slash encode-prefix ∙ ended.0 ∙ ap returns (sym encode-prefix))
      ∙ ap (λ o. returns (decode_parts (split o)))
          (ap (λ k. trim_prefix k (prefix_of segs)) encode-prefix
            ∙ trimmed (prefix_of segs) (join hexes))
      ∙ ap returns (
          ap decode_parts (split-join hexes (NotNil-map keys m) (encoded-IsPlain keys h))
          ∙ decode_parts-encoded keys h)

  curry-prefix : curry (prefix_of segs) keys ≡ returns (prefix_of (segs ++ hexes))
  curry-prefix =
      curry_adds (prefix_of segs) keys slash (join (segs ++ hexes)) encode-parts
        (subst (λ t. ends_with_slash t ≡ false) (sym encode-prefix ∙ encode-parts) ended.1)

map_append :
    (xs ys : List Text)
    → map encode_to_string (xs ++ ys) ≡ map encode_to_string xs ++ map encode_to_string ys
map_append [] ys = refl
map_append (x ∷ xs) ys = ap (λ l. encode_to_string x ∷ l) (map_append xs ys)

All-append {ℓ} : (P : Text → Type ℓ) (xs ys : List Text) → All P xs → All P ys → All P (xs ++ ys)
All-append P [] ys h k = k
All-append P (x ∷ xs) ys h k = (h.0, All-append P xs ys h.1 k)

NotNil-append : (xs ys : List Text) → NotNil xs → NotNil (xs ++ ys)
NotNil-append [] ys n = absurd n
NotNil-append (x ∷ xs) ys n = tt

-- To encode keys with the adapter that Curry gives for some keys is to encode the ones and the others
-- with the adapter itself: for lists of keys that are not empty, of keys that are not empty, and a
-- prefix that is made of plain parts, each with a slash before and after it.
pub curry-encode :
    (segs keys more : List Text)
    → NotNil segs
    → All IsPlain segs
    → NotNil keys
    → All IsKey keys
    → NotNil more
    → All IsKey more
    → Returns
        (curry (prefix_of segs) keys)
        (λ q. encode q more ≡ encode (prefix_of segs) (keys ++ more))
curry-encode segs keys more n p m h m' h' =
    subst (λ o. Returns o (λ q. encode q more ≡ encode (prefix_of segs) (keys ++ more)))
      (sym (curry-prefix segs keys n p m h))
      (encode-parts (segs ++ map encode_to_string keys) more (NotNil-append segs _ n)
          (All-append IsPlain segs _ p (encoded-IsPlain keys h)) m' h'
        ∙ ap (λ l. slash ∷ join l)
            (append_assoc segs (map encode_to_string keys) (map encode_to_string more)
              ∙ ap (λ l. segs ++ l) (sym (map_append keys more)))
        ∙ sym (
            encode-parts segs (keys ++ more) n p (NotNil-append keys more m)
              (All-append IsKey keys more h h')))
