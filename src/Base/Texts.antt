-- ===== src/Base/Texts.antt =====
-- The code points of a text.
use Prim.Native.Char.{code}
use Prim.Native.String.{String, [], ◌∷◌}
use microcosm.Base.Paths.{Text}
use mathlib.Core.List.{List}

abbrev pub text_of : String → Text
text_of [] = List.[]
text_of (c ∷ s) = List.◌∷◌ (code c) (text_of s)
