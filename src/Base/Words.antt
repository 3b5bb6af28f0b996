-- ===== src/Base/Words.antt =====
-- Words of a text, as `strings.Fields` finds them.
use Prim.Native.Char.{code}
use Prim.Native.String.{String}
use mathlib.Core.Bool.{Bool, ◌||◌, ◌&&◌, true}
use mathlib.Core.List.{List, [], ◌∷◌}
use go_toolbelt.Base.{ℕ, if◌then◌else◌, leb, ◌==◌, str_eq}

-- `unicode.IsSpace`
abbrev pub is_space : ℕ → Bool
is_space c =
    leb 9 c && leb c 13
    || c == 32
    || c == 0x85
    || c == 0xa0
    || c == 0x1680
    || leb 0x2000 c && leb c 0x200a
    || c == 0x2028
    || c == 0x2029
    || c == 0x202f
    || c == 0x205f
    || c == 0x3000

abbrev pub push_word : String → List String → List String
push_word word words = if str_eq word "" then words else word ∷ words

-- The word that is being read, and the words behind it.
unfoldable pub fields_of : String → String × List String
fields_of String.[] = ("", [])
fields_of (String.◌∷◌ c s) =
    let (word, words) = fields_of s in
    if is_space (code c) then ("", push_word word words) else (String.◌∷◌ c word, words)

-- `strings.Fields`
unfoldable pub fields : String → List String
unfolding fields_of
fields s = push_word (fields_of s).0 (fields_of s).1

-- `strings.TrimSpace(s) == ""`
unfoldable pub is_blank : String → Bool
is_blank String.[] = true
is_blank (String.◌∷◌ c s) = is_space (code c) && is_blank s
