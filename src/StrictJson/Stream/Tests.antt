-- ===== src/StrictJson/Stream/Tests.antt =====
-- strictjson/strictjson.go, `Validate` on small inputs, with a decoder that has one byte for a token.
use go_toolbelt.Base.{
  ℕ, ◌<◌, ◌≤◌, ◌≡◌, refl, true, List, [], ◌∷◌, some, none, arith, length, if◌then◌else◌, ◌==◌, ◌||◌,
  contains,
}
use go_toolbelt.StrictJson.{
  duplicate_name, Token, delim, text, scalar, null, TokenResult, got, eof, at_eof,
  max_nesting_depth, round,
}
use go_toolbelt.StrictJson.Grammar.{Value, atom, object, end, field, print, depth, has_unique_names}
use go_toolbelt.StrictJson.Stream.{
  Decoder, validate_tokens, validate, drain, tokens_of, validate-value, validate_sound,
}

-- A delimiter stands for itself, `a` and `b` for strings, and any other byte for null.
abbrev pub sample_token : ℕ → Token
sample_token b =
    if b == b'{' || b == b'}' || b == b'[' || b == b']'
    then delim b
    else if b == b'a'
    then text "a"
    else if b == b'b'
    then text "b"
    else scalar null

abbrev pub next_token : List ℕ → TokenResult × List ℕ
next_token [] = (eof, [])
next_token (b ∷ bs) = (got (sample_token b), bs)

pub next_token-left :
    (s : List ℕ) (t : Token) → (next_token s).0 ≡ got t → length (next_token s).1 < length s
next_token-left [] t e = absurd cc
next_token-left (b ∷ bs) t e = omega arith

abbrev pub sample_decoder : Decoder
sample_decoder = record {
  State = List ℕ;
  new_decoder = λ bytes. bytes;
  token = next_token;
  left = length;
  token-left = next_token-left;
}

-- One object with the members `a` and `b`, and one with `a` twice.
abbrev pub sample_object : List ℕ
sample_object = b'{' ∷ b'a' ∷ b'0' ∷ b'b' ∷ b'0' ∷ b'}' ∷ []

abbrev pub sample_duplicate : List ℕ
sample_duplicate = b'{' ∷ b'a' ∷ b'0' ∷ b'a' ∷ b'0' ∷ b'}' ∷ []

abbrev duplicate_value : Value
duplicate_value = object (field "a" (atom null) (field "a" (atom null) end))

pub sample_accepted : validate sample_decoder sample_object ≡ some none
unfolding validate validate_tokens round contains
sample_accepted = refl

duplicate_tokens : tokens_of sample_decoder sample_duplicate ≡ (print duplicate_value [], at_eof)
unfolding drain print
duplicate_tokens = refl

duplicate_depth : depth duplicate_value ≤ max_nesting_depth
unfolding depth
duplicate_depth = omega arith

validate-value_example :
    validate sample_decoder sample_duplicate
    ≡ some (if has_unique_names duplicate_value then none else some duplicate_name)
validate-value_example =
    validate-value sample_decoder sample_duplicate duplicate_value duplicate_tokens duplicate_depth

duplicate_refused : validate sample_decoder sample_duplicate ≡ some (some duplicate_name)
unfolding validate validate_tokens round contains
duplicate_refused = refl

validate_sound_example :
    ((tokens_of sample_decoder sample_object).1 ≡ at_eof)
    × (v : Value) × ((tokens_of sample_decoder sample_object).0 ≡ print v [])
    × (depth v ≤ max_nesting_depth)
    × (has_unique_names v ≡ true)
validate_sound_example = validate_sound sample_decoder sample_object sample_accepted
