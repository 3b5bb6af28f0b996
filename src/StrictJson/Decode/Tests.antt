-- ===== src/StrictJson/Decode/Tests.antt =====
-- strictjson/strictjson.go, `Decode` and `DecodeReader` on small inputs, with a typed decoder that
-- keeps the bytes and a reader over a list of bytes.
use mathlib.Core.Option
use go_toolbelt.Base.{
  ℕ, zero, suc, ◌-◌, ◌≤◌, ◌≡◌, ◌≢◌, refl, ap, true, false, List, [], ◌∷◌, ◌++◌, Option, some, none,
  arith, length, take, drop, if◌then◌else◌, leb,
}
use go_toolbelt.StrictJson.{Error, too_large, max_nesting_depth, at_eof}
use go_toolbelt.StrictJson.Grammar.{Value, print, depth, has_unique_names}
use go_toolbelt.StrictJson.Stream.{validate, tokens_of}
use go_toolbelt.StrictJson.Stream.Tests.{
  sample_decoder, sample_object, sample_duplicate, sample_accepted,
}
use go_toolbelt.StrictJson.Decode.{
  TypeError, JsonError, structural, rejected_type, redact, sanitize_decode_error, DecodeOptions,
  no_options, apply_options, TypedDecoder, ReadError, end_of_file, ReadAll, Reader, Outcome, decode,
  decode_reader, decode_validated, after_read, apply_options_from,
}
use go_toolbelt.StrictJson.Decode.Laws.{
  decode_strict, decode_reader_bounded, IsReliable, IsFaithful, decode_reader_whole,
}

abbrev pub keep_bytes : TypedDecoder
keep_bytes = record { Target = List ℕ; unmarshal = λ strict bytes dst. (none, bytes) }

abbrev pub read_list : List ℕ → ℕ → ReadAll (List ℕ)
read_list s n = record {
  bytes = take n s;
  error = none;
  remaining = n - length (take n s);
  next = drop n s;
}

abbrev pub read_one : List ℕ → ℕ × Option ReadError
read_one [] = (0, some end_of_file)
read_one (b ∷ bs) = (1, none)

pub length-take : (n : ℕ) (s : List ℕ) → length (take n s) ≤ n
length-take zero s = omega arith
length-take (suc n) [] = omega arith
length-take (suc n) (x ∷ s) = omega (arith, length-take n s)

take-drop : (n : ℕ) (s : List ℕ) → take n s ++ drop n s ≡ s
take-drop zero s = refl
take-drop (suc n) [] = refl
take-drop (suc n) (x ∷ s) = ap (◌∷◌ x) (take-drop n s)

drop-nil : (n : ℕ) (s : List ℕ) → n - length (take n s) ≢ 0 → drop n s ≡ []
drop-nil zero s h = absurd (h (omega arith))
drop-nil (suc n) [] h = refl
drop-nil (suc n) (x ∷ s) h = drop-nil n s (λ e. h (omega (arith, e)))

abbrev pub list_reader : Reader
list_reader = record {
  State = List ℕ;
  read_all = read_list;
  read_byte = read_one;
  read_all-length = λ s n. omega (arith, length-take n s);
}

read_one-end : (s : List ℕ) → s ≡ [] → read_one s ≡ (0, some end_of_file)
read_one-end [] e = refl
read_one-end (x ∷ s) e = absurd cc

read_one-more : (s : List ℕ) → s ≢ [] → (read_one s).0 ≡ 1
read_one-more [] h = absurd (h refl)
read_one-more (x ∷ s) h = refl

abbrev whole_content : List ℕ → List ℕ
whole_content s = s

list_reader-IsReliable : IsReliable list_reader whole_content
list_reader-IsReliable = record {
  no_error = λ s n. refl;
  splits = λ s n. take-drop n s;
  stops_at_limit = λ s n h. drop-nil n s h;
  at_end = read_one-end;
  before_end = read_one-more;
}

decode_strict_example :
    (r : Outcome (List ℕ)) × (decode sample_decoder keep_bytes sample_duplicate [] no_options
      ≡ some r)
    × (r.0 ≡ none
        → ((tokens_of sample_decoder sample_duplicate).1 ≡ at_eof)
          × (v : Value) × ((tokens_of sample_decoder sample_duplicate).0 ≡ print v [])
          × (depth v ≤ max_nesting_depth)
          × (has_unique_names v ≡ true))
    × ((e : Error)
        → validate sample_decoder sample_duplicate ≡ some (some e)
        → r ≡ (some (structural e), some []))
decode_strict_example = decode_strict sample_decoder keep_bytes sample_duplicate [] no_options

options_applied : apply_options [] ≡ some no_options
unfolding apply_options apply_options_from
options_applied = refl

decode_reader_whole_example :
    decode_reader sample_decoder keep_bytes list_reader (some sample_object) 5 (some []) [] ≡ (
      if leb (length sample_object) 5
      then decode sample_decoder keep_bytes sample_object [] no_options
      else some (some (structural too_large), some []))
decode_reader_whole_example =
    decode_reader_whole sample_decoder keep_bytes list_reader whole_content list_reader-IsReliable
      sample_object 5 [] [] no_options (omega arith) options_applied

sample_read :
    decode_reader sample_decoder keep_bytes list_reader (some sample_object) 8 (some []) []
    ≡ some (none, some sample_object)
unfolding decode_reader apply_options after_read decode decode_validated
sample_read =
    ap (Option.map (decode_validated sample_decoder keep_bytes sample_object [] no_options))
      sample_accepted

read_one-ends : (s : List ℕ) → read_one s ≡ (0, some end_of_file) → s ≡ []
read_one-ends [] e = refl
read_one-ends (x ∷ s) e = absurd (ground arith)

list_reader-IsFaithful : IsFaithful list_reader whole_content
list_reader-IsFaithful = record {
  splits = λ s n. take-drop n s;
  stops_at_limit = λ s n h k. drop-nil n s k;
  ends = read_one-ends;
}

decode_reader_bounded_example :
    (s₀ : List ℕ) × (dst₀ : List ℕ) × (opts : DecodeOptions) × (some sample_object ≡ some s₀)
    × (some [] ≡ some dst₀)
    × (apply_options [] ≡ some opts)
    × (length s₀ ≤ 8)
    × (decode sample_decoder keep_bytes s₀ dst₀ opts ≡ some (none, some sample_object))
decode_reader_bounded_example =
    decode_reader_bounded sample_decoder keep_bytes list_reader whole_content list_reader-IsFaithful
      (some sample_object) 8 (some []) [] (some sample_object) sample_read

abbrev sample_type_error : TypeError
sample_type_error = record {
  value = "number 7";
  type_name = "string";
  offset = 3;
  struct_name = "Account";
  field = "secret";
}

abbrev sample_json_error : JsonError
sample_json_error = record {
  message = "json";
  type_error = some sample_type_error;
  is_invalid_target = false;
}

sample_sanitized :
    sanitize_decode_error sample_json_error ≡ rejected_type (redact sample_type_error)
unfolding sanitize_decode_error
sample_sanitized = refl

-- A document at the limit of the discovery.
pub document_read :
    decode_reader sample_decoder keep_bytes list_reader (some sample_object) 1_048_576 (some []) []
    ≡ some (none, some sample_object)
unfolding decode_reader apply_options after_read decode decode_validated
document_read =
    ap (Option.map (decode_validated sample_decoder keep_bytes sample_object [] no_options))
      sample_accepted
