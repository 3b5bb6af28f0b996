-- ===== src/StrictJson/Decode.antt =====
-- strictjson/strictjson.go: `Decode`, `DecodeReader`, the options, and `sanitizeDecodeError`.
-- The typed decoding of encoding/json and the reader are parameters. A nil pointer is `none`.
pub mod Laws
pub mod Tests
use Prim.Native.Char.{code}
use mathlib.Core.Option
use text.Mathlib.Text.{starts_with}
use go_toolbelt.Base.{
  ℕ, zero, suc, ◌+◌, ◌≡◌, Bool, true, false, String, List, [], ◌∷◌, Option, some, none, length,
  if◌then◌else◌, ◌==◌, ltb,
}
use go_toolbelt.StrictJson.{Error, too_large, unknown_field}
use go_toolbelt.StrictJson.Stream.{Decoder, validate}

-- The fields of `json.UnmarshalTypeError`; `type_name` stands for its `reflect.Type`.
pub record TypeError : Type 0 where
  pub value : String
  pub type_name : String
  pub offset : ℕ
  pub struct_name : String
  pub field : String

-- An error of the typed decoder: its text, and what `errors.As` finds in it.
pub record JsonError : Type 0 where
  pub message : String
  pub type_error : Option TypeError
  pub is_invalid_target : Bool

pub data DecodeError : Type 0 where
  nil_reader bad_limit nil_target nil_option no_progress invalid_target : DecodeError
  read_failed : ℕ → DecodeError
  structural : Error → DecodeError
  -- `decodeError{cause}`
  rejected_type : TypeError → DecodeError
  rejected : JsonError → DecodeError

pub record DecodeOptions : Type 0 where
  pub disallow_unknown_fields : Bool

abbrev pub no_options : DecodeOptions
no_options = record { disallow_unknown_fields = false }

-- An `Option` of the package is a function on the options, or nil.
abbrev pub OptionFn : Type 0
OptionFn = Option (DecodeOptions → DecodeOptions)

pub disallow_unknown_fields_option : OptionFn
disallow_unknown_fields_option = some (λ opts. record opts { disallow_unknown_fields = true })

pub apply_options_from : DecodeOptions → List OptionFn → Option DecodeOptions
apply_options_from opts [] = some opts
apply_options_from opts (none ∷ fns) = none
apply_options_from opts (some fn ∷ fns) = apply_options_from (fn opts) fns

-- `none` is the error "option cannot be nil".
pub apply_options : List OptionFn → Option DecodeOptions
unfolding apply_options_from
apply_options = apply_options_from no_options

-- `strings.Cut(value, " ")`, the part before.
pub cut_space : String → String
cut_space String.[] = ""
cut_space (String.◌∷◌ c s) =
    let rest = String.◌∷◌ c (cut_space s) in if code c == b' ' then "" else rest

abbrev pub redact : TypeError → TypeError
redact e = record e { struct_name = ""; field = ""; value = cut_space e.value }

pub sanitize_decode_error : JsonError → DecodeError
unfolding cut_space
sanitize_decode_error err =
    if starts_with err.message "json: unknown field "
    then structural unknown_field
    else elim err.type_error [
      | some e ↦ rejected_type (redact e)
      | none ↦ if err.is_invalid_target then invalid_target else rejected err
    ]

-- The typed decoder: with or without `DisallowUnknownFields`, on a destination, which it may change.
pub record TypedDecoder : Type 1 where
  pub Target : Type 0
  pub unmarshal : Bool → List ℕ → Target → Option JsonError × Target

-- `io.EOF`, or any other error of a reader.
pub data ReadError : Type 0 where
  end_of_file : ReadError
  broken : ℕ → ReadError

pub record ReadAll (R : Type 0) : Type 0 where
  pub bytes : List ℕ
  pub error : Option ℕ
  -- the `N` of the `io.LimitedReader` behind the call
  pub remaining : ℕ
  pub next : R

-- A reader: `io.ReadAll` of a `LimitedReader` on it, and one `Read` into one byte. A limited reader
-- gives at most its limit, and counts what it gives.
pub record Reader : Type 1 where
  pub State : Type 0
  pub read_all : State → ℕ → ReadAll State
  pub read_byte : State → ℕ × Option ReadError
  pub read_all-length :
      (s : State) (n : ℕ) → length (read_all s n).bytes + (read_all s n).remaining ≡ n

abbrev pub Outcome : Type 0 → Type 0
Outcome T = Option DecodeError × Option T

module _ (d : Decoder) (j : TypedDecoder) where
  open j use {Target, unmarshal}

  -- Behind a verdict of `Validate`: the typed decoder runs only if that is nil.
  pub decode_validated : List ℕ → Target → DecodeOptions → Option Error → Outcome Target
  decode_validated bytes dst opts (some e) = (some (structural e), some dst)
  decode_validated bytes dst opts none =
      let (err, dst') = unmarshal opts.disallow_unknown_fields bytes dst in
      (elim err [ none ↦ none | some e ↦ some (sanitize_decode_error e) ], some dst')

  -- `none` stands for fuel that ran out in `Validate`, which never happens.
  pub decode : List ℕ → Target → DecodeOptions → Option (Outcome Target)
  unfolding decode_validated
  decode bytes dst opts = Option.map (decode_validated bytes dst opts) (validate d bytes)

  -- `Decode`
  pub decode_bytes : List ℕ → Option Target → List OptionFn → Option (Outcome Target)
  unfolding apply_options
  decode_bytes bytes none fns = some (some nil_target, none)
  decode_bytes bytes (some dst) fns = elim (apply_options fns) [
    | none ↦ some (some nil_option, some dst)
    | some opts ↦ decode bytes dst opts
  ]

  module _ (r : Reader) where
    open r use {State, read_all, read_byte, read_all-length}

    -- The one byte that is read behind the limit; `none` means that the input ends there.
    pub extra_byte : ℕ × Option ReadError → Option DecodeError
    extra_byte (n, err) = if ltb 0 n then some (structural too_large) else elim err [
      | some (broken e) ↦ some (read_failed e)
      | some end_of_file ↦ none
      | none ↦ some no_progress
    ]

    pub after_read : ReadAll State → Target → DecodeOptions → Option (Outcome Target)
    unfolding extra_byte
    after_read read dst opts = elim read.error [
      | some e ↦ some (some (read_failed e), some dst)
      | none ↦ elim (if read.remaining == 0 then extra_byte (read_byte read.next) else none) [
        | some e ↦ some (some e, some dst)
        | none ↦ decode read.bytes dst opts
      ]
    ]

    -- A limit that is not positive is 0 here.
    unfoldable pub decode_reader :
        Option State → ℕ → Option Target → List OptionFn → Option (Outcome Target)
    unfolding apply_options after_read
    decode_reader none limit dst fns = some (some nil_reader, dst)
    decode_reader (some s) zero dst fns = some (some bad_limit, dst)
    decode_reader (some s) (suc n) none fns = some (some nil_target, none)
    decode_reader (some s) (suc n) (some dst) fns = elim (apply_options fns) [
      | none ↦ some (some nil_option, some dst)
      | some opts ↦ after_read (read_all s (suc n)) dst opts
    ]
