-- ===== src/StrictJson.antt =====
-- strictjson/strictjson.go, `validateTokens`: the frames, one round of the loop, and the loop over
-- a finite list of tokens. `json.Decoder` delivers the tokens; StrictJson/Stream.antt runs the loop
-- over a decoder.
pub mod Grammar
pub mod Complete
pub mod Sound
pub mod Stream
pub mod Decode
use go_toolbelt.Base.{
  ℕ, Bool, true, false, ◌&&◌, ◌||◌, String, List, [], ◌∷◌, Option, none, some, length, ◌==◌,
  if◌then◌else◌, contains,
}

pub data Error : Type 0 where
  too_large duplicate_name unknown_field invalid_json : Error

pub data Scalar : Type 0 where
  number : String → Scalar
  boolean : Bool → Scalar
  null : Scalar

-- `json.Token`: a delimiter is a rune, as `json.Delim` is; `text` is a string, key or value.
pub data Token : Type 0 where
  delim : ℕ → Token
  text : String → Token
  scalar : Scalar → Token

-- What one call of `decoder.Token()` returns.
pub data TokenResult : Type 0 where
  got : Token → TokenResult
  eof failed : TokenResult

pub record ContainerFrame : Type 0 where
  pub delimiter : ℕ
  pub seen : List String
  pub want_key : Bool

-- The innermost frame stands first.
pub record Scan : Type 0 where
  pub frames : List ContainerFrame
  pub root_complete : Bool

-- The rest of a round: `continue`, or `return`.
pub data Round : Type 0 where
  continue : Scan → Round
  return : Option Error → Round

abbrev pub max_nesting_depth : ℕ
max_nesting_depth = 10000

abbrev pub start : Scan
start = record { frames = []; root_complete = false }

abbrev pub refuse : Round
refuse = return (some invalid_json)

abbrev pub delimiters_match : ℕ → ℕ → Bool
delimiters_match opening closing =
    opening == b'{' && closing == b'}' || opening == b'[' && closing == b']'

-- `if len(frames) == 0 { rootComplete = true }`
abbrev pub settle : List ContainerFrame → Bool → Scan
settle [] root = record { frames = []; root_complete = true }
settle (f ∷ fs) root = record { frames = f ∷ fs; root_complete = root }

abbrev pub object_frame : ContainerFrame
object_frame = record { delimiter = b'{'; seen = []; want_key = true }

abbrev pub array_frame : ContainerFrame
array_frame = record { delimiter = b'['; seen = []; want_key = false }

-- A token where an object expects a member name or its end.
pub key_token : ContainerFrame → List ContainerFrame → Bool → Token → Round
key_token f fs root (delim d) = if d == b'}' then continue (settle fs root) else refuse
key_token f fs root (scalar s) = refuse
key_token f fs root (text k) =
    if contains f.seen k
    then return (some duplicate_name)
    else continue (record {
      frames = record f { seen = k ∷ f.seen; want_key = false } ∷ fs;
      root_complete = root;
    })

pub close_container : List ContainerFrame → Bool → ℕ → Round
close_container [] root d = refuse
close_container (f ∷ fs) root d =
    if delimiters_match f.delimiter d then continue (settle fs root) else refuse

-- A value in an object makes the object expect a name next.
pub expect_key : List ContainerFrame → List ContainerFrame
expect_key [] = []
expect_key (f ∷ fs) = (if f.delimiter == b'{' then record f { want_key = true } else f) ∷ fs

pub open_container : List ContainerFrame → Bool → ℕ → Round
open_container fs root d =
    if length fs == max_nesting_depth
    then refuse
    else if d == b'{'
    then continue (record { frames = object_frame ∷ fs; root_complete = root })
    else if d == b'['
    then continue (record { frames = array_frame ∷ fs; root_complete = root })
    else refuse

-- A token where no member name is expected.
pub value_token : List ContainerFrame → Bool → Token → Round
value_token fs root (delim d) =
    if d == b'}' || d == b']'
    then close_container fs root d
    else open_container (expect_key fs) root d
value_token fs root (text k) = continue (settle (expect_key fs) root)
value_token fs root (scalar s) = continue (settle (expect_key fs) root)

pub frame_token : List ContainerFrame → Bool → Token → Round
unfolding key_token value_token close_container open_container expect_key
frame_token [] true t = refuse
frame_token [] false t = value_token [] false t
frame_token (f ∷ fs) root t =
    if f.delimiter == b'{' && f.want_key then key_token f fs root t else value_token (f ∷ fs) root t

abbrev pub at_end : List ContainerFrame → Bool → Option Error
at_end [] true = none
at_end _ _ = some invalid_json

-- One round of the loop.
unfoldable pub round : Scan → TokenResult → Round
unfolding frame_token
round s eof = return (at_end s.frames s.root_complete)
round s failed = refuse
round s (got t) = frame_token s.frames s.root_complete t

-- How the source says the end of a list: `eof`, or a decoder's error.
pub data Ending : Type 0 where
  at_eof at_failure : Ending

abbrev pub ending_result : Ending → TokenResult
ending_result at_eof = eof
ending_result at_failure = failed

-- The verdict of a round behind which no token comes.
abbrev pub verdict : Round → Option Error
verdict (continue s) = some invalid_json
verdict (return e) = e

-- The loop over a list of tokens, `none` standing for a nil error.
pub scan : Scan → List Token → Ending → Option Error
scan s [] last = verdict (round s (ending_result last))
scan s (t ∷ ts) last = elim (round s (got t)) [ continue s' ↦ scan s' ts last | return e ↦ e ]
