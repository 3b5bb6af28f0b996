-- ===== src/LocalGateway/Echo.antt =====
-- examples/localgateway-echo/main.go: the handler of `serve`, `call`, and the commands of `main`.
-- encoding/json is a parameter, with what its documentation says of a valid UTF-8 text that it has
-- encoded; in any other text `Marshal` replaces the invalid bytes, and nothing is said of it. A text is
-- its bytes. The transport is an argument. A body that breaks off is one that ends there.
pub mod Laws
pub mod Tests
use go_toolbelt.Base.{
  ℕ, ◌≡◌, Bool, true, false, not, ◌||◌, ◌==◌, String, List, [], ◌∷◌, ◌++◌, Option, none, some,
  length, take, ltb, leb, ◌&&◌, if◌then◌else◌, str_eq,
}
use go_toolbelt.Base.Result.{Result, ok, err}
use go_toolbelt.Base.Bytes.{Bytes}

-- What a leading byte asks for: the range of each byte behind it.
abbrev pub continuations : ℕ → Option (List (ℕ × ℕ))
continuations b =
    if ltb b 128
    then some []
    else if ltb b 194
    then none
    else if ltb b 224
    then some ((128, 191) ∷ [])
    else if b == 224
    then some ((160, 191) ∷ (128, 191) ∷ [])
    else if b == 237
    then some ((128, 159) ∷ (128, 191) ∷ [])
    else if ltb b 240
    then some ((128, 191) ∷ (128, 191) ∷ [])
    else if b == 240
    then some ((144, 191) ∷ (128, 191) ∷ (128, 191) ∷ [])
    else if ltb b 244
    then some ((128, 191) ∷ (128, 191) ∷ (128, 191) ∷ [])
    else if b == 244
    then some ((128, 143) ∷ (128, 191) ∷ (128, 191) ∷ [])
    else none

-- Whether a text is valid UTF-8 (RFC 3629), behind a leading byte that asks for more.
abbrev pub is_utf8_behind : List (ℕ × ℕ) → Bytes → Bool
is_utf8_behind [] [] = true
is_utf8_behind (r ∷ rs) [] = false
is_utf8_behind [] (b ∷ bs) =
    let rest : List (ℕ × ℕ) → Bool = λ rs. is_utf8_behind rs bs in
    elim (continuations b) [ none ↦ false | some rs ↦ rest rs ]
is_utf8_behind ((lo, hi) ∷ rs) (b ∷ bs) = leb lo b && leb b hi && is_utf8_behind rs bs

abbrev pub is_utf8 : Bytes → Bool
is_utf8 text = is_utf8_behind [] text

pub record Json : Type 0 where
  -- `Marshal` of a message.
  pub marshal : Bytes → Result ℕ Bytes
  -- The message that a decoder's first `Decode` gives, where unknown fields are refused or not.
  pub decode : Bool → Bytes → Result ℕ Bytes
  -- Whether its second one is at the end of the input.
  pub is_single : Bytes → Bool
  -- A valid text that was encoded is decoded again, and what was encoded is the only value.
  pub decode-marshal :
      (strict : Bool) (m b : Bytes) → is_utf8 m ≡ true → marshal m ≡ ok b → decode strict b ≡ ok m
  pub marshal-is_single : (m b : Bytes) → marshal m ≡ ok b → is_single b ≡ true
  -- So it is with the newline that `Encode` writes behind it.
  pub decode-encoded :
      (strict : Bool) (m b : Bytes)
      → is_utf8 m ≡ true
      → marshal m ≡ ok b
      → decode strict (b ++ (10 ∷ [])) ≡ ok m

pub record Response : Type 0 where
  pub status : ℕ
  pub body : Bytes

-- `http.Error`
abbrev pub invalid_message : Response
invalid_message = record { status = 400; body = [] }

-- What the client sends: the bytes of the body, and the error that reading behind them meets.
pub record Body : Type 0 where
  pub bytes : Bytes
  pub read_err : Option ℕ

-- `io.ReadAll` of a `LimitReader`, which does not read behind its limit.
pub read_limited : ℕ → Body → Result ℕ Bytes
read_limited n b =
    if ltb (length b.bytes) n
    then elim b.read_err [ none ↦ ok b.bytes | some e ↦ err e ]
    else ok (take n b.bytes)

abbrev pub is_empty : Bytes → Bool
is_empty [] = true
is_empty (x ∷ xs) = false

pub data CallError : Type 0 where
  marshal_failed request_failed decode_failed bad_status : ℕ → CallError

module _ (json : Json) where
  open json use {marshal, decode, is_single}

  -- `Encode` writes a newline behind the value; its error is ignored.
  pub encoded : Bytes → Bytes
  encoded m = elim (marshal m) [ ok b ↦ b ++ (10 ∷ []) | err e ↦ [] ]

  -- The handler behind the first `Decode`, over the rest of its test.
  pub answer : Bool → Result ℕ Bytes → Response
  unfolding encoded
  answer single (err e) = invalid_message
  answer single (ok m) =
      if is_empty m || not single
      then invalid_message
      else record { status = 200; body = encoded m }

  pub echo_data : Result ℕ Bytes → Response
  unfolding answer
  echo_data (err e) = invalid_message
  echo_data (ok bytes) =
      if ltb 4096 (length bytes)
      then invalid_message
      else answer (is_single bytes) (decode true bytes)

  -- `POST /v1/echo`
  pub echo_handler : Body → Response
  unfolding echo_data read_limited
  echo_handler body = echo_data (read_limited 4097 body)

  pub decode_response : Result ℕ Bytes → Result CallError Bytes
  decode_response (ok m) = ok m
  decode_response (err e) = err (decode_failed e)

  pub read_response : Result ℕ Response → Result CallError Bytes
  unfolding decode_response
  read_response (err e) = err (request_failed e)
  read_response (ok r) =
      if not (r.status == 200)
      then err (bad_status r.status)
      else decode_response (decode false (take 4097 r.body))

  -- `call`, over what `client.Do` answers a body with, and what it prints.
  pub call : (Body → Result ℕ Response) → Bytes → Result CallError Bytes
  unfolding read_response
  call send m = elim (marshal m) [
    | err e ↦ err (marshal_failed e)
    | ok b ↦ read_response (send (record { bytes = b; read_err = none }))
  ]

-- What the arguments ask for.
pub data Command : Type 0 where
  usage serve : Command
  echo : String → Command

pub command_of : List String → Command
command_of [] = usage
command_of (name ∷ args) =
    if str_eq name "serve"
    then serve
    else if str_eq name "echo"
    then elim args [ [] ↦ usage | m ∷ rest ↦ elim rest [ [] ↦ echo m | x ∷ xs ↦ usage ] ]
    else usage
