-- ===== src/LocalGateway/Echo/Tests.antt =====
-- examples/localgateway-echo/main.go: a message that comes back, under an encoding that is short
-- enough to run: the bytes of a message between two quotation marks.
use go_toolbelt.Base.{
  arith, ℕ, ◌≡◌, refl, true, false, ◌||◌, [], ◌∷◌, ◌++◌, length, ltb, if◌then◌else◌,
}
use go_toolbelt.Base.Result.{Result, ok, err}
use go_toolbelt.Base.Bytes.{Bytes}
use go_toolbelt.LocalGateway.Echo.{
  Json, is_utf8, usage, serve, echo, command_of, bad_status, echo_handler, call, is_empty,
}
use go_toolbelt.LocalGateway.Echo.Laws.{call_echoes}

-- A message is one byte here, and its encoding that byte between two quotation marks.
abbrev quote : Bytes → Result ℕ Bytes
quote (c ∷ []) = ok (34 ∷ c ∷ 34 ∷ [])
quote _ = err 1

abbrev unquote : Bytes → Result ℕ Bytes
unquote (q ∷ c ∷ rest) = ok (c ∷ [])
unquote _ = err 2

unquote-quote : (m b : Bytes) → quote m ≡ ok b → unquote b ≡ ok m
unquote-quote [] b h = absurd cc
unquote-quote (c ∷ []) b h = ground arith
unquote-quote (c ∷ d ∷ m) b h = absurd cc

unquote-newline : (m b : Bytes) → quote m ≡ ok b → unquote (b ++ (10 ∷ [])) ≡ ok m
unquote-newline [] b h = absurd cc
unquote-newline (c ∷ []) b h = ground arith
unquote-newline (c ∷ d ∷ m) b h = absurd cc

abbrev encoding : Bytes
encoding = 34 ∷ 65 ∷ 34 ∷ []

abbrev json : Json
json = record {
  marshal = quote;
  decode = λ strict. unquote;
  is_single = λ b. true;
  decode-marshal = λ strict m b u h. unquote-quote m b h;
  marshal-is_single = λ m b h. refl;
  decode-encoded = λ strict m b u h. unquote-newline m b h;
}

call_echoes_example : call json (λ body. ok (echo_handler json body)) (65 ∷ []) ≡ (
    if is_empty (65 ∷ []) || ltb 4096 (length encoding) then err (bad_status 400) else ok (65 ∷ []))
call_echoes_example = call_echoes json (65 ∷ []) encoding refl refl

-- Two, three and four bytes; a lone continuation, a surrogate and an end in the middle are refused.
utf8 :
    (is_utf8 (195 ∷ 169 ∷ 226 ∷ 130 ∷ 172 ∷ 240 ∷ 159 ∷ 152 ∷ 128 ∷ 10 ∷ []) ≡ true)
    × (is_utf8 (65 ∷ 128 ∷ []) ≡ false)
    × (is_utf8 (237 ∷ 160 ∷ 128 ∷ []) ≡ false)
    × (is_utf8 (226 ∷ 130 ∷ []) ≡ false)
utf8 = (refl, refl, refl, refl)

commands :
    (command_of ("echo" ∷ "hi" ∷ []) ≡ echo "hi")
    × (command_of ("echo" ∷ []) ≡ usage)
    × (command_of ("serve" ∷ "x" ∷ []) ≡ serve)
unfolding command_of
commands = (refl, refl, refl)
