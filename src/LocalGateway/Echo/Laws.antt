-- ===== src/LocalGateway/Echo/Laws.antt =====
-- examples/localgateway-echo/main.go: a message that goes through the gateway and comes back.
use go_toolbelt.Base.{
  ℕ, suc, zero, ◌≤◌, ◌≡◌, refl, ap, true, false, ◌||◌, [], ◌∷◌, ◌++◌, none, length, take, ltb,
  if◌then◌else◌, arith, length-append, Bool-cases, inl, inr,
}
use go_toolbelt.Base.Result.{ok, err}
use go_toolbelt.Base.Bytes.{Bytes}
use go_toolbelt.LocalGateway.Echo.{
  Json, is_utf8, Body, read_limited, is_empty, invalid_message, bad_status, encoded, answer,
  echo_data, echo_handler, decode_response, read_response, call,
}

take-all : (n : ℕ) (xs : Bytes) → length xs ≤ n → take n xs ≡ xs
take-all zero [] h = refl
take-all zero (x ∷ xs) h = absurd (omega arith)
take-all (suc n) [] h = refl
take-all (suc n) (x ∷ xs) h = ap (λ ys. x ∷ ys) (take-all n xs (omega arith))

length-take : (n : ℕ) (xs : Bytes) → n ≤ length xs → length (take n xs) ≡ n
length-take zero xs h = refl
length-take (suc n) [] h = absurd (omega arith)
length-take (suc n) (x ∷ xs) h = omega (arith, length-take n xs (omega arith))

abbrev sent : Bytes → Body
sent b = record { bytes = b; read_err = none }

read_limited-short : (n : ℕ) (b : Bytes) → length b ≤ n → read_limited (suc n) (sent b) ≡ ok b
unfolding read_limited
read_limited-short n b h = let e : ltb (length b) (suc n) ≡ true = ground arith in rw (e) refl

read_limited-long :
    (n : ℕ) (b : Bytes)
    → suc n ≤ length b
    → (c : Bytes) × (read_limited (suc n) (sent b) ≡ ok c) × (length c ≡ suc n)
unfolding read_limited
read_limited-long n b h =
    let e : ltb (length b) (suc n) ≡ false = ground arith in
    (take (suc n) b, rw (e) refl, length-take (suc n) b h)

module _ (json : Json) where
  open json use {marshal, decode, is_single, decode-marshal, marshal-is_single, decode-encoded}

  decode_echoed :
      (m b : Bytes)
      → is_utf8 m ≡ true
      → marshal m ≡ ok b
      → length b ≤ 4096
      → decode false (take 4097 (encoded json m)) ≡ ok m
  unfolding encoded
  decode_echoed m b u h k =
      rw (encoded, h, take-all 4097 (b ++ (10 ∷ [])) (omega (arith, length-append b (10 ∷ []))))
        (decode-encoded false m b u h)

  serve_long :
      (b : Bytes) → ltb 4096 (length b) ≡ true → echo_handler json (sent b) ≡ invalid_message
  unfolding echo_handler echo_data
  serve_long b h =
      let (c, p, n) = read_limited-long 4096 b (ground arith) in
      let e : ltb 4096 (length c) ≡ true = rw n refl in rw (p, e) refl

  serve_short :
      (m b : Bytes)
      → is_utf8 m ≡ true
      → marshal m ≡ ok b
      → ltb 4096 (length b) ≡ false
      → echo_handler json (sent b)
        ≡ (if is_empty m then invalid_message else record { status = 200; body = encoded json m })
  unfolding echo_handler echo_data answer
  serve_short m b u h k =
      let p = read_limited-short 4096 b (ground arith) in
      rw (p, k, marshal-is_single m b h, decode-marshal true m b u h)
        (elim (Bool-cases (is_empty m)) [ inl e ↦ rw e refl | inr e ↦ rw e refl ])

  -- Over a transport that delivers what is sent, a message that is valid UTF-8 and can be encoded comes
  -- back from the gateway as it was sent, unless it is empty or its encoding has more than 4096 bytes:
  -- then `call` returns the error of a bad request.
  pub call_echoes :
      (m b : Bytes)
      → is_utf8 m ≡ true
      → marshal m ≡ ok b
      → call json (λ body. ok (echo_handler json body)) m
        ≡ (if is_empty m || ltb 4096 (length b) then err (bad_status 400) else ok m)
  unfolding call read_response decode_response
  call_echoes m b u h = elim (Bool-cases (ltb 4096 (length b))) [
    | inl k ↦ elim (Bool-cases (is_empty m)) [
      | inl e ↦ rw (call, h, serve_long b k, e) refl
      | inr e ↦ rw (call, h, serve_long b k, e, k) refl
    ]
    | inr k ↦ elim (Bool-cases (is_empty m)) [
      | inl e ↦ rw (call, h, serve_short m b u h k, e) refl
      | inr e ↦ rw (call, h, serve_short m b u h k, e, k, decode_echoed m b u h (ground arith)) refl
    ]
  ]
