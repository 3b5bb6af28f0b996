-- ===== src/StrictJson/Stream.antt =====
-- strictjson/strictjson.go, `Validate` and the loop of `validateTokens` over a decoder. The decoder
-- (`encoding/json`) is a parameter: a state, its `Token` method, and how much input is left.
pub mod Tests
use go_toolbelt.Base.{
  ℕ, zero, suc, ◌<◌, ◌≤◌, ◌≡◌, refl, ap, ◌∙◌, true, List, [], ◌∷◌, Option, some, none, arith, inl,
  inr, ◌⊎◌, if◌then◌else◌,
}
use go_toolbelt.StrictJson.{
  Error, duplicate_name, Token, TokenResult, got, eof, failed, Scan, continue, return, Ending,
  at_eof, at_failure, ending_result, max_nesting_depth, round, scan, start,
}
use go_toolbelt.StrictJson.Complete.{scan-value}
use go_toolbelt.StrictJson.Grammar.{Value, print, depth, has_unique_names}
use go_toolbelt.StrictJson.Sound.{scan_sound, Round-cases}

-- `json.NewDecoder(bytes.NewReader(data))` and its `Token`: a call that delivers a token has
-- consumed input.
pub record Decoder : Type 1 where
  pub State : Type 0
  pub new_decoder : List ℕ → State
  pub token : State → TokenResult × State
  pub left : State → ℕ
  pub token-left : (s : State) (t : Token) → (token s).0 ≡ got t → left (token s).1 < left s

module _ (d : Decoder) where
  open d use {State, new_decoder, token, left, token-left}

  -- The loop with fuel; `none` means that the fuel ran out.
  pub validate_tokens : ℕ → Scan → State → Option (Option Error)
  validate_tokens zero s decoder = none
  validate_tokens (suc fuel) s decoder = elim (round s (token decoder).0) [
    | continue s' ↦ validate_tokens fuel s' (token decoder).1
    | return e ↦ some e
  ]

  pub validate : List ℕ → Option (Option Error)
  validate bytes =
      let decoder = new_decoder bytes in validate_tokens (suc (left decoder)) start decoder

  -- All the tokens of a decoder, and how they end.
  pub drain : ℕ → State → List Token × Ending
  drain zero decoder = ([], at_failure)
  drain (suc fuel) decoder = elim (token decoder).0 [
    | got t ↦ (t ∷ (drain fuel (token decoder).1).0, (drain fuel (token decoder).1).1)
    | eof ↦ ([], at_eof)
    | failed ↦ ([], at_failure)
  ]

  abbrev pub tokens_of : List ℕ → List Token × Ending
  tokens_of bytes = let decoder = new_decoder bytes in drain (suc (left decoder)) decoder

  TokenResult-cases : (r : TokenResult) → ((t : Token) × (r ≡ got t)) ⊎ ((r ≡ eof) ⊎ (r ≡ failed))
  TokenResult-cases (got t) = inl (t, refl)
  TokenResult-cases eof = inr (inl refl)
  TokenResult-cases failed = inr (inr refl)

  validate_tokens-step :
      (fuel : ℕ) (s : Scan) (decoder : State) (t : Token)
      → (token decoder).0 ≡ got t
      → ((s' : Scan)
          → validate_tokens fuel s' (token decoder).1
            ≡ some (scan s' (drain fuel (token decoder).1).0 (drain fuel (token decoder).1).1))
      → validate_tokens (suc fuel) s decoder
        ≡ some (scan s (drain (suc fuel) decoder).0 (drain (suc fuel) decoder).1)
  unfolding validate_tokens drain scan
  validate_tokens-step fuel s decoder t e ih = elim (Round-cases (round s (got t))) [
    | inl (s', p) ↦ rw (e, validate_tokens, drain) (rw (p, scan) (ih s'))
    | inr (x, p) ↦ rw (e, validate_tokens, drain) (rw (p, scan))
  ]

  validate_tokens-end :
      (fuel : ℕ) (s : Scan) (decoder : State) (last : Ending)
      → (token decoder).0 ≡ ending_result last
      → validate_tokens (suc fuel) s decoder
        ≡ some (scan s (drain (suc fuel) decoder).0 (drain (suc fuel) decoder).1)
  unfolding validate_tokens drain scan round
  validate_tokens-end fuel s decoder at_eof e = rw (e, validate_tokens, drain)
  validate_tokens-end fuel s decoder at_failure e = rw (e, validate_tokens, drain)

  validate_tokens-scan :
      (fuel : ℕ) (s : Scan) (decoder : State)
      → left decoder < fuel
      → validate_tokens fuel s decoder ≡ some (scan s (drain fuel decoder).0 (drain fuel decoder).1)
  validate_tokens-scan zero s decoder h = absurd (omega arith)
  validate_tokens-scan (suc fuel) s decoder h = elim (TokenResult-cases (token decoder).0) [
    | inl (t, e) ↦
        let lower = token-left decoder t e in
        validate_tokens-step fuel s decoder t e
          (λ s'. validate_tokens-scan fuel s' (token decoder).1 (omega arith))
    | inr (inl e) ↦ validate_tokens-end fuel s decoder at_eof e
    | inr (inr e) ↦ validate_tokens-end fuel s decoder at_failure e
  ]

  -- `Validate` always returns, and returns what the scan of the decoder's tokens does: the fuel, one
  -- more than the input left, suffices.
  pub validate-scan :
      (bytes : List ℕ) → validate bytes ≡ some (scan start (tokens_of bytes).0 (tokens_of bytes).1)
  unfolding validate
  validate-scan bytes =
      validate_tokens-scan (suc (left (new_decoder bytes))) start (new_decoder bytes) (omega arith)

  -- When the decoder delivers the tokens of one value, nested at most `maxNestingDepth` deep, and
  -- then EOF, `Validate` returns nil if in every object the names are pairwise different, and
  -- otherwise `ErrDuplicateName`.
  pub validate-value :
      (bytes : List ℕ) (v : Value)
      → tokens_of bytes ≡ (print v [], at_eof)
      → depth v ≤ max_nesting_depth
      → validate bytes ≡ some (if has_unique_names v then none else some duplicate_name)
  validate-value bytes v e h = validate-scan bytes ∙ rw e (ap some (scan-value v h))

  -- When `Validate` returns nil, the decoder has ended by EOF, and has delivered the tokens of one
  -- value (in which a last member name may stand with no value) that is nested at most
  -- `maxNestingDepth` deep and in each of whose objects the names are pairwise different.
  pub validate_sound :
      (bytes : List ℕ)
      → validate bytes ≡ some none
      → ((tokens_of bytes).1 ≡ at_eof)
        × (v : Value) × ((tokens_of bytes).0 ≡ print v [])
        × (depth v ≤ max_nesting_depth)
        × (has_unique_names v ≡ true)
  validate_sound bytes e =
      scan_sound (tokens_of bytes).0 (tokens_of bytes).1 (cc (validate-scan bytes))
