-- ===== src/OidcVerifier/Tokens.antt =====
-- oidcverifier/oidcverifier.go: `Verify`, `matchesAny` and `readAuthorizedParty`. The verification
-- of the signature and the decoding of JSON are parameters.
pub mod Laws
mod Tests
use go_toolbelt.Base.{
  ℕ, Bool, true, false, not, ◌||◌, String, List, [], ◌∷◌, Option, none, some, length, if◌then◌else◌,
  str_eq, contains, ltb,
}
use go_toolbelt.Base.Int.{ℤ, pos, negsuc}
use go_toolbelt.Base.Result.{◌>>=◌, ◌>>◌, Result, ok, err, refuse_if}
use go_toolbelt.OidcVerifier.Settings.{Settings, is_empty}

pub data VerifyError : Type 0 where
  not_ready token_too_large invalid_token audience_refused party_refused : VerifyError

-- `oidc.IDToken`; the payload is the JSON of its claims.
pub record IdToken : Type 0 where
  pub issuer : String
  pub subject : String
  pub audience : List String
  pub expiry : ℤ
  pub issued_at : ℤ
  pub issued_at_is_zero : Bool
  pub payload : String

pub record Token : Type 0 where
  pub issuer : String
  pub subject : String
  pub audience : List String
  pub expiry : ℤ
  pub issued_at : ℤ
  pub authorized_party : String
  pub claims : String

-- `Token.Claims`, by what encoding/json makes of the payload; a nil token has none.
pub data ClaimsError (E : Type 0) : Type 0 where
  nil_token : ClaimsError E
  bad_claims : E → ClaimsError E

pub read_claims : {E A : Type 0} → (String → Result E A) → Option Token → Result (ClaimsError E) A
read_claims unmarshal none = err nil_token
read_claims unmarshal (some t) = elim (unmarshal t.claims) [
  | ok a ↦ ok a
  | err e ↦ err (bad_claims e)
]

-- `len(rawToken) > v.cfg.MaxTokenBytes`, the text given by its bytes
pub is_longer_than : ℤ → List ℕ → Bool
is_longer_than (pos n) raw = ltb n (length raw)
is_longer_than (negsuc n) raw = true

pub matches_any : List String → List String → Bool
matches_any [] allowed = false
matches_any (v ∷ vs) allowed = contains allowed v || matches_any vs allowed

-- A member of a decoded object; a later member of that name has replaced an earlier one.
pub member : String → List (String × String) → Option String
member k [] = none
member k ((j, v) ∷ m) = elim (member k m) [
  | some w ↦ some w
  | none ↦ if str_eq j k then some v else none
]

-- `encoding/json` on an object, by raw members, and on a string.
pub record Json : Type 0 where
  pub unmarshal_object : String → Option (List (String × String))
  pub unmarshal_string : String → Option String

abbrev pub has_several : List String → Bool
has_several [] = false
has_several (a ∷ []) = false
has_several (a ∷ b ∷ r) = true

module _ (json : Json) where
  open json use {unmarshal_object, unmarshal_string}

  -- `none` is a token with no `azp`; every error is `ErrInvalidToken` to the caller.
  pub party_of : Option String → Result VerifyError (Option String)
  party_of none = ok none
  party_of (some raw) =
      if str_eq raw "null"
      then err invalid_token
      else elim (unmarshal_string raw) [ none ↦ err invalid_token | some p ↦ ok (some p) ]

  pub read_authorized_party : String → Result VerifyError (Option String)
  unfolding party_of member
  read_authorized_party payload = elim (unmarshal_object payload) [
    | none ↦ err invalid_token
    | some values ↦ party_of (member "azp" values)
  ]

  pub check_party : Settings → IdToken → Option String → Result VerifyError Token
  check_party s t party = do
    _ ←
        refuse_if
          (elim party [
            | none ↦ has_several t.audience
            | some p ↦ not (contains s.authorized_parties p)
          ])
          party_refused
    ok (record {
      issuer = t.issuer;
      subject = t.subject;
      audience = t.audience;
      expiry = t.expiry;
      issued_at = t.issued_at;
      authorized_party = elim party [ none ↦ "" | some p ↦ p ];
      claims = t.payload;
    })

  pub check_token : Settings → IdToken → Result VerifyError Token
  unfolding matches_any read_authorized_party check_party
  check_token s t = do
    _ ←
        refuse_if (not (str_eq t.issuer s.cfg.issuer) || is_empty t.subject || t.issued_at_is_zero)
          invalid_token
    _ ← refuse_if (not (matches_any t.audience s.audiences)) audience_refused
    party ← read_authorized_party t.payload
    check_party s t party

  -- `verifier` is the state's `*oidc.IDTokenVerifier`, nil before the start and behind the stop; its
  -- `Verify` gives a token or fails.
  pub verify : Option (List ℕ → Option IdToken) → Settings → List ℕ → Result VerifyError Token
  unfolding check_token is_longer_than
  verify none s raw = err not_ready
  verify (some verifier) s raw = do
    _ ← refuse_if (is_longer_than s.cfg.max_token_bytes raw) token_too_large
    elim (verifier raw) [ none ↦ err invalid_token | some t ↦ check_token s t ]
