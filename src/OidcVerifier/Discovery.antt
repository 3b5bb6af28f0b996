-- ===== src/OidcVerifier/Discovery.antt =====
-- oidcverifier/oidcverifier.go: `Discover`, the redirects of `httpsOnlyClient`, and the filters on
-- what the provider supports. The HTTP exchange and `mime.ParseMediaType` are parameters; the body
-- is decoded by the model of strictjson.
pub mod Laws
mod Tests
use Prim.Native.Char.{code}
use Prim.Native.String.{◌++◌ as append}
use go_toolbelt.Base.{
  ℕ, Bool, false, not, ◌&&◌, ◌||◌, String, List, [], ◌∷◌, Option, none, some, if◌then◌else◌, str_eq,
  contains, ltb, ◌==◌,
}
use go_toolbelt.Base.Words.{fields}
use go_toolbelt.Base.Result.{◌>>=◌, ◌>>◌, Result, ok, err, refuse_if}
use go_toolbelt.OidcVerifier.Settings.{
  Url, IssuerError, ValueError, is_empty, no_values, validate_string_values, in_context,
  validate_issuer, is_valid_endpoint,
}
use go_toolbelt.StrictJson.Decode.{DecodeError, TypedDecoder, Reader, decode_reader}
use go_toolbelt.StrictJson.Stream.{Decoder}

abbrev pub max_provider_metadata_bytes : ℕ
max_provider_metadata_bytes = 1_048_576

abbrev pub supported_algorithms : List String
supported_algorithms =
    "RS256" ∷ "RS384" ∷ "RS512" ∷ "ES256" ∷ "ES384" ∷ "ES512" ∷ "PS256" ∷ "PS384" ∷ "PS512"
    ∷ "EdDSA" ∷ []

pub record ProviderMetadata : Type 0 where
  pub issuer : String
  pub authorization_endpoint : String
  pub token_endpoint : String
  pub jwks_url : String
  pub response_types : List String
  pub code_challenge_methods : List String
  pub signing_algorithms : List String

-- The struct that `Discover` decodes into.
pub record Document : Type 0 where
  pub issuer : String
  pub authorization_endpoint : String
  pub token_endpoint : String
  pub jwks_url : String
  pub response_types : List String
  pub subject_types : List String
  pub code_challenge_methods : List String
  pub signing_algorithms : List String

pub data Endpoint : Type 0 where
  authorization token jwks : Endpoint

pub data ValueKind : Type 0 where
  response_type subject_type code_challenge_method signing_algorithm : ValueKind

pub data DiscoverError : Type 0 where
  bad_issuer : IssuerError → DiscoverError
  nil_client bad_request no_response : DiscoverError
  bad_status : ℕ → DiscoverError
  not_json : DiscoverError
  bad_document : DecodeError → DiscoverError
  issuer_mismatch : DiscoverError
  bad_endpoint : Endpoint → DiscoverError
  no_response_type no_token_endpoint no_subject_type : DiscoverError
  bad_values : ValueKind → ValueError → DiscoverError
  no_rs256 no_algorithm : DiscoverError
  -- What `read_document` never returns: the decoding has no outcome.
  no_outcome : DiscoverError

-- `strings.TrimSuffix(issuer, "/")`
pub trim_slash : String → String
trim_slash String.[] = ""
trim_slash (String.◌∷◌ c s) =
    let rest = String.◌∷◌ c (trim_slash s) in if is_empty s && code c == b'/' then "" else rest

pub supports_code_flow : List String → Bool
unfolding fields contains
supports_code_flow [] = false
supports_code_flow (r ∷ rs) = contains (fields r) "code" || supports_code_flow rs

pub filter_supported_algorithms : List String → List String
filter_supported_algorithms [] = []
filter_supported_algorithms (v ∷ vs) =
    if contains supported_algorithms v
    then v ∷ filter_supported_algorithms vs
    else filter_supported_algorithms vs

-- `CheckRedirect` of `httpsOnlyClient`, by the scheme of the next request, how many went before, and
-- the verdict of the caller's own check, if there is one. The flag tells whether it follows.
pub check_redirect : String → ℕ → Option Bool → Bool
check_redirect scheme via own =
    if not (str_eq scheme "https")
    then false
    else elim own [ some follow ↦ follow | none ↦ ltb via 10 ]

-- The response's status, its media type as far as it parses, and its body.
pub record Response (Body : Type 0) : Type 0 where
  pub status : ℕ
  pub media_type : Option String
  pub body : Body

abbrev pub is_json : Option String → Bool
is_json none = false
is_json (some t) = str_eq t "application/json"

-- `clone` of the document's lists is a copy; values stand for themselves here.
pub metadata_of : Document → ProviderMetadata
unfolding filter_supported_algorithms
metadata_of d = record {
  issuer = d.issuer;
  authorization_endpoint = d.authorization_endpoint;
  token_endpoint = d.token_endpoint;
  jwks_url = d.jwks_url;
  response_types = d.response_types;
  code_challenge_methods = d.code_challenge_methods;
  signing_algorithms = filter_supported_algorithms d.signing_algorithms;
}

module _ (parse : String → Option Url) where
  abbrev check_endpoint : Endpoint → String → Result DiscoverError (Unit {0})
  check_endpoint e raw = refuse_if (not (is_valid_endpoint parse raw)) (bad_endpoint e)

  abbrev check_values : ValueKind → List String → Result DiscoverError (List String)
  check_values kind values = in_context (bad_values kind) (validate_string_values values)

  -- The checks on the document, in their order.
  pub check_document : String → Document → Result DiscoverError ProviderMetadata
  unfolding is_valid_endpoint validate_string_values supports_code_flow metadata_of
  check_document issuer d = do
    _ ← refuse_if (not (str_eq d.issuer issuer)) issuer_mismatch
    _ ← check_endpoint authorization d.authorization_endpoint
    _ ← if is_empty d.token_endpoint then ok tt else check_endpoint token d.token_endpoint
    _ ← refuse_if (no_values d.response_types) no_response_type
    _ ←
        refuse_if (supports_code_flow d.response_types && is_empty d.token_endpoint)
          no_token_endpoint
    _ ← refuse_if (no_values d.subject_types) no_subject_type
    _ ← check_values response_type d.response_types
    _ ← check_values subject_type d.subject_types
    _ ← check_values code_challenge_method d.code_challenge_methods
    _ ← check_endpoint jwks d.jwks_url
    _ ← check_values signing_algorithm d.signing_algorithms
    _ ← refuse_if (not (contains d.signing_algorithms "RS256")) no_rs256
    _ ← refuse_if (no_values (filter_supported_algorithms d.signing_algorithms)) no_algorithm
    ok (metadata_of d)

  -- `send` is `http.NewRequestWithContext` and `Do` on a URL, `none` a request that cannot be made and
  -- `some none` one with no response; `view` reads the struct off the decoder's target.
  module _ (json : Decoder) (typed : TypedDecoder) (reader : Reader)
      (send : String → Option (Option (Response reader.State))) (blank : typed.Target)
      (view : typed.Target → Document) where
    -- `strictjson.DecodeReader` of the body; `none`, for fuel that ran out, never comes.
    pub read_document : reader.State → Result DiscoverError Document
    unfolding decode_reader
    read_document body =
        elim (decode_reader json typed reader (some body) max_provider_metadata_bytes (some blank)
          []) [
            | some (none, some t) ↦ ok (view t)
            | some (some e, t) ↦ err (bad_document e)
            | _ ↦ err no_outcome
          ]

    pub read_response : String → Response reader.State → Result DiscoverError ProviderMetadata
    unfolding read_document check_document
    read_response issuer r = do
      _ ← refuse_if (not (r.status == 200)) (bad_status r.status)
      _ ← refuse_if (not (is_json r.media_type)) not_json
      d ← read_document r.body
      check_document issuer d

    pub after_send :
        String → Option (Option (Response reader.State)) → Result DiscoverError ProviderMetadata
    unfolding read_response
    after_send issuer none = err bad_request
    after_send issuer (some none) = err no_response
    after_send issuer (some (some r)) = read_response issuer r

    -- `client` tells whether the caller's client is not nil.
    pub discover : String → Bool → Result DiscoverError ProviderMetadata
    unfolding validate_issuer after_send trim_slash
    discover issuer client = do
      _ ← in_context bad_issuer (validate_issuer parse issuer)
      _ ← refuse_if (not client) nil_client
      after_send issuer (send (append (trim_slash issuer) "/.well-known/openid-configuration"))
