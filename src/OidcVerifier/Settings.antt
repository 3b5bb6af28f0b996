-- ===== src/OidcVerifier/Settings.antt =====
-- oidcverifier/oidcverifier.go: `New`, `validateIssuer`, `validateEndpoint`, and the sets of values.
-- `parse` is `url.Parse`.
pub mod Laws
pub mod Tests
use go_toolbelt.Base.{
  ℕ, Bool, true, false, not, ◌&&◌, ◌||◌, String, List, [], ◌∷◌, Option, none, some, if◌then◌else◌,
  str_eq, contains,
}
use go_toolbelt.Base.Int.{ℤ, pos, is_negative, is_zero}
use go_toolbelt.Base.Result.{Result, ok, err, ◌>>=◌, ◌>>◌, refuse_if}

-- What the checks read of a `url.URL`.
pub record Url : Type 0 where
  pub scheme : String
  pub host : String
  pub has_user : Bool
  pub raw_query : String
  pub fragment : String

pub data IssuerError : Type 0 where
  unparsable not_absolute_https has_extras : IssuerError

pub data ValueError : Type 0 where
  missing empty_value : ValueError
  duplicated : String → ValueError

abbrev pub is_empty : String → Bool
is_empty s = str_eq s ""

abbrev pub no_values : List String → Bool
no_values [] = true
no_values (x ∷ xs) = false

-- The loop of `validateStringValues` and of `valueSet`, over the set so far.
pub add_values : List String → List String → Result ValueError (List String)
add_values set [] = ok set
add_values set (v ∷ vs) =
    let rest = add_values (v ∷ set) vs in
    if is_empty v then err empty_value else if contains set v then err (duplicated v) else rest

unfoldable pub validate_string_values : List String → Result ValueError (List String)
unfolding add_values
validate_string_values = add_values []

pub value_set : Bool → List String → Result ValueError (List String)
unfolding add_values
value_set required values =
    if required && no_values values then err missing else add_values [] values

pub data ConfigError : Type 0 where
  bad_issuer : IssuerError → ConfigError
  bad_audience bad_authorized_party : ValueError → ConfigError
  negative_token_size nil_option nil_client : ConfigError

pub record Config : Type 0 where
  pub name : String
  pub issuer : String
  pub audiences : List String
  pub authorized_parties : List String
  pub signing_algorithms : List String
  pub max_token_bytes : ℤ

abbrev pub default_max_token_bytes : ℤ
default_max_token_bytes = pos 65_536

-- `WithHTTPClient` of a client, known by a number, or of nil.
abbrev pub OptionFn : Type 0
OptionFn = ℕ → Result ConfigError ℕ

pub with_http_client : Option ℕ → OptionFn
with_http_client none opts = err nil_client
with_http_client (some client) opts = ok client

pub apply_options : ℕ → List (Option OptionFn) → Result ConfigError ℕ
apply_options client [] = ok client
apply_options client (none ∷ fns) = err nil_option
apply_options client (some fn ∷ fns) = fn client >>= λ c. apply_options c fns

-- The fields of a `Verifier` that `New` sets for good.
pub record Settings : Type 0 where
  pub cfg : Config
  pub audiences : List String
  pub authorized_parties : List String
  pub http_client : ℕ

abbrev pub in_context : {E F A : Type 0} → (E → F) → Result E A → Result F A
in_context f (ok a) = ok a
in_context f (err e) = err (f e)

-- `validateIssuer` behind the parsing of the URL.
pub check_issuer_url : String → Url → Result IssuerError (Unit {0})
check_issuer_url issuer u =
    if is_empty issuer || not (str_eq u.scheme "https") || is_empty u.host
    then err not_absolute_https
    else if u.has_user || not (is_empty u.raw_query) || not (is_empty u.fragment)
    then err has_extras
    else ok tt

-- `validateEndpoint` behind the parsing of the URL.
pub is_endpoint_url : Url → Bool
is_endpoint_url u =
    not
      (not (str_eq u.scheme "https") || is_empty u.host || u.has_user || not (is_empty u.fragment))

module _ (parse : String → Option Url) where
  unfoldable pub validate_issuer : String → Result IssuerError (Unit {0})
  unfolding check_issuer_url
  validate_issuer issuer = elim (parse issuer) [
    | none ↦ err unparsable
    | some u ↦ check_issuer_url issuer u
  ]

  -- Whether `validateEndpoint` returns nil.
  unfoldable pub is_valid_endpoint : String → Bool
  unfolding is_endpoint_url
  is_valid_endpoint raw = elim (parse raw) [ none ↦ false | some u ↦ is_endpoint_url u ]

  -- `default_client` is `http.DefaultClient`.
  pub new : ℕ → Config → List (Option OptionFn) → Result ConfigError Settings
  unfolding validate_issuer value_set apply_options
  new default_client cfg fns = do
    _ ← in_context bad_issuer (validate_issuer cfg.issuer)
    audiences ← in_context bad_audience (value_set true cfg.audiences)
    parties ← in_context bad_authorized_party (value_set false cfg.authorized_parties)
    _ ← refuse_if (is_negative cfg.max_token_bytes) negative_token_size
    client ← apply_options default_client fns
    ok (record {
      cfg = record cfg {
        name = if is_empty cfg.name then "oidc-verifier" else cfg.name;
        max_token_bytes =
            if is_zero cfg.max_token_bytes then default_max_token_bytes else cfg.max_token_bytes;
      };
      audiences = audiences;
      authorized_parties = if no_values parties then audiences else parties;
      http_client = client;
    })
