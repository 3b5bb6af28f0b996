-- ===== src/OidcVerifier/Settings/Tests.antt =====
-- oidcverifier/oidcverifier.go: `New` on one configuration, with a parser that knows one URL.
use go_toolbelt.Base.{
  ◌≡◌, refl, true, false, String, List, [], ◌∷◌, Option, none, some, str_eq, contains,
  if◌then◌else◌,
}
use go_toolbelt.Base.Int.{pos}
use go_toolbelt.Base.Result.{ok}
use go_toolbelt.OidcVerifier.Settings.{
  is_endpoint_url, Url, is_endpoint_url, Config, Settings, OptionFn, with_http_client, new,
  validate_issuer, check_issuer_url, value_set, add_values, apply_options, default_max_token_bytes,
}

abbrev pub issuer_text : String
issuer_text = "https://id.example/"

abbrev pub issuer_url : Url
issuer_url = record {
  scheme = "https";
  host = "id.example";
  has_user = false;
  raw_query = "";
  fragment = "";
}

abbrev pub parse_one : String → Option Url
parse_one s = if str_eq s "https://id.example/" then some issuer_url else none

abbrev given : Config
given = record {
  name = "";
  issuer = issuer_text;
  audiences = "api" ∷ "web" ∷ [];
  authorized_parties = [];
  signing_algorithms = [];
  max_token_bytes = pos 0;
}

abbrev pub made_settings : Settings
made_settings = record {
  cfg = record given { name = "oidc-verifier"; max_token_bytes = default_max_token_bytes };
  audiences = "web" ∷ "api" ∷ [];
  authorized_parties = "web" ∷ "api" ∷ [];
  http_client = 7;
}

abbrev own_client : List (Option OptionFn)
own_client = some (with_http_client (some 7)) ∷ []

new_makes : new parse_one 0 given own_client ≡ ok made_settings
unfolding new validate_issuer check_issuer_url value_set add_values apply_options with_http_client
    contains
new_makes = refl

pub issuer_checked : check_issuer_url issuer_text issuer_url ≡ ok tt
unfolding check_issuer_url
issuer_checked = refl

pub endpoint_checked : is_endpoint_url issuer_url ≡ true
unfolding is_endpoint_url
endpoint_checked = refl

pub code_added : add_values [] ("code" ∷ []) ≡ ok ("code" ∷ [])
unfolding add_values contains
code_added = refl

pub public_added : add_values [] ("public" ∷ []) ≡ ok ("public" ∷ [])
unfolding add_values contains
public_added = refl

pub method_added : add_values [] ("S256" ∷ []) ≡ ok ("S256" ∷ [])
unfolding add_values contains
method_added = refl

pub algorithms_added : add_values [] ("RS256" ∷ "HS256" ∷ []) ≡ ok ("HS256" ∷ "RS256" ∷ [])
unfolding add_values contains
algorithms_added = refl
