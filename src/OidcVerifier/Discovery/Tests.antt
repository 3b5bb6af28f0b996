-- ===== src/OidcVerifier/Discovery/Tests.antt =====
-- oidcverifier/oidcverifier.go: one discovery that succeeds.
use go_toolbelt.Base.{arith, ℕ, ◌≡◌, refl, true, String, List, [], ◌∷◌, Option, some, contains}
use go_toolbelt.Base.Words.{fields, fields_of}
use go_toolbelt.Base.Result.{ok}
use go_toolbelt.StrictJson.Stream.Tests.{sample_decoder, sample_object}
use go_toolbelt.StrictJson.Decode.Tests.{keep_bytes, list_reader, document_read}
use go_toolbelt.OidcVerifier.Settings.{validate_issuer, is_valid_endpoint, validate_string_values}
use go_toolbelt.OidcVerifier.Settings.Tests.{
  parse_one, issuer_text, issuer_checked, endpoint_checked, code_added, public_added, method_added,
  algorithms_added,
}
use go_toolbelt.OidcVerifier.Discovery.{
  ProviderMetadata, Document, Response, metadata_of, supports_code_flow,
  filter_supported_algorithms, check_document, read_document, read_response, after_send, discover,
}
use go_toolbelt.OidcVerifier.Discovery.Laws.{IsUsable, discover-IsUsable}

abbrev document : Document
document = record {
  issuer = issuer_text;
  authorization_endpoint = issuer_text;
  token_endpoint = issuer_text;
  jwks_url = issuer_text;
  response_types = "code" ∷ [];
  subject_types = "public" ∷ [];
  code_challenge_methods = "S256" ∷ [];
  signing_algorithms = "RS256" ∷ "HS256" ∷ [];
}

abbrev found : ProviderMetadata
found = record {
  issuer = issuer_text;
  authorization_endpoint = issuer_text;
  token_endpoint = issuer_text;
  jwks_url = issuer_text;
  response_types = "code" ∷ [];
  code_challenge_methods = "S256" ∷ [];
  signing_algorithms = "RS256" ∷ [];
}

abbrev reply : Response (List ℕ)
reply = record { status = 200; media_type = some "application/json"; body = sample_object }

abbrev send_any : String → Option (Option (Response (List ℕ)))
send_any url = some (some reply)

abbrev view_any : List ℕ → Document
view_any bytes = document

document_checked : check_document parse_one issuer_text document ≡ ok found
unfolding check_document is_valid_endpoint validate_string_values supports_code_flow fields
    fields_of contains metadata_of filter_supported_algorithms
document_checked =
    ground (arith, endpoint_checked, code_added, public_added, method_added, algorithms_added)

document_viewed :
    read_document parse_one sample_decoder keep_bytes list_reader send_any [] view_any sample_object
    ≡ ok document
unfolding read_document
document_viewed = rw (document_read, read_document) refl

response_read :
    read_response parse_one sample_decoder keep_bytes list_reader send_any [] view_any issuer_text
      reply
    ≡ ok found
unfolding read_response
response_read = rw (document_viewed, read_response) document_checked

discovered :
    discover parse_one sample_decoder keep_bytes list_reader send_any [] view_any issuer_text true
    ≡ ok found
unfolding discover after_send validate_issuer
discovered = ground (arith, issuer_checked, response_read)

discover-IsUsable_example :
    (validate_issuer parse_one issuer_text ≡ ok tt)
    × (true ≡ true)
    × ((url : String) × (r : Response (List ℕ)) × (send_any url ≡ some (some r)) × (r.status ≡ 200))
    × IsUsable parse_one issuer_text found
discover-IsUsable_example =
    discover-IsUsable parse_one sample_decoder keep_bytes list_reader send_any [] view_any
      issuer_text true found discovered
