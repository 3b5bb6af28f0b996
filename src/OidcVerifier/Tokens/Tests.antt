-- ===== src/OidcVerifier/Tokens/Tests.antt =====
-- oidcverifier/oidcverifier.go: `Verify` on one token, whose payload names its authorized party.
use go_toolbelt.Base.{ℕ, ◌≡◌, ◌↔◌, refl, false, String, List, [], ◌∷◌, Option, some, contains}
use go_toolbelt.Base.Int.{pos}
use go_toolbelt.Base.Result.{ok}
use go_toolbelt.OidcVerifier.Settings.Tests.{issuer_text, made_settings}
use go_toolbelt.OidcVerifier.Tokens.{
  IdToken, Json, is_longer_than, verify, check_token, matches_any, read_authorized_party, party_of,
  member, check_party,
}
use go_toolbelt.OidcVerifier.Tokens.Laws.{IsAcceptable, token_of, verify_iff}

-- A decoder that finds the member `azp` with the whole text, and strings that stand for themselves.
abbrev plain_json : Json
plain_json = record {
  unmarshal_object = λ payload. some (("azp", payload) ∷ []);
  unmarshal_string = λ raw. some raw;
}

abbrev id_token : IdToken
id_token = record {
  issuer = issuer_text;
  subject = "user-1";
  audience = "api" ∷ "other" ∷ [];
  expiry = pos 2000;
  issued_at = pos 1000;
  issued_at_is_zero = false;
  payload = "web";
}

abbrev sample_verifier : List ℕ → Option IdToken
sample_verifier raw = some id_token

verifies :
    verify plain_json (some sample_verifier) made_settings (1 ∷ 2 ∷ [])
    ≡ ok (token_of id_token (some "web"))
unfolding verify check_token is_longer_than matches_any read_authorized_party party_of member
    check_party contains
verifies = refl

verify_iff_example :
    (verify plain_json (some sample_verifier) made_settings (1 ∷ 2 ∷ [])
      ≡ ok (token_of id_token (some "web")))
    ↔ ((is_longer_than made_settings.cfg.max_token_bytes (1 ∷ 2 ∷ []) ≡ false)
        × (t : IdToken) × (party : Option String) × (sample_verifier (1 ∷ 2 ∷ []) ≡ some t)
        × IsAcceptable plain_json made_settings t party
        × (token_of id_token (some "web") ≡ token_of t party))
verify_iff_example =
    verify_iff plain_json made_settings sample_verifier (1 ∷ 2 ∷ [])
      (token_of id_token (some "web"))
