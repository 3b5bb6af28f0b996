-- ===== src/OidcVerifier/Keys/Tests.antt =====
-- oidcverifier/oidcverifier.go: `VerifySignature` with a cache that misses, over keys that are known
-- by their key ids.
use go_toolbelt.Base.{ℕ, ◌≡◌, refl, ◌⊎◌, String, List, [], ◌∷◌, none, some}
use go_toolbelt.OidcVerifier.Keys.{
  Jose, Answer, answer, verify_with_keys, keys, fetch, accepted, after_fetch, hit_or_fetch,
  verify_signature,
}
use go_toolbelt.OidcVerifier.Keys.Laws.{VerifiedBy, verify_signature_sound}

-- A token is its text and names the key `k2`, which verifies it.
abbrev sample_jose : Jose
sample_jose = record {
  Signed = List ℕ;
  Key = String;
  parse_signed = λ raw. some raw;
  signed_key_id = λ signed. "k2";
  key_id = λ key. key;
  check = λ signed key. some signed;
  decode_keys = λ bytes. some ("k1" ∷ "k2" ∷ []);
}

abbrev sample_raw : List ℕ
sample_raw = 4 ∷ 5 ∷ []

abbrev sample_answer : Answer
sample_answer = answer 200 (some (9 ∷ []))

abbrev stale : List String
stale = "k1" ∷ []

miss_accepted :
    (verify_signature sample_jose stale sample_answer sample_raw).1 ≡ accepted sample_raw
unfolding verify_signature hit_or_fetch after_fetch fetch verify_with_keys
miss_accepted = refl

verify_signature_sound_example :
    (signed : List ℕ) × (some sample_raw ≡ some signed)
    × ((((verify_signature sample_jose stale sample_answer sample_raw).0 ≡ none)
          × VerifiedBy sample_jose signed sample_raw stale)
        ⊎ ((ks : List String) × (fetch sample_jose sample_answer ≡ keys ks)
            × ((verify_signature sample_jose stale sample_answer sample_raw).0 ≡ some ks)
            × VerifiedBy sample_jose signed sample_raw ks))
verify_signature_sound_example =
    verify_signature_sound sample_jose stale sample_answer sample_raw sample_raw miss_accepted

fetched : fetch sample_jose sample_answer ≡ keys ("k1" ∷ "k2" ∷ [])
unfolding fetch
fetched = refl
