-- ===== src/OidcVerifier/Keys/Laws.antt =====
-- oidcverifier/oidcverifier.go: what `VerifySignature` accepts, and when it replaces its keys.
use go_toolbelt.Base.{
  ℕ, ◌≡◌, ◌≤◌, refl, ap, ◌∙◌, List, [], ◌∷◌, none, some, length, arith, eq_iff, Option-cases, inl,
  inr, ◌⊎◌,
}
use go_toolbelt.OidcVerifier.Keys.{
  Jose, Answer, no_answer, answer, max_jwks_bytes, verify_with_keys, Fetched, keys, refused, fetch,
  accepted, after_fetch, hit_or_fetch, verify_signature,
}

module _ (jose : Jose) where
  open jose use {Signed, Key, parse_signed, signed_key_id, key_id, check}

  -- A key of the list has the token's key id, where it names one, and verifies it to that payload.
  abbrev pub VerifiedBy : Signed → List ℕ → List Key → Type 0
  VerifiedBy signed payload [] = ⊥
  VerifiedBy signed payload (key ∷ ks) =
      (((signed_key_id signed ≡ "") ⊎ (key_id key ≡ signed_key_id signed))
        × (check signed key ≡ some payload))
      ⊎ VerifiedBy signed payload ks

  verify_with_keys-VerifiedBy :
      (signed : Signed) (ks : List Key) (payload : List ℕ)
      → verify_with_keys jose signed ks ≡ some payload
      → VerifiedBy signed payload ks
  unfolding verify_with_keys
  verify_with_keys-VerifiedBy signed [] payload h = cc
  verify_with_keys-VerifiedBy signed (key ∷ ks) payload h = ground (
    arith,
    verify_with_keys-VerifiedBy signed ks payload,
    eq_iff (signed_key_id signed) "",
    eq_iff (key_id key) (signed_key_id signed),
  )

  after_fetch-ok :
      (signed : Signed) (f : Fetched jose) (payload : List ℕ)
      → (after_fetch jose signed f).1 ≡ accepted payload
      → (ks : List Key) × (f ≡ keys ks)
        × ((after_fetch jose signed f).0 ≡ some ks)
        × VerifiedBy signed payload ks
  unfolding after_fetch
  after_fetch-ok signed (refused e) payload h = absurd cc
  after_fetch-ok signed (keys ks) payload h =
      elim (Option-cases (verify_with_keys jose signed ks)) [
        | inl p ↦ absurd (let g = rw (p, after_fetch) at h in cc)
        | inr (q, p) ↦
            let g = rw (p, after_fetch) at h in
            let same : q ≡ payload = cc in
            (ks, refl, refl, verify_with_keys-VerifiedBy signed ks payload (p ∙ ap some same))
      ]

  hit_or_fetch-ok :
      (cached : List Key) (reply : Answer) (payload : List ℕ) (signed : Signed)
      → (hit_or_fetch jose cached reply signed).1 ≡ accepted payload
      → (((hit_or_fetch jose cached reply signed).0 ≡ none) × VerifiedBy signed payload cached)
        ⊎ ((ks : List Key) × (fetch jose reply ≡ keys ks)
            × ((hit_or_fetch jose cached reply signed).0 ≡ some ks)
            × VerifiedBy signed payload ks)
  unfolding hit_or_fetch
  hit_or_fetch-ok cached reply payload signed g =
      elim (Option-cases (verify_with_keys jose signed cached)) [
        | inl q ↦ inr (
            rw (q, hit_or_fetch)
              (after_fetch-ok signed (fetch jose reply) payload (rw (q, hit_or_fetch) at g)))
        | inr (x, q) ↦
            let k = rw (q, hit_or_fetch) at g in
            let same : x ≡ payload = cc in
            inl (
              rw (q, hit_or_fetch) refl,
              verify_with_keys-VerifiedBy signed cached payload (q ∙ ap some same),
            )
      ]

  -- When `VerifySignature` returns a payload, the token parses, and a key with the token's key id,
  -- where it names one, verifies it to that payload: a cached key, and then the cache is not written,
  -- or one of the keys that the endpoint has just given, and then those are written to the cache.
  pub verify_signature_sound :
      (cached : List Key) (reply : Answer) (raw payload : List ℕ)
      → (verify_signature jose cached reply raw).1 ≡ accepted payload
      → (signed : Signed) × (parse_signed raw ≡ some signed)
        × ((((verify_signature jose cached reply raw).0 ≡ none) × VerifiedBy signed payload cached)
            ⊎ ((ks : List Key) × (fetch jose reply ≡ keys ks)
                × ((verify_signature jose cached reply raw).0 ≡ some ks)
                × VerifiedBy signed payload ks))
  unfolding verify_signature
  verify_signature_sound cached reply raw payload h = elim (Option-cases (parse_signed raw)) [
    | inl p ↦ absurd (let g = rw (p, verify_signature) at h in cc)
    | inr (signed, p) ↦ (
      signed,
      p,
      rw (p, verify_signature)
          (hit_or_fetch-ok cached reply payload signed (rw (p, verify_signature) at h)),
    )
  ]

  -- The keys that are fetched come in a response with status 200 of at most `maxJWKSBytes` bytes.
  fetch_bounded :
      (reply : Answer) (ks : List Key)
      → fetch jose reply ≡ keys ks
      → (bytes : List ℕ) × (reply ≡ answer 200 (some bytes)) × (length bytes ≤ max_jwks_bytes)
  unfolding fetch
  fetch_bounded no_answer ks h = absurd cc
  fetch_bounded (answer status none) ks h = absurd (ground arith)
  fetch_bounded (answer status (some bytes)) ks h = (bytes, ground arith, ground arith)
