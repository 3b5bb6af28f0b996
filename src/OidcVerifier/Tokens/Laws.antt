-- ===== src/OidcVerifier/Tokens/Laws.antt =====
-- oidcverifier/oidcverifier.go: which tokens `Verify` accepts, and what it returns for them.
use go_toolbelt.Base.{
  ℕ, ◌≡◌, ◌≢◌, ◌↔◌, refl, Bool, true, false, not, ◌||◌, String, List, Option, none, some, str_eq,
  contains, arith, eq_iff, Option-cases, inl, inr,
}
use go_toolbelt.Base.Result.{ok, refuse_if, bind-eq-ok}
use go_toolbelt.OidcVerifier.Settings.{Settings, is_empty}
use go_toolbelt.OidcVerifier.Tokens.{
  VerifyError, token_too_large, invalid_token, audience_refused, IdToken, Token, is_longer_than,
  matches_any, Json, has_several, read_authorized_party, check_party, check_token, verify,
}

-- The authorized party that a token names is accepted; a token that names none has at most one
-- audience.
abbrev pub IsPartyAccepted : Settings → IdToken → Option String → Type 0
IsPartyAccepted s t none = has_several t.audience ≡ false
IsPartyAccepted s t (some p) = contains s.authorized_parties p ≡ true

abbrev pub party_text : Option String → String
party_text none = ""
party_text (some p) = p

-- What `Verify` demands of a token behind its signature.
abbrev pub IsAcceptable : Json → Settings → IdToken → Option String → Type 0
IsAcceptable json s t party =
    (t.issuer ≡ s.cfg.issuer)
    × (t.subject ≢ "")
    × (t.issued_at_is_zero ≡ false)
    × (matches_any t.audience s.audiences ≡ true)
    × (read_authorized_party json t.payload ≡ ok party)
    × IsPartyAccepted s t party

abbrev pub token_of : IdToken → Option String → Token
token_of t party = record {
  issuer = t.issuer;
  subject = t.subject;
  audience = t.audience;
  expiry = t.expiry;
  issued_at = t.issued_at;
  authorized_party = party_text party;
  claims = t.payload;
}

module _ (json : Json) (s : Settings) where
  check_party-ok :
      (t : IdToken) (party : Option String) (out : Token)
      → check_party json s t party ≡ ok out
      → IsPartyAccepted s t party × (out ≡ token_of t party)
  unfolding check_party
  check_party-ok t none out h = ground arith
  check_party-ok t (some p) out h = ground arith

  check_party-accepts :
      (t : IdToken) (party : Option String)
      → IsPartyAccepted s t party
      → check_party json s t party ≡ ok (token_of t party)
  unfolding check_party
  check_party-accepts t none h = ground arith
  check_party-accepts t (some p) h = ground arith

  abbrev lacks_identity : IdToken → Bool
  lacks_identity t = not (str_eq t.issuer s.cfg.issuer) || is_empty t.subject || t.issued_at_is_zero

  identity-ok :
      (t : IdToken)
      → (lacks_identity t ≡ false)
        ↔ ((t.issuer ≡ s.cfg.issuer) × (t.subject ≢ "") × (t.issued_at_is_zero ≡ false))
  identity-ok t = (
    (λ h. ground (arith, eq_iff t.issuer s.cfg.issuer, eq_iff t.subject "")),
    λ h. ground (arith, eq_iff t.issuer s.cfg.issuer, eq_iff t.subject ""),
  )

  refused_if_not : (b : Bool) (e : VerifyError) (a : Unit {0}) → refuse_if b e ≡ ok a → b ≡ false
  refused_if_not true e a h = absurd cc
  refused_if_not false e a h = refl

  check_token-ok :
      (t : IdToken) (out : Token)
      → check_token json s t ≡ ok out
      → (party : Option String) × IsAcceptable json s t party × (out ≡ token_of t party)
  unfolding check_token
  check_token-ok t out h =
      let (a, p, h₁) = bind-eq-ok (refuse_if (lacks_identity t) invalid_token) _ h in
      let (b, q, h₂) =
        bind-eq-ok (refuse_if (not (matches_any t.audience s.audiences)) audience_refused) _ h₁ in
      let (party, r, h₃) =
        bind-eq-ok (read_authorized_party json t.payload) (check_party json s t) h₂ in
      let (accepted, same) = check_party-ok t party out h₃ in
      let who = (identity-ok t).0 (refused_if_not (lacks_identity t) invalid_token a p) in
      let aud = refused_if_not (not (matches_any t.audience s.audiences)) audience_refused b q in
      (party, (who.0, who.1, who.2, ground (arith, aud), r, accepted), same)

  check_token-accepts :
      (t : IdToken) (party : Option String)
      → IsAcceptable json s t party
      → check_token json s t ≡ ok (token_of t party)
  unfolding check_token
  check_token-accepts t party h =
      let who : lacks_identity t ≡ false = (identity-ok t).1 (h.0, h.1, h.2) in
      rw (who, h.3, h.4) (check_party-accepts t party h.5)

  -- `Verify` on a ready verifier returns a token exactly if the raw text is within the limit, the
  -- signature's verifier gives an ID token, its issuer is the configured one, its subject and date
  -- are there, one of its audiences is accepted, and its authorized party can be read and is
  -- accepted, or is missing where there is one audience at most. What it returns are the ID token's
  -- own fields and that party.
  pub verify_iff :
      (verifier : List ℕ → Option IdToken) (raw : List ℕ) (out : Token)
      → (verify json (some verifier) s raw ≡ ok out) ↔ (
          (is_longer_than s.cfg.max_token_bytes raw ≡ false)
          × (t : IdToken) × (party : Option String) × (verifier raw ≡ some t)
          × IsAcceptable json s t party
          × (out ≡ token_of t party))
  unfolding verify
  verify_iff verifier raw out = (
    (λ h.
        let (a, p, h₁) =
          bind-eq-ok (refuse_if (is_longer_than s.cfg.max_token_bytes raw) token_too_large) _ h in
        elim (Option-cases (verifier raw)) [
          | inl q ↦ absurd (let g = rw q at h₁ in cc)
          | inr (t, q) ↦
              let (party, acceptable, same) = check_token-ok t out (rw q at h₁) in
              (
                refused_if_not (is_longer_than s.cfg.max_token_bytes raw) token_too_large a p,
                t,
                party,
                q,
                acceptable,
                same,
              )
        ]),
    λ (short, t, party, q, acceptable, same).
        rw (short, q, same) (check_token-accepts t party acceptable),
  )
