-- ===== src/OidcVerifier/Keys.antt =====
-- oidcverifier/oidcverifier.go: `remoteKeySet`. Parsing a token into its one signature, checking it
-- with a key, and the HTTP exchange are parameters. The cache is read and written in two critical
-- sections of `VerifySignature`, and another call may write it between them.
pub mod Laws
mod Tests
use go_toolbelt.Base.{
  ℕ, not, ◌&&◌, String, List, [], ◌∷◌, Option, none, some, length, if◌then◌else◌, str_eq, ltb, ◌==◌,
}
use go_toolbelt.OidcVerifier.Settings.{is_empty}

abbrev pub max_jwks_bytes : ℕ
max_jwks_bytes = 1_048_576

-- The JOSE library: signed tokens with one signature, keys, and payloads.
pub record Jose : Type 1 where
  pub Signed : Type 0
  pub Key : Type 0
  -- `none` where parsing fails or there is not one signature
  pub parse_signed : List ℕ → Option Signed
  pub signed_key_id : Signed → String
  pub key_id : Key → String
  pub check : Signed → Key → Option (List ℕ)
  -- the keys of a JSON Web Key Set
  pub decode_keys : List ℕ → Option (List Key)

-- What the key endpoint answers; `io.ReadAll` has read at most one byte more than the limit.
pub data Answer : Type 0 where
  no_answer : Answer
  answer : ℕ → Option (List ℕ) → Answer

pub data KeyError : Type 0 where
  bad_token fetch_failed bad_status unreadable too_large undecodable no_key : KeyError

module _ (jose : Jose) where
  open jose use {Signed, Key, parse_signed, signed_key_id, key_id, check, decode_keys}

  pub verify_with_keys : Signed → List Key → Option (List ℕ)
  verify_with_keys signed [] = none
  verify_with_keys signed (key ∷ keys) =
      let rest = verify_with_keys signed keys in
      if not (is_empty (signed_key_id signed)) && not (str_eq (key_id key) (signed_key_id signed))
      then rest
      else elim (check signed key) [ some payload ↦ some payload | none ↦ rest ]

  pub data Fetched : Type 0 where
    keys : List Key → Fetched
    refused : KeyError → Fetched

  pub fetch : Answer → Fetched
  fetch no_answer = refused fetch_failed
  fetch (answer status body) = if not (status == 200) then refused bad_status else elim body [
    | none ↦ refused unreadable
    | some bytes ↦
        if ltb max_jwks_bytes (length bytes)
        then refused too_large
        else elim (decode_keys bytes) [ none ↦ refused undecodable | some ks ↦ keys ks ]
  ]

  pub data Verdict : Type 0 where
    accepted : List ℕ → Verdict
    rejected : KeyError → Verdict

  -- Behind the fetch: the new cache, if it is written, and the result.
  pub after_fetch : Signed → Fetched → Option (List Key) × Verdict
  unfolding verify_with_keys
  after_fetch signed (refused e) = (none, rejected e)
  after_fetch signed (keys ks) = (
    some ks,
    elim (verify_with_keys signed ks) [ some payload ↦ accepted payload | none ↦ rejected no_key ],
  )

  -- `VerifySignature` behind the parsing of the token.
  pub hit_or_fetch : List Key → Answer → Signed → Option (List Key) × Verdict
  unfolding verify_with_keys fetch after_fetch
  hit_or_fetch cached reply signed = elim (verify_with_keys signed cached) [
    | some payload ↦ (none, accepted payload)
    | none ↦ after_fetch signed (fetch reply)
  ]

  -- `VerifySignature` over the keys that its first section reads and what the endpoint would answer:
  -- the keys that its second section writes, if it comes to that, and the result.
  pub verify_signature : List Key → Answer → List ℕ → Option (List Key) × Verdict
  unfolding hit_or_fetch
  verify_signature cached reply raw = elim (parse_signed raw) [
    | none ↦ (none, rejected bad_token)
    | some signed ↦ hit_or_fetch cached reply signed
  ]
