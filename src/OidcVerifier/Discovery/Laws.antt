-- ===== src/OidcVerifier/Discovery/Laws.antt =====
-- oidcverifier/oidcverifier.go: what the metadata that `Discover` returns has passed.
use Prim.Native.String.{◌++◌ as append}
use go_toolbelt.Base.{
  ◌≡◌, ◌≢◌, refl, sym, subst, Bool, true, false, not, ◌&&◌, String, List, [], ◌∷◌, Option, none,
  some, ◌⊎◌, inl, inr, if◌then◌else◌, str_eq, contains, distinct, ◌==◌, arith, eq_of_test, eq_iff,
  Bool-cases, All,
}
use go_toolbelt.Base.Result.{Result, ok, err, ◌>>=◌, refuse_if, bind-eq-ok}
use go_toolbelt.OidcVerifier.Settings.{
  Url, ValueError, is_empty, no_values, validate_string_values, validate_issuer, is_valid_endpoint,
  in_context,
}
use go_toolbelt.OidcVerifier.Settings.Laws.{
  all_named, validate_string_values_iff, in_context-ok, valid_endpoint-url, IsEndpointUrl,
}
use go_toolbelt.OidcVerifier.Discovery.{
  ProviderMetadata, Document, DiscoverError, Response, supported_algorithms, supports_code_flow,
  filter_supported_algorithms, metadata_of, check_document, read_document, is_json, read_response,
  after_send, trim_slash, discover, bad_status, not_json, bad_issuer, nil_client,
}
use go_toolbelt.StrictJson.Decode.{TypedDecoder, Reader}
use go_toolbelt.StrictJson.Stream.{Decoder}

refuse_if-ok : {E : Type 0} (b : Bool) (e : E) (t : Unit {0}) → refuse_if b e ≡ ok t → b ≡ false
refuse_if-ok true e t h = absurd cc
refuse_if-ok false e t h = refl

-- A step of a chain whose value the rest does not read.
then_ok :
    {E A B : Type 0} (r : Result E A) (k : Result E B) {b : B}
    → (r >>= λ _. k) ≡ ok b
    → (a : A) × (r ≡ ok a) × (k ≡ ok b)
then_ok (ok a) k h = (a, refl, h)
then_ok (err e) k h = absurd cc

ok-inj : {A : Type 0} (a b : A) → ◌≡◌ {A = Result DiscoverError A} (ok a) (ok b) → b ≡ a
ok-inj a b e = cc

not-false : (b : Bool) → not b ≡ false → b ≡ true
not-false b h = ground arith

-- None of the values is empty, and none stands twice.
abbrev pub IsValueList : List String → Type 0
IsValueList vs = (all_named vs ≡ true) × (distinct vs ≡ true)

filter-supported :
    (vs : List String)
    → All (λ v. contains supported_algorithms v ≡ true) (filter_supported_algorithms vs)
unfolding filter_supported_algorithms
filter-supported [] = tt
filter-supported (v ∷ vs) = elim (Bool-cases (contains supported_algorithms v)) [
  | inl yes_ ↦ rw yes_ (yes_, filter-supported vs)
  | inr no_ ↦ rw no_ (filter-supported vs)
]

module _ (parse : String → Option Url) where
  -- What the checks on a document establish.
  pub record IsChecked (issuer : String) (d : Document) : Type 0 where
    pub issuer_is : d.issuer ≡ issuer
    pub authorization_is : is_valid_endpoint parse d.authorization_endpoint ≡ true
    pub token_is : (d.token_endpoint ≡ "") ⊎ (is_valid_endpoint parse d.token_endpoint ≡ true)
    pub jwks_is : is_valid_endpoint parse d.jwks_url ≡ true
    pub code_flow : supports_code_flow d.response_types ≡ true → d.token_endpoint ≢ ""
    pub response_types_given : no_values d.response_types ≡ false
    pub subject_types_given : no_values d.subject_types ≡ false
    pub response_types_are : IsValueList d.response_types
    pub subject_types_are : IsValueList d.subject_types
    pub methods_are : IsValueList d.code_challenge_methods
    pub algorithms_are : IsValueList d.signing_algorithms
    pub rs256 : contains d.signing_algorithms "RS256" ≡ true

  values-ok :
      (f : ValueError → DiscoverError) (vs s : List String)
      → in_context f (validate_string_values vs) ≡ ok s
      → IsValueList vs
  values-ok f vs s h =
      (validate_string_values_iff vs).0 (s, in_context-ok f (validate_string_values vs) s h)

  endpoint-ok :
      (e : DiscoverError) (raw : String) (t : Unit {0})
      → refuse_if (not (is_valid_endpoint parse raw)) e ≡ ok t
      → is_valid_endpoint parse raw ≡ true
  endpoint-ok e raw t h = not-false _ (refuse_if-ok _ e t h)

  token-ok :
      (e : DiscoverError) (raw : String) (t : Unit {0})
      → (if is_empty raw then ok tt else refuse_if (not (is_valid_endpoint parse raw)) e) ≡ ok t
      → (raw ≡ "") ⊎ (is_valid_endpoint parse raw ≡ true)
  token-ok e raw t h = ground (arith, eq_iff raw "")

  code-ok :
      (flow : Bool) (raw : String) → flow ≡ true → raw ≡ "" → (flow && is_empty raw) ≡ false → ⊥
  code-ok flow raw e q h = ground (arith, eq_iff raw "")

  check_document-IsChecked :
      (issuer : String) (d : Document) (m : ProviderMetadata)
      → check_document parse issuer d ≡ ok m
      → IsChecked issuer d × (m ≡ metadata_of d)
  unfolding check_document
  check_document-IsChecked issuer d m h =
      let (a₁, p₁, h₁) = then_ok _ _ h in
      let (a₂, p₂, h₂) = then_ok _ _ h₁ in
      let (a₃, p₃, h₃) = then_ok _ _ h₂ in
      let (a₄, p₄, h₄) = then_ok _ _ h₃ in
      let (a₅, p₅, h₅) = then_ok _ _ h₄ in
      let (a₆, p₆, h₆) = then_ok _ _ h₅ in
      let (a₇, p₇, h₇) = then_ok _ _ h₆ in
      let (a₈, p₈, h₈) = then_ok _ _ h₇ in
      let (a₉, p₉, h₉) = then_ok _ _ h₈ in
      let (b₁, q₁, k₁) = then_ok _ _ h₉ in
      let (b₂, q₂, k₂) = then_ok _ _ k₁ in
      let (b₃, q₃, k₃) = then_ok _ _ k₂ in
      let (b₄, q₄, k₄) = then_ok _ _ k₃ in
      (
        record {
          issuer_is = (eq_iff d.issuer issuer).0 (not-false _ (refuse_if-ok _ _ _ p₁));
          authorization_is = endpoint-ok _ d.authorization_endpoint _ p₂;
          token_is = token-ok _ d.token_endpoint _ p₃;
          jwks_is = endpoint-ok _ d.jwks_url _ q₁;
          code_flow = λ e q. code-ok _ d.token_endpoint e q (refuse_if-ok _ _ _ p₅);
          response_types_given = refuse_if-ok _ _ _ p₄;
          subject_types_given = refuse_if-ok _ _ _ p₆;
          response_types_are = values-ok _ d.response_types _ p₇;
          subject_types_are = values-ok _ d.subject_types _ p₈;
          methods_are = values-ok _ d.code_challenge_methods _ p₉;
          algorithms_are = values-ok _ d.signing_algorithms _ q₂;
          rs256 = not-false _ (refuse_if-ok _ _ _ q₃);
        },
        ok-inj _ m k₄,
      )

contains-keep :
    (b : Bool) (x v : String) (r : List String)
    → (str_eq x v ≡ true → b ≡ true)
    → (str_eq x v ≡ false → contains r v ≡ true)
    → contains (if b then x ∷ r else r) v ≡ true
unfolding contains
contains-keep b x v r f g = elim (Bool-cases (str_eq x v)) [
  | inl same ↦ rw (f same) (rw same)
  | inr other ↦ elim (Bool-cases b) [
    | inl kept ↦ rw kept (rw other (g other))
    | inr dropped ↦ rw dropped (g other)
  ]
]

contains-tail :
    (x v : String) (vs : List String)
    → contains (x ∷ vs) v ≡ true
    → str_eq x v ≡ false
    → contains vs v ≡ true
unfolding contains
contains-tail x v vs h e = rw e at h

-- A supported algorithm of the provider's is kept.
contains-filter :
    (v : String) (vs : List String)
    → contains vs v ≡ true
    → contains supported_algorithms v ≡ true
    → contains (filter_supported_algorithms vs) v ≡ true
unfolding filter_supported_algorithms
contains-filter v [] h k = h
contains-filter v (x ∷ vs) h k =
    contains-keep (contains supported_algorithms x) x v (filter_supported_algorithms vs)
      (λ e. subst (λ y. contains supported_algorithms y ≡ true) (sym ((eq_iff x v).0 e)) k)
      (λ e. contains-filter v vs (contains-tail x v vs h e) k)

rs256-supported : contains supported_algorithms "RS256" ≡ true
unfolding contains
rs256-supported = refl

-- Metadata that a client may use: secure endpoints, a token endpoint where the code flow needs one,
-- and algorithms that the verifier supports, RS256 among them.
pub record IsUsable (parse : String → Option Url) (issuer : String) (m : ProviderMetadata)
    : Type 0 where
  pub issuer_is : m.issuer ≡ issuer
  pub authorization_is : (u : Url) × (parse m.authorization_endpoint ≡ some u) × IsEndpointUrl u
  pub jwks_is : (u : Url) × (parse m.jwks_url ≡ some u) × IsEndpointUrl u
  pub token_is :
      (m.token_endpoint ≡ "") ⊎ ((u : Url) × (parse m.token_endpoint ≡ some u) × IsEndpointUrl u)
  pub code_flow : supports_code_flow m.response_types ≡ true → m.token_endpoint ≢ ""
  pub response_types_given : no_values m.response_types ≡ false
  pub response_types_are : IsValueList m.response_types
  pub methods_are : IsValueList m.code_challenge_methods
  pub supported : All (λ v. contains supported_algorithms v ≡ true) m.signing_algorithms
  pub rs256 : contains m.signing_algorithms "RS256" ≡ true

IsChecked-IsUsable :
    (parse : String → Option Url) (issuer : String) (d : Document)
    → IsChecked parse issuer d
    → IsUsable parse issuer (metadata_of d)
unfolding metadata_of
IsChecked-IsUsable parse issuer d c = record {
  issuer_is = c.issuer_is;
  authorization_is = valid_endpoint-url parse d.authorization_endpoint c.authorization_is;
  jwks_is = valid_endpoint-url parse d.jwks_url c.jwks_is;
  token_is = elim c.token_is [
    | inl e ↦ inl e
    | inr e ↦ inr (valid_endpoint-url parse d.token_endpoint e)
  ];
  code_flow = c.code_flow;
  response_types_given = c.response_types_given;
  response_types_are = c.response_types_are;
  methods_are = c.methods_are;
  supported = filter-supported d.signing_algorithms;
  rs256 = contains-filter "RS256" d.signing_algorithms c.rs256 rs256-supported;
}

module _ (parse : String → Option Url) (json : Decoder) (typed : TypedDecoder) (reader : Reader)
    (send : String → Option (Option (Response reader.State))) (blank : typed.Target)
    (view : typed.Target → Document) where
  read_response-IsUsable :
      (issuer : String) (r : Response reader.State) (m : ProviderMetadata)
      → read_response parse json typed reader send blank view issuer r ≡ ok m
      → (r.status ≡ 200) × IsUsable parse issuer m
  unfolding read_response
  read_response-IsUsable issuer r m h =
      let (a, p, h₁) = then_ok (refuse_if (not (r.status == 200)) (bad_status r.status)) _ h in
      let (b, q, h₂) = then_ok (refuse_if (not (is_json r.media_type)) not_json) _ h₁ in
      let (d, e, h₃) =
        bind-eq-ok (read_document parse json typed reader send blank view r.body)
          (check_document parse issuer) h₂ in
      let (c, same) = check_document-IsChecked parse issuer d m h₃ in
      let z = not-false _ (refuse_if-ok _ _ _ p) in
      (
        eq_of_test r.status 200 z,
        subst (IsUsable parse issuer) (sym same) (IsChecked-IsUsable parse issuer d c),
      )

  after_send-IsUsable :
      (issuer : String) (o : Option (Option (Response reader.State))) (m : ProviderMetadata)
      → after_send parse json typed reader send blank view issuer o ≡ ok m
      → ((r : Response reader.State) × (o ≡ some (some r)) × (r.status ≡ 200))
        × IsUsable parse issuer m
  unfolding after_send
  after_send-IsUsable issuer none m h = absurd cc
  after_send-IsUsable issuer (some none) m h = absurd cc
  after_send-IsUsable issuer (some (some r)) m h =
      let (status, usable) = read_response-IsUsable issuer r m h in ((r, refl, status), usable)

  -- When `Discover` returns metadata, the issuer has passed `validateIssuer`, there was a client, the
  -- response had status 200, and the metadata are usable: they name that issuer; the authorization
  -- and JWKS endpoints, and the token endpoint if there is one, are absolute https URLs with no user
  -- and no fragment; the code flow comes with a token endpoint; there is a response type, no response
  -- type and no challenge method is empty or stands twice; and each signing algorithm is supported,
  -- RS256 being one.
  pub discover-IsUsable :
      (issuer : String) (client : Bool) (m : ProviderMetadata)
      → discover parse json typed reader send blank view issuer client ≡ ok m
      → (validate_issuer parse issuer ≡ ok tt)
        × (client ≡ true)
        × ((url : String) × (r : Response reader.State) × (send url ≡ some (some r))
            × (r.status ≡ 200))
        × IsUsable parse issuer m
  unfolding discover
  discover-IsUsable issuer client m h =
      let (a, p, h₁) = then_ok (in_context bad_issuer (validate_issuer parse issuer)) _ h in
      let (b, q, h₂) = then_ok (refuse_if (not client) nil_client) _ h₁ in
      let url = append (trim_slash issuer) "/.well-known/openid-configuration" in
      let ((r, sent, status), usable) = after_send-IsUsable issuer (send url) m h₂ in
      (
        in_context-ok bad_issuer (validate_issuer parse issuer) a p,
        not-false _ (refuse_if-ok _ _ _ q),
        (url, r, sent, status),
        usable,
      )
