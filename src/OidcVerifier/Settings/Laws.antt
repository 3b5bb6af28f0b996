-- ===== src/OidcVerifier/Settings/Laws.antt =====
-- oidcverifier/oidcverifier.go: which configurations `New` takes, and what the verifier then holds.
use go_toolbelt.Base.{
  ℕ, ◌≡◌, ◌≢◌, ◌↔◌, refl, sym, ap, subst, ◌∙◌, Bool, true, false, not, ◌&&◌, ◌||◌, String, List, [],
  ◌∷◌, Option, some, if◌then◌else◌, contains, distinct, disjoint, disjoint-cons, disjoint-nil,
  arith, Bool-cases, Option-cases, inl, inr, eq_iff,
}
use go_toolbelt.Base.Int.{ℤ, pos, negsuc, is_negative, is_zero}
use go_toolbelt.Base.Result.{Result, ok, err, refuse_if, bind-eq-ok}
use go_toolbelt.OidcVerifier.Settings.{
  Url, is_empty, no_values, add_values, validate_string_values, value_set, Config, OptionFn,
  bad_issuer, bad_audience, bad_authorized_party, negative_token_size, apply_options,
  default_max_token_bytes, Settings, in_context, check_issuer_url, validate_issuer,
  is_valid_endpoint, is_endpoint_url, new,
}

abbrev is_ok : {E A : Type 0} → Result E A → Bool
is_ok (ok a) = true
is_ok (err e) = false

-- No value is the empty text.
unfoldable pub all_named : List String → Bool
all_named [] = true
all_named (v ∷ vs) = not (is_empty v) && all_named vs

add_values-is_ok :
    (set vs : List String)
    → is_ok (add_values set vs) ≡ (all_named vs && (disjoint set vs && distinct vs))
unfolding add_values all_named disjoint distinct
add_values-is_ok set [] = refl
add_values-is_ok set (v ∷ vs) =
    ground (arith, add_values-is_ok (v ∷ set) vs, disjoint-cons v set vs)

add_values-contains :
    (set vs : List String) (s : List String) (k : String)
    → add_values set vs ≡ ok s
    → contains s k ≡ (contains vs k || contains set k)
unfolding add_values contains
add_values-contains set [] s k e = ground arith
add_values-contains set (v ∷ vs) s k e = ground (arith, add_values-contains (v ∷ set) vs s k)

is_ok-value : {E A : Type 0} (r : Result E A) → is_ok r ≡ true → (a : A) × (r ≡ ok a)
is_ok-value (ok a) h = (a, refl)
is_ok-value (err e) h = absurd cc

-- `validateStringValues` accepts a list exactly if no value is empty and none stands twice.
pub validate_string_values_iff :
    (vs : List String)
    → ((s : List String) × (validate_string_values vs ≡ ok s))
      ↔ ((all_named vs ≡ true) × (distinct vs ≡ true))
unfolding validate_string_values
validate_string_values_iff vs = (
  (λ (s, e). let h = ap is_ok e in ground (arith, add_values-is_ok [] vs, disjoint-nil vs)),
  λ (named, once).
      is_ok-value (add_values [] vs) (ground (arith, add_values-is_ok [] vs, disjoint-nil vs)),
)

-- What `valueSet` needs of a list of values, `required` or not.
abbrev pub IsValueSet : Bool → List String → Type 0
IsValueSet required vs =
    ((required && no_values vs) ≡ false) × (all_named vs ≡ true) × (distinct vs ≡ true)

or_nil : (b : Bool) (k : String) → (b || contains [] k) ≡ b
unfolding contains
or_nil b k = ground arith

value_set-ok :
    (required : Bool) (vs s : List String)
    → value_set required vs ≡ ok s
    → IsValueSet required vs × ((k : String) → contains s k ≡ contains vs k)
unfolding value_set
value_set-ok required vs s e = elim (Bool-cases (required && no_values vs)) [
  | inl none_given ↦ absurd (let g = rw none_given at e in cc)
  | inr given ↦
      let g = rw given at e in
      let h = ap is_ok g in
      (
        (
          given,
          ground (arith, add_values-is_ok [] vs, disjoint-nil vs),
          ground (arith, add_values-is_ok [] vs, disjoint-nil vs),
        ),
        λ k. add_values-contains [] vs s k g ∙ or_nil (contains vs k) k,
      )
]

no_values-add_values :
    (set vs s : List String)
    → add_values set vs ≡ ok s
    → no_values s ≡ (no_values vs && no_values set)
unfolding add_values
no_values-add_values set [] s e = ground arith
no_values-add_values set (v ∷ vs) s e = ground (arith, no_values-add_values (v ∷ set) vs s)

no_values-value_set : (vs s : List String) → value_set false vs ≡ ok s → no_values s ≡ no_values vs
unfolding value_set
no_values-value_set vs s e = ground (arith, no_values-add_values [] vs s e)

default-ne-zero : (v : ℤ) → is_zero (if is_zero v then default_max_token_bytes else v) ≡ false
default-ne-zero (pos n) = ground arith
default-ne-zero (negsuc n) = refl

pub in_context-ok :
    {E F A : Type 0} (f : E → F) (r : Result E A) (a : A) → in_context f r ≡ ok a → r ≡ ok a
in_context-ok f (ok x) a e = cc
in_context-ok f (err x) a e = absurd cc

-- An absolute https URL with no user information, query or fragment.
abbrev pub IsIssuerUrl : Url → Type 0
IsIssuerUrl u =
    (u.scheme ≡ "https")
    × (u.host ≢ "")
    × (u.has_user ≡ false)
    × (u.raw_query ≡ "")
    × (u.fragment ≡ "")

module _ (issuer : String) (u : Url) where
  check_issuer_url-ok : check_issuer_url issuer u ≡ ok tt → (issuer ≢ "") × IsIssuerUrl u
  unfolding check_issuer_url
  check_issuer_url-ok e = ground (
    arith,
    eq_iff issuer "",
    eq_iff u.scheme "https",
    eq_iff u.host "",
    eq_iff u.raw_query "",
    eq_iff u.fragment "",
  )

  check_issuer_url-accepts : issuer ≢ "" → IsIssuerUrl u → check_issuer_url issuer u ≡ ok tt
  unfolding check_issuer_url
  check_issuer_url-accepts named h = ground (
    arith,
    eq_iff issuer "",
    eq_iff u.scheme "https",
    eq_iff u.host "",
    eq_iff u.raw_query "",
    eq_iff u.fragment "",
  )

-- The values that `New` takes, and the limit and the parties that it fills in.
abbrev pub IsMadeFrom : Config → Settings → Type 0
IsMadeFrom cfg s =
    IsValueSet true cfg.audiences
    × IsValueSet false cfg.authorized_parties
    × (is_negative cfg.max_token_bytes ≡ false)
    × (is_zero s.cfg.max_token_bytes ≡ false)
    × ((k : String) → contains s.audiences k ≡ contains cfg.audiences k)
    × ((k : String)
        → contains s.authorized_parties k
          ≡ contains
              (if no_values cfg.authorized_parties then cfg.audiences else cfg.authorized_parties)
              k)

-- An absolute https URL with no user information and no fragment.
abbrev pub IsEndpointUrl : Url → Type 0
IsEndpointUrl u = (u.scheme ≡ "https") × (u.host ≢ "") × (u.has_user ≡ false) × (u.fragment ≡ "")

is_endpoint_url-ok : (u : Url) → is_endpoint_url u ≡ true → IsEndpointUrl u
unfolding is_endpoint_url
is_endpoint_url-ok u h =
    ground (arith, eq_iff u.scheme "https", eq_iff u.host "", eq_iff u.fragment "")

module _ (parse : String → Option Url) where
  pub valid_endpoint-url :
      (raw : String)
      → is_valid_endpoint parse raw ≡ true
      → (u : Url) × (parse raw ≡ some u) × IsEndpointUrl u
  unfolding is_valid_endpoint
  valid_endpoint-url raw e = elim (Option-cases (parse raw)) [
    | inl p ↦ absurd (let g = rw (p, is_valid_endpoint) at e in cc)
    | inr (u, p) ↦ (u, p, is_endpoint_url-ok u (rw (p, is_valid_endpoint) at e))
  ]

  -- `validateIssuer` accepts exactly the texts that parse as an absolute https URL with no user
  -- information, query or fragment, the empty text aside.
  validate_issuer_iff :
      (issuer : String)
      → (validate_issuer parse issuer ≡ ok tt)
        ↔ ((issuer ≢ "") × (u : Url) × (parse issuer ≡ some u) × IsIssuerUrl u)
  unfolding validate_issuer
  validate_issuer_iff issuer = (
    (λ e. elim (Option-cases (parse issuer)) [
      | inl p ↦ absurd (let g = rw (p, validate_issuer) at e in cc)
      | inr (u, p) ↦
          let g = rw (p, validate_issuer) at e in
          let h = check_issuer_url-ok issuer u g in (h.0, u, p, h.1)
    ]),
    λ (named, u, p, h). rw (p, validate_issuer) (check_issuer_url-accepts issuer u named h),
  )

  -- The settings that `New` makes of what its checks return.
  abbrev made : Config → List String → List String → ℕ → Settings
  made cfg audiences parties client = record {
    cfg = record cfg {
      name = if is_empty cfg.name then "oidc-verifier" else cfg.name;
      max_token_bytes =
          if is_zero cfg.max_token_bytes then default_max_token_bytes else cfg.max_token_bytes;
    };
    audiences = audiences;
    authorized_parties = if no_values parties then audiences else parties;
    http_client = client;
  }

  made-IsMadeFrom :
      (cfg : Config) (audiences parties : List String) (client : ℕ)
      → value_set true cfg.audiences ≡ ok audiences
      → value_set false cfg.authorized_parties ≡ ok parties
      → is_negative cfg.max_token_bytes ≡ false
      → IsMadeFrom cfg (made cfg audiences parties client)
  made-IsMadeFrom cfg audiences parties client a b n =
      let va = value_set-ok true cfg.audiences audiences a in
      let vb = value_set-ok false cfg.authorized_parties parties b in
      (
        va.0,
        vb.0,
        n,
        default-ne-zero cfg.max_token_bytes,
        va.1,
        λ k. ground (arith, va.1 k, vb.1 k, no_values-value_set cfg.authorized_parties parties b),
      )

  -- When `New` succeeds, the issuer has passed `validateIssuer` and is kept; there is an audience,
  -- neither an audience nor an authorized party is empty or stands twice, and the token limit was not
  -- negative and is not 0 now; the verifier holds exactly the given audiences, and exactly the given
  -- authorized parties, or the audiences if none was given.
  new_checked :
      (client : ℕ) (cfg : Config) (fns : List (Option OptionFn)) (s : Settings)
      → new parse client cfg fns ≡ ok s
      → (validate_issuer parse cfg.issuer ≡ ok tt) × (s.cfg.issuer ≡ cfg.issuer) × IsMadeFrom cfg s
  unfolding new
  new_checked client cfg fns s e =
      let (u, p₁, e₁) = bind-eq-ok (in_context bad_issuer (validate_issuer parse cfg.issuer)) _ e in
      let (auds, p₂, e₂) =
        bind-eq-ok (in_context bad_audience (value_set true cfg.audiences)) _ e₁ in
      let (ps, p₃, e₃) =
        bind-eq-ok (in_context bad_authorized_party (value_set false cfg.authorized_parties)) _
          e₂ in
      let (t, p₄, e₄) =
        bind-eq-ok (refuse_if (is_negative cfg.max_token_bytes) negative_token_size) _ e₃ in
      let (c, p₅, e₅) = bind-eq-ok (apply_options client fns) _ e₄ in
      let same : made cfg auds ps c ≡ s = cc in
      (
        in_context-ok bad_issuer (validate_issuer parse cfg.issuer) u p₁,
        ap (λ x. x.cfg.issuer) (sym same),
        subst (IsMadeFrom cfg) same (
            made-IsMadeFrom cfg auds ps c
              (in_context-ok bad_audience (value_set true cfg.audiences) auds p₂)
              (in_context-ok bad_authorized_party (value_set false cfg.authorized_parties) ps p₃)
              (ground arith)),
      )
