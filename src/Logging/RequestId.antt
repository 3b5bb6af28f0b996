-- ===== src/Logging/RequestId.antt =====
-- logging/logging.go: the request id of a context, and `ContextHandler`. The contexts and the handlers
-- of log/slog are parameters.
mod Tests
use go_toolbelt.Base.{
  ℕ, ◌≡◌, refl, ap, ◌∙◌, Bool, true, false, not, String, List, [], ◌∷◌, ◌++◌, Option, none, some,
  str_eq,
}
use go_toolbelt.Base.Int.{ℤ}
use go_toolbelt.Logging.{Attr, text}

-- Contexts, with `context.WithValue` and `Value` for the key of a request id.
pub record Contexts : Type 1 where
  pub Context : Type 0
  pub with_value : String → Context → Context
  pub value : Context → Option String
  pub value-with_value : (id : String) (c : Context) → value (with_value id c) ≡ some id

-- A `slog.Handler`.
pub record Handlers : Type 1 where
  pub Inner : Type 0
  pub enabled : Inner → ℤ → Bool
  pub handle : Inner → List Attr → Option ℕ
  pub with_attrs : List Attr → Inner → Inner
  pub with_group : String → Inner → Inner

module _ (cs : Contexts) (hs : Handlers) where
  open cs use {Context, with_value, value, value-with_value}
  open hs use {Inner, enabled, handle, with_attrs, with_group}

  pub with_request_id : String → Context → Context
  with_request_id id c = with_value id c

  abbrev found_id : Option String → String × Bool
  found_id none = ("", false)
  found_id (some id) = (id, not (str_eq id ""))

  pub request_id_from_context : Context → String × Bool
  request_id_from_context c = found_id (value c)

  pub record ContextHandler : Type 0 where
    pub next : Inner

  pub is_enabled : ContextHandler → ℤ → Bool
  is_enabled h level = enabled h.next level

  -- `Record.Add` of the request id, at the end.
  abbrev pub add_id : String × Bool → List Attr → List Attr
  add_id (id, true) attrs = attrs ++ (record { key = "request_id"; value = text id } ∷ [])
  add_id (id, false) attrs = attrs

  pub handle_record : ContextHandler → Context → List Attr → Option ℕ
  unfolding request_id_from_context
  handle_record h c attrs = handle h.next (add_id (request_id_from_context c) attrs)

  -- `WithAttrs` and `WithGroup`.
  pub data Derivation : Type 0 where
    attrs : List Attr → Derivation
    group : String → Derivation

  abbrev pub derive_inner : List Derivation → Inner → Inner
  derive_inner [] h = h
  derive_inner (attrs list ∷ ds) h = derive_inner ds (with_attrs list h)
  derive_inner (group name ∷ ds) h = derive_inner ds (with_group name h)

  pub derive : List Derivation → ContextHandler → ContextHandler
  derive [] h = h
  derive (attrs list ∷ ds) h = derive ds (record { next = with_attrs list h.next })
  derive (group name ∷ ds) h = derive ds (record { next = with_group name h.next })

  derive_next :
      (ds : List Derivation) (h : ContextHandler) → (derive ds h).next ≡ derive_inner ds h.next
  unfolding derive
  derive_next [] h = refl
  derive_next (attrs list ∷ ds) h = derive_next ds (record { next = with_attrs list h.next })
  derive_next (group name ∷ ds) h = derive_next ds (record { next = with_group name h.next })

  -- A request id that is put into a context comes back from it, with whether it is not empty; and every
  -- handler that is derived from a `ContextHandler` hands the inner one, derived in the same way, the
  -- record with exactly this id added if it is not empty, and else the record as it is.
  request_id_round_trip :
      (ds : List Derivation) (h : ContextHandler) (id : String) (c : Context) (r : List Attr)
      → (request_id_from_context (with_request_id id c) ≡ (id, not (str_eq id "")))
        × (handle_record (derive ds h) (with_request_id id c) r
            ≡ handle (derive_inner ds h.next) (add_id (id, not (str_eq id "")) r))
  unfolding handle_record request_id_from_context with_request_id
  request_id_round_trip ds h id c r =
      let found = ap found_id (value-with_value id c) in
      (
        found,
        ap (λ p. handle (derive ds h).next (add_id p r)) found
            ∙ ap (λ n. handle n (add_id (id, not (str_eq id "")) r)) (derive_next ds h),
      )
