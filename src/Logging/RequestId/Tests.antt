-- ===== src/Logging/RequestId/Tests.antt =====
-- logging/logging.go: a record that is handled with a request id.
use go_toolbelt.Base.{ℕ, suc, ◌+◌, refl, true, String, Option, some, length}
use go_toolbelt.Logging.RequestId.{Contexts, Handlers, ContextHandler}

-- A context is the id that it holds.
abbrev contexts : Contexts
contexts = record {
  Context = Option String;
  with_value = λ id c. some id;
  value = λ c. c;
  value-with_value = λ id c. refl;
}

-- A handler is how many groups it has; it fails by that number and the number of attributes.
abbrev handlers : Handlers
handlers = record {
  Inner = ℕ;
  enabled = λ h level. true;
  handle = λ h attrs. some (h + length attrs);
  with_attrs = λ attrs h. h;
  with_group = λ name h. suc h;
}

abbrev wrapped : ContextHandler contexts handlers
wrapped = record { next = 0 }
