-- ===== src/Logging.antt =====
-- logging/logging.go: the configuration of a handler; RequestId has the request id and
-- `ContextHandler`. The terminal, and the formatting of a time and of a path are arguments. A writer
-- is known by a number; 0 is `os.Stdout`.
pub mod RequestId
mod Tests
use go_toolbelt.Base.{
  ℕ, Bool, false, not, ◌||◌, ◌==◌, String, List, Option, none, some, str_eq, if◌then◌else◌,
}
use go_toolbelt.Base.Int.{ℤ, pos, negsuc, is_nonpositive}
use go_toolbelt.Base.Result.{Result, ok, err}

abbrev level_warn : ℤ
level_warn = pos 4

abbrev level_info : ℤ
level_info = pos 0

-- -4 and -8
abbrev level_debug : ℤ
level_debug = negsuc 3

abbrev level_trace : ℤ
level_trace = negsuc 7

abbrev is_pos : ℕ → ℤ → Bool
is_pos n (pos m) = m == n
is_pos n (negsuc m) = false

pub level_from_verbosity : ℤ → ℤ
level_from_verbosity v =
    if is_nonpositive v
    then level_warn
    else if is_pos 1 v
    then level_info
    else if is_pos 2 v
    then level_debug
    else level_trace

pub data Value : Type 0 where
  time : ℕ → Value
  -- a `*slog.Source`, nil or with its file
  source : Option String → Value
  text : String → Value
  other : ℕ → Value

pub record Attr : Type 0 where
  pub key : String
  pub value : Value

pub record Config : Type 0 where
  pub verbosity : ℤ
  pub output : Option ℕ
  pub format : String
  pub add_source : Bool
  pub replace_attr : Option (List String → Attr → Attr)

-- A time in UTC by RFC 3339, and `filepath.Base`.
module _ (utc : ℕ → String) (base : String → String) where
  pub replace_time : Attr → Attr
  replace_time a =
      if str_eq a.key "time"
      then elim a.value as (λ _. Attr) [ time t ↦ record a { value = text (utc t) } | _ ↦ a ]
      else a

  abbrev pub base_of : Value → Value
  base_of (source (some file)) = source (some (base file))
  base_of v = v

  pub replace_source : Attr → Attr
  replace_source a = if str_eq a.key "source" then record a { value = base_of a.value } else a

  -- `replaceAttr` of `NewHandler`.
  pub replace_attr : Config → List String → Attr → Attr
  unfolding replace_time replace_source
  replace_attr cfg groups a =
      let rewritten = replace_source (replace_time a) in
      elim cfg.replace_attr [ none ↦ rewritten | some f ↦ f groups rewritten ]

pub record HandlerOptions : Type 0 where
  pub level : ℤ
  pub add_source : Bool
  pub replace : List String → Attr → Attr

-- A handler that the code makes, with its writer; tint is also told whether to do without colours.
pub data Handler : Type 0 where
  json_handler text_handler : ℕ → HandlerOptions → Handler
  tint_handler : ℕ → HandlerOptions → Bool → Handler

pub data LogError : Type 0 where
  unsupported_format : String → LogError

module _ (utc : ℕ → String) (base : String → String) (is_terminal : ℕ → Bool) where
  abbrev pub options_of : Config → HandlerOptions
  options_of cfg = record {
    level = level_from_verbosity cfg.verbosity;
    add_source = cfg.add_source;
    replace = replace_attr utc base cfg;
  }

  pub new_tint_handler : ℕ → Config → Handler
  new_tint_handler out cfg = tint_handler out (options_of cfg) (not (is_terminal out))

  pub auto_handler : ℕ → Config → Handler
  unfolding new_tint_handler
  auto_handler out cfg =
      if is_terminal out then new_tint_handler out cfg else json_handler out (options_of cfg)

  abbrev pub output_of : Option ℕ → ℕ
  output_of none = 0
  output_of (some out) = out

  -- The handler that the `ContextHandler` wraps.
  pub new_handler : Config → Result LogError Handler
  unfolding auto_handler
  new_handler cfg =
      let out = output_of cfg.output in
      if str_eq cfg.format "json"
      then ok (json_handler out (options_of cfg))
      else if str_eq cfg.format "text"
      then ok (text_handler out (options_of cfg))
      else if str_eq cfg.format "tint"
      then ok (new_tint_handler out cfg)
      else if str_eq cfg.format "auto" || str_eq cfg.format ""
      then ok (auto_handler out cfg)
      else err (unsupported_format cfg.format)

  -- The handler of the new logger.
  pub new_logger : Config → Result LogError Handler
  new_logger cfg = new_handler cfg

  -- `Setup`, over the default logger of log/slog, which it leaves alone where it fails.
  pub setup : Config → Handler → Handler × Result LogError Handler
  unfolding new_logger
  setup cfg default = elim (new_logger cfg) as (λ _. Handler × Result LogError Handler) [
    | ok h ↦ (h, ok h)
    | err e ↦ (default, err e)
  ]
