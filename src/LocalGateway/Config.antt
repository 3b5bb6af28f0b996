-- ===== src/LocalGateway/Config.antt =====
-- localgateway/gateway.go: `Config`, its defaults, the options, and `New`. Durations are counted in
-- nanoseconds, and a logger is known by a number.
use go_toolbelt.Base.{
  ℕ, ◌*◌, ◌≤◌, ◌<◌, ◌≡◌, refl, sym, subst, false, ◌||◌, String, List, [], ◌∷◌, Option, none, some,
  if◌then◌else◌, str_eq, arith,
}
use go_toolbelt.Base.Int.{ℤ, pos, negsuc, is_nonpositive, is_zero, exceeds}

abbrev pub second : ℕ
second = 1_000_000_000

abbrev pub default_pipe_buffer_bytes : ℕ
default_pipe_buffer_bytes = 65_536

abbrev pub max_pipe_buffer_bytes : ℕ
max_pipe_buffer_bytes = 16_777_216

abbrev pub default_max_connections : ℕ
default_max_connections = 64

abbrev pub max_connections_limit : ℕ
max_connections_limit = 4096

pub record Config : Type 0 where
  pub endpoint : String
  pub name : String
  pub read_timeout : ℤ
  pub read_header_timeout : ℤ
  pub write_timeout : ℤ
  pub idle_timeout : ℤ
  pub max_header_bytes : ℤ
  pub pipe_input_buffer_bytes : ℤ
  pub pipe_output_buffer_bytes : ℤ

abbrev pub default_config : String → Config
default_config endpoint = record {
  endpoint = endpoint;
  name = "local HTTP gateway";
  read_timeout = pos (10 * second);
  read_header_timeout = pos (2 * second);
  write_timeout = pos 0;
  idle_timeout = pos (30 * second);
  max_header_bytes = pos 16_384;
  pipe_input_buffer_bytes = pos default_pipe_buffer_bytes;
  pipe_output_buffer_bytes = pos default_pipe_buffer_bytes;
}

pub normalize_max_connections : ℤ → ℤ
normalize_max_connections max =
    if is_nonpositive max || exceeds max max_connections_limit
    then pos default_max_connections
    else max

pub pipe_buffer_size : ℤ → ℤ
pipe_buffer_size value =
    if is_nonpositive value || exceeds value max_pipe_buffer_bytes
    then pos default_pipe_buffer_bytes
    else value

-- An application's handler, by a number, or `http.NotFoundHandler()`.
pub data Handler : Type 0 where
  not_found : Handler
  application : ℕ → Handler

pub data ServerOption : Type 0 where
  with_logger : Option ℕ → ServerOption
  with_max_connections : ℤ → ServerOption

pub record Settings : Type 0 where
  pub cfg : Config
  pub handler : Handler
  pub logger : ℕ
  pub max_connections : ℤ

pub apply_option : ServerOption → Settings → Settings
unfolding normalize_max_connections
apply_option (with_logger none) s = s
apply_option (with_logger (some logger)) s = record s { logger = logger }
apply_option (with_max_connections max) s = record s {
  max_connections = normalize_max_connections max;
}

pub apply_all : List ServerOption → Settings → Settings
unfolding apply_option
apply_all [] s = s
apply_all (o ∷ os) s = apply_all os (apply_option o s)

abbrev or_default : ℤ → ℤ → ℤ
or_default value default = if is_zero value then default else value

pub normalize_config : Config → Config
unfolding pipe_buffer_size
normalize_config cfg =
    let defaults = default_config cfg.endpoint in
    record cfg {
      name = if str_eq cfg.name "" then defaults.name else cfg.name;
      read_timeout = or_default cfg.read_timeout defaults.read_timeout;
      read_header_timeout = or_default cfg.read_header_timeout defaults.read_header_timeout;
      idle_timeout = or_default cfg.idle_timeout defaults.idle_timeout;
      max_header_bytes =
          if is_nonpositive cfg.max_header_bytes
          then defaults.max_header_bytes
          else cfg.max_header_bytes;
      pipe_input_buffer_bytes = pipe_buffer_size cfg.pipe_input_buffer_bytes;
      pipe_output_buffer_bytes = pipe_buffer_size cfg.pipe_output_buffer_bytes;
    }

-- The settings of a new server; `default_logger` is `slog.Default()`.
pub new : ℕ → Config → Option ℕ → List ServerOption → Settings
unfolding normalize_config apply_all
new default_logger cfg handler opts = apply_all opts (record {
  cfg = normalize_config cfg;
  handler = elim handler [ none ↦ not_found | some h ↦ application h ];
  logger = default_logger;
  max_connections = pos default_max_connections;
})

-- From 1 to a limit.
abbrev pub Within : ℕ → ℤ → Type 0
Within n (pos m) = (1 ≤ m) × (m ≤ n)
Within n (negsuc m) = ⊥

pub normalize-Within : (max : ℤ) → Within max_connections_limit (normalize_max_connections max)
unfolding normalize_max_connections
normalize-Within (pos n) = ground arith
normalize-Within (negsuc n) = ground arith

pipe_buffer_size-Within : (v : ℤ) → Within max_pipe_buffer_bytes (pipe_buffer_size v)
unfolding pipe_buffer_size
pipe_buffer_size-Within (pos n) = ground arith
pipe_buffer_size-Within (negsuc n) = ground arith

apply_all-Within :
    (opts : List ServerOption) (s : Settings)
    → Within max_connections_limit s.max_connections
    → Within max_connections_limit (apply_all opts s).max_connections
unfolding apply_all
apply_all-Within [] s h = h
apply_all-Within (with_logger none ∷ os) s h = apply_all-Within os s h
apply_all-Within (with_logger (some l) ∷ os) s h = apply_all-Within os (record s { logger = l }) h
apply_all-Within (with_max_connections max ∷ os) s h =
    apply_all-Within os (record s { max_connections = normalize_max_connections max })
      (normalize-Within max)

apply_all-cfg : (opts : List ServerOption) (s : Settings) → (apply_all opts s).cfg ≡ s.cfg
unfolding apply_all
apply_all-cfg [] s = refl
apply_all-cfg (with_logger none ∷ os) s = apply_all-cfg os s
apply_all-cfg (with_logger (some l) ∷ os) s = apply_all-cfg os (record s { logger = l })
apply_all-cfg (with_max_connections max ∷ os) s =
    apply_all-cfg os (record s { max_connections = normalize_max_connections max })

abbrev pub IsNormal : Config → Type 0
IsNormal cfg =
    Within max_pipe_buffer_bytes cfg.pipe_input_buffer_bytes
    × Within max_pipe_buffer_bytes cfg.pipe_output_buffer_bytes
    × (is_nonpositive cfg.max_header_bytes ≡ false)
    × (is_zero cfg.read_timeout ≡ false)
    × (is_zero cfg.read_header_timeout ≡ false)
    × (is_zero cfg.idle_timeout ≡ false)

or_default-ne-zero : (value : ℤ) (n : ℕ) → 0 < n → is_zero (or_default value (pos n)) ≡ false
or_default-ne-zero (pos m) n h = ground arith
or_default-ne-zero (negsuc m) n h = refl

header-positive :
    (value : ℤ) → is_nonpositive (if is_nonpositive value then pos 16_384 else value) ≡ false
header-positive (pos m) = ground arith
header-positive (negsuc m) = refl

normalize_config-IsNormal : (cfg : Config) → IsNormal (normalize_config cfg)
unfolding normalize_config
normalize_config-IsNormal cfg = (
  pipe_buffer_size-Within cfg.pipe_input_buffer_bytes,
  pipe_buffer_size-Within cfg.pipe_output_buffer_bytes,
  header-positive cfg.max_header_bytes,
  or_default-ne-zero cfg.read_timeout (10 * second) (omega arith),
  or_default-ne-zero cfg.read_header_timeout (2 * second) (omega arith),
  or_default-ne-zero cfg.idle_timeout (30 * second) (omega arith),
)

-- Whatever the configuration and the options, a new server admits from 1 to `MaxConnections`
-- connections, its pipe buffers have from 1 to `MaxPipeBufferBytes` bytes, its header limit is
-- positive, and its read, header and idle timeouts are not 0.
new_normalized :
    (logger : ℕ) (cfg : Config) (handler : Option ℕ) (opts : List ServerOption)
    → Within max_connections_limit (new logger cfg handler opts).max_connections
      × IsNormal (new logger cfg handler opts).cfg
unfolding new
new_normalized logger cfg handler opts = (
  apply_all-Within opts _ (omega arith),
  subst IsNormal (sym (apply_all-cfg opts _)) (normalize_config-IsNormal cfg),
)
