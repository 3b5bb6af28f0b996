-- ===== src/Logging/Tests.antt =====
-- logging/logging.go: the levels and the formats.
use go_toolbelt.Base.{ℕ, ◌≡◌, refl, true, false, String, none}
use go_toolbelt.Base.Int.{pos, negsuc}
use go_toolbelt.Base.Result.{ok, err}
use go_toolbelt.Logging.{
  level_from_verbosity, Config, unsupported_format, tint_handler, json_handler, options_of,
  new_tint_handler, auto_handler, new_handler,
}

levels : (level_from_verbosity (negsuc 2) ≡ pos 4) × (level_from_verbosity (pos 9) ≡ negsuc 7)
unfolding level_from_verbosity
levels = (refl, refl)

abbrev config : String → Config
config format = record {
  verbosity = pos 1;
  output = none;
  format = format;
  add_source = false;
  replace_attr = none;
}

abbrev utc : ℕ → String
utc t = "time"

abbrev base : String → String
base path = path

-- A terminal has colours; an automatic format is JSON where there is none.
formats :
    (new_handler utc base (λ out. true) (config "")
      ≡ ok (tint_handler 0 (options_of utc base (λ out. true) (config "")) false))
    × (new_handler utc base (λ out. false) (config "auto")
        ≡ ok (json_handler 0 (options_of utc base (λ out. false) (config "auto"))))
    × (new_handler utc base (λ out. false) (config "xml") ≡ err (unsupported_format "xml"))
unfolding new_handler auto_handler new_tint_handler
formats = (refl, refl, refl)
