-- ===== src/OidcVerifier/Lifecycle/Tests.antt =====
-- oidcverifier/oidcverifier.go: a verifier that starts, is ready, and is stopped.
use go_toolbelt.Base.{ℕ, true, false, none, some, arith}
use go_toolbelt.OidcVerifier.Lifecycle.{
  begin_start, end_start, stop, System, init, call, discovered, Steps, here, next,
}

-- The metadata are a number. A second `Start` has been refused.
abbrev ready_system : System ℕ
ready_system = record {
  verifier = record { started = true; stopped = false; metadata = some 5 };
  begun = 1;
  pending = 0;
}

ready_reached : Steps (init ℕ) ready_system
unfolding begin_start end_start
ready_reached = next (next (next here call) call) (discovered (some 5) (omega arith))

-- A verifier that is stopped while the discovery is under way.
abbrev starting : System ℕ
starting = record {
  verifier = record { started = true; stopped = false; metadata = none };
  begun = 1;
  pending = 1;
}

abbrev stopped_system : System ℕ
stopped_system = record {
  verifier = record { started = true; stopped = true; metadata = none };
  begun = 1;
  pending = 0;
}

late_discovery : Steps (record starting { verifier = stop starting.verifier }) stopped_system
unfolding stop end_start
late_discovery = next here (discovered (some 5) (omega arith))
