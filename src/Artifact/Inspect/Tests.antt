-- ===== src/Artifact/Inspect/Tests.antt =====
-- artifact/artifact.go: a file that is inspected, and a directory.
use go_toolbelt.Base.{◌≡◌, refl, true, false, [], ◌∷◌, none}
use go_toolbelt.Base.Result.{ok, err}
use go_toolbelt.Base.Bytes.{Bytes}
use go_toolbelt.Artifact.Inspect.{Source, inspect, inspect_opened, describe, digest, not_regular}

abbrev id : Bytes → Bytes
id b = b

abbrev file : Source
file = record {
  open_err = none;
  info = ok (record { regular = true; identity = 1; size = 2; mod_time = 9 });
  contents = ok (5 ∷ 6 ∷ []);
}

abbrev directory : Source
directory = record file {
  info = ok (record { regular = false; identity = 1; size = 2; mod_time = 9 });
}

inspected :
    (inspect id id (7 ∷ []) file
      ≡ ok (record { path = 7 ∷ []; name = 7 ∷ []; sha256 = 5 ∷ 6 ∷ []; size = 2; mod_time = 9 }))
    × (inspect id id (7 ∷ []) directory ≡ err not_regular)
unfolding inspect inspect_opened describe digest
inspected = (refl, refl)
