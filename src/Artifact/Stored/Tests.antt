-- ===== src/Artifact/Stored/Tests.antt =====
-- artifact/artifact.go: the validation of one intact file.
use go_toolbelt.Base.{◌≡◌, ◌↔◌, refl, true, false, [], ◌∷◌, none}
use go_toolbelt.Base.Result.{ok}
use go_toolbelt.Base.Bytes.{Bytes, same}
use go_toolbelt.Artifact.Copy.Tests.{one_digest, some_digest}
use go_toolbelt.Artifact.Stored.{
  Info, Checks, missing, found, validate_stored, check_before, check_opened, check_contents,
  compare_validated, compare_last, IsStored, validate_stored_sound,
}

abbrev pub seen : Info
seen = record { regular = true; identity = 11; size = 2; mod_time = 500 }

abbrev pub intact : Checks
intact = record {
  before = found seen;
  open_err = none;
  opened = ok seen;
  contents = ok (8 ∷ 9 ∷ []);
  validated = ok seen;
  after = found seen;
}

abbrev plain_sha : Bytes → Bytes
plain_sha bytes = bytes

intact_validated : validate_stored plain_sha (8 ∷ 9 ∷ []) 2 intact ≡ ok true
unfolding validate_stored check_before check_opened check_contents compare_validated compare_last
    same
intact_validated = refl

validate_stored_sound_example :
    (validate_stored plain_sha (8 ∷ 9 ∷ []) 2 intact ≡ ok true
      → IsStored plain_sha (8 ∷ 9 ∷ []) 2 intact)
    × ((validate_stored plain_sha (8 ∷ 9 ∷ []) 2 intact ≡ ok false) ↔ (intact.before ≡ missing))
validate_stored_sound_example = validate_stored_sound plain_sha (8 ∷ 9 ∷ []) 2 intact

abbrev pub absent : Checks
absent = record intact { before = missing }

pub absent_validated : validate_stored one_digest some_digest 3 absent ≡ ok false
unfolding validate_stored check_before
absent_validated = refl
