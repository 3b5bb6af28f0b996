-- ===== src/OidcVerifier/Lifecycle.antt =====
-- oidcverifier/oidcverifier.go: `Start`, `Stop`, `Ready` and `Metadata`. `Start` is two critical
-- sections with `Discover` between them, and each section and `Stop` is one step of a system in which
-- any number of goroutines call them. The metadata type is a parameter.
pub mod Laws
mod Tests
use go_toolbelt.Base.Result.{Result, ok, err}
use go_toolbelt.Base.{
  ℕ, ◌+◌, ◌-◌, ◌<◌, Bool, true, false, Option, none, some, is_some, if◌then◌else◌,
}

-- The metadata and the ID-token verifier are set and cleared together.
pub record Verifier (Metadata : Type 0) : Type 0 where
  pub started : Bool
  pub stopped : Bool
  pub metadata : Option Metadata

pub data StartError : Type 0 where
  already_started not_ready undiscovered : StartError

module _ {Metadata : Type 0} where
  -- The first section: `none` goes on to the discovery.
  pub begin_start : Verifier Metadata → Verifier Metadata × Option StartError
  begin_start v =
      if v.started
      then (v, some already_started)
      else if v.stopped
      then (v, some not_ready)
      else (record v { started = true }, none)

  -- Behind the discovery, which has metadata or has failed.
  pub end_start : Option Metadata → Verifier Metadata → Verifier Metadata × Option StartError
  end_start none v = (v, some undiscovered)
  end_start (some m) v =
      if v.stopped then (v, some not_ready) else (record v { metadata = some m }, none)

  pub stop : Verifier Metadata → Verifier Metadata
  stop v = record v { stopped = true; metadata = none }

  pub ready : Verifier Metadata → Bool
  ready v = is_some v.metadata

  -- `Metadata`, of a verifier that is ready; the copy is the same value here.
  pub read_metadata : Verifier Metadata → Result StartError Metadata
  read_metadata v = elim v.metadata [ none ↦ err not_ready | some m ↦ ok m ]

abbrev pub new_verifier : (Metadata : Type 0) → Verifier Metadata
new_verifier Metadata = record { started = false; stopped = false; metadata = none }

-- The verifier, how many discoveries have begun, and how many of them are under way.
pub record System (Metadata : Type 0) : Type 0 where
  pub verifier : Verifier Metadata
  pub begun : ℕ
  pub pending : ℕ

abbrev pub init : (Metadata : Type 0) → System Metadata
init Metadata = record { verifier = new_verifier Metadata; begun = 0; pending = 0 }

abbrev pub began :
    {Metadata : Type 0} → System Metadata → Verifier Metadata × Option StartError → System Metadata
began s (v, none) = record { verifier = v; begun = s.begun + 1; pending = s.pending + 1 }
began s (v, some e) = record s { verifier = v }

pub data Step {Metadata : Type 0} (s : System Metadata) : System Metadata → Type 0 where
  call : Step s (began s (begin_start s.verifier))
  discovered :
      (m : Option Metadata)
      → 0 < s.pending
      → Step s (record s { verifier = (end_start m s.verifier).0; pending = s.pending - 1 })
  halt : Step s (record s { verifier = stop s.verifier })

pub data Steps {Metadata : Type 0} (s : System Metadata) : System Metadata → Type 0 where
  here : Steps s s
  next : {t u : System Metadata} → Steps s t → Step t u → Steps s u
