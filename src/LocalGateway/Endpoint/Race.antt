-- ===== src/LocalGateway/Endpoint/Race.antt =====
-- localgateway/endpoint_unix.go and restore_linux.go: `removeOwnedSocket` on a file system that others
-- use too. Between any two of its calls other processes may remove, make or replace what stands at the
-- endpoint; nobody else knows the random name to which it moves a file. A file is known by its device
-- and inode. Any call may also fail and do nothing.
pub mod Laws
mod Tests
use go_toolbelt.Base.{
  ℕ, ◌≡◌, ◌⊎◌, Bool, true, false, not, List, [], ◌∷◌, Option, none, some, is_some, if◌then◌else◌,
}
use go_toolbelt.LocalGateway.Endpoint.{Identity}
use go_toolbelt.LocalGateway.Endpoint.Removal.{same_identity}

-- What stands at the endpoint, and under the random name.
pub record Files : Type 0 where
  pub endpoint : Option Identity
  pub aside : Option Identity

-- `os.Rename(endpoint, quarantine)`; without a file it fails.
pub move_aside : Files → Files
move_aside d = elim d.endpoint [ none ↦ d | some f ↦ record { endpoint = none; aside = some f } ]

-- `restoreSocketNoReplace`: a rename that fails if there is a file.
pub restore_no_replace : Files → Files
restore_no_replace d = elim d.endpoint [
  | some f ↦ d
  | none ↦ record { endpoint = d.aside; aside = none }
]

-- `os.Remove(quarantine)`
pub remove_aside : Files → Files
remove_aside d = record d { aside = none }

-- Where `removeOwnedSocket` is: before the move, before the look at what was moved, before the removal,
-- before the look at the endpoint, before the move back, or behind it all.
pub data Stage : Type 0 where
  at_move at_look at_remove at_endpoint at_restore at_end : Stage

-- Behind the look at what was moved.
pub decide : Identity → Option Identity → Stage
decide expected none = at_endpoint
decide expected (some actual) =
    if not (same_identity actual expected) then at_endpoint else at_remove

pub record System : Type 0 where
  pub files : Files
  pub stage : Stage

-- A call of `removeOwnedSocket`.
pub data Call (expected : Identity) (s : System) : System → Type 0 where
  moves :
      s.stage ≡ at_move
      → Call expected s (record {
        files = move_aside s.files;
        stage = if is_some s.files.endpoint then at_look else at_end;
      })
  not_moved : s.stage ≡ at_move → Call expected s (record s { stage = at_end })
  looks : s.stage ≡ at_look → Call expected s (record s { stage = decide expected s.files.aside })
  look_fails : s.stage ≡ at_look → Call expected s (record s { stage = at_endpoint })
  removes :
      s.stage ≡ at_remove
      → Call expected s (record { files = remove_aside s.files; stage = at_end })
  not_removed : s.stage ≡ at_remove → Call expected s (record s { stage = at_end })
  looks_back :
      s.stage ≡ at_endpoint
      → Call expected s
          (record s { stage = if is_some s.files.endpoint then at_end else at_restore })
  look_back_fails : s.stage ≡ at_endpoint → Call expected s (record s { stage = at_end })
  restores :
      s.stage ≡ at_restore
      → Call expected s (record { files = restore_no_replace s.files; stage = at_end })
  not_restored : s.stage ≡ at_restore → Call expected s (record s { stage = at_end })

-- A call, or what another process does to the endpoint.
pub data Step (expected : Identity) (s : System) : System → Type 0 where
  calls : {t : System} → Call expected s t → Step expected s t
  others :
      (now : Option Identity)
      → Step expected s (record s { files = record s.files { endpoint = now } })

pub data Reach (expected : Identity) : System → Type 0 where
  start :
      (there : Option Identity)
      → Reach expected
          (record { files = record { endpoint = there; aside = none }; stage = at_move })
  later : {s t : System} → Reach expected s → Step expected s t → Reach expected t
