-- ===== src/EmbeddedNats/Laws.antt =====
-- embeddednats/embeddednats.go: what holds under every interleaving of `Start`, `Stop` and the end of
-- the NATS servers.
use go_toolbelt.Base.{
  ℕ, ◌+◌, ◌≤◌, ◌≡◌, ◌⊎◌, List, ◌∷◌, Bool, true, false, not, ◌&&◌, Option, none, some, arith, subst,
  if◌then◌else◌,
}
use go_toolbelt.Base.Ids.{has, without, has-without}
use go_toolbelt.EmbeddedNats.{
  RunningServer, begin_start, install, end_start, begin_stop, finish, end_stop, perform,
  perform_all, System, began, moved, installed, finished, Step, call_start, makes_temp, creates,
  awaits, installs, returns, call_stop, ends, looks, looked, is_unexpected, stopped, Reach, start,
  later,
}
use go_toolbelt.EmbeddedNats.Launch.{
  Options, Phase, idle, at_create, at_ready, at_install, returning, remove_temp_dir, give_up,
  make_temp, create, await_ready,
}

abbrev pub bit : Bool → ℕ
bit true = 1
bit false = 0

abbrev pub alive : Option RunningServer → ℕ
alive none = 0
alive (some r) = bit (not r.done)

abbrev pub temp_of : Option RunningServer → ℕ
temp_of none = 0
temp_of (some r) = bit (not r.done && r.has_temp)

-- What a `Start` holds that has not installed its server yet.
abbrev pub nats_in : Phase → ℕ
nats_in (at_ready temp) = 1
nats_in (at_install temp) = 1
nats_in _ = 0

abbrev pub temp_in : Phase → ℕ
temp_in (at_create temp) = bit temp
temp_in (at_ready temp) = bit temp
temp_in (at_install temp) = bit temp
temp_in _ = 0

abbrev pub is_launching : Phase → Bool
is_launching idle = false
is_launching returning = false
is_launching _ = true

abbrev pub is_idle : Phase → Bool
is_idle idle = true
is_idle _ = false

pub record IsValid (s : System) : Type 0 where
  pub flagged : s.server.starting ≡ not (is_idle s.phase)
  pub alone : is_launching s.phase ≡ true → s.server.running ≡ none
  pub servers : s.world.live ≡ alive s.server.running + nats_in s.phase
  pub directories : s.world.dirs ≡ s.world.failed + temp_of s.server.running + temp_in s.phase

Step-IsValid : (options : Options) (s t : System) → Step options s t → IsValid s → IsValid t
unfolding began begin_start moved make_temp create await_ready give_up remove_temp_dir perform_all
    perform installed install end_start begin_stop finished finish looked end_stop
Step-IsValid options s _ call_start v = ground arith
Step-IsValid options s _ (makes_temp e h) v = ground arith
Step-IsValid options s _ (creates temp e removal h) v = ground arith
Step-IsValid options s _ (awaits temp ready removal h) v = ground arith
Step-IsValid options s _ (installs temp h) v = ground arith
Step-IsValid options s _ (returns h) v = ground arith
Step-IsValid options s _ call_stop v = ground arith
Step-IsValid options s _ (ends r removal p h) v = ground arith
Step-IsValid options s _ (looks i h d) v = ground arith
Step-IsValid options s _ (stopped i h) v = ground arith

Reach-IsValid : (options : Options) (s : System) → Reach options s → IsValid s
Reach-IsValid options _ start = ground arith
Reach-IsValid options _ (later {s} {t} r st) =
    Step-IsValid options s t st (Reach-IsValid options s r)

one_alive : (s : System) → IsValid s → s.world.live ≤ 1
one_alive s v = ground arith

-- However the calls of `Start` and `Stop` interleave, a NATS server is alive only as the one that is
-- installed, until its end was seen, or as the one that a `Start` has started and not yet installed
-- or shut down, and there are never two; the temporary directories that there are, beyond that of the
-- installed server and that of a `Start` on its way to one, are those whose removal failed; and while
-- a `Start` is on its way, none is installed.
pub one_server :
    (options : Options) (s : System)
    → Reach options s
    → (s.world.live ≡ alive s.server.running + nats_in s.phase)
      × (s.world.live ≤ 1)
      × (s.world.dirs ≡ s.world.failed + temp_of s.server.running + temp_in s.phase)
      × ((is_launching s.phase ≡ false) ⊎ (s.server.running ≡ none))
one_server options s r =
    let v = Reach-IsValid options s r in (v.servers, one_alive s v, v.directories, ground arith)

-- A server that is installed and that nobody stops has its goroutine, or a shutdown was asked for.
abbrev pub IsWatched : List ℕ → List ℕ → Option RunningServer → Type 0
IsWatched watched requests none = Unit {0}
IsWatched watched requests (some r) =
    (r.stopping ≡ true) ⊎ ((has watched r.id ≡ true) ⊎ (has requests r.id ≡ true))

looked-IsWatched :
    (i : ℕ) (watched requests : List ℕ) (o : Option RunningServer)
    → IsWatched watched requests o
    → IsWatched (without watched i) (if is_unexpected i o then i ∷ requests else requests) o
unfolding is_unexpected has
looked-IsWatched i watched requests none v = tt
looked-IsWatched i watched requests (some r) v = ground (arith, has-without watched i r.id)

Step-IsWatched :
    (options : Options) (s t : System)
    → Step options s t
    → IsWatched s.watched s.requests s.server.running
    → IsWatched t.watched t.requests t.server.running
unfolding began begin_start moved installed install end_start begin_stop finished finish looked
    is_unexpected end_stop has
Step-IsWatched options s _ call_start v = ground arith
Step-IsWatched options s _ (makes_temp e h) v = v
Step-IsWatched options s _ (creates temp e removal h) v = v
Step-IsWatched options s _ (awaits temp ready removal h) v = v
Step-IsWatched options s _ (installs temp h) v = ground arith
Step-IsWatched options s _ (returns h) v = v
Step-IsWatched options s _ call_stop v = ground arith
Step-IsWatched options s _ (ends r removal p h) v = ground arith
Step-IsWatched options s _ (looks i h d) v =
    looked-IsWatched i s.watched s.requests s.server.running v
Step-IsWatched options s _ (stopped i h) v = ground arith

Reach-IsWatched :
    (options : Options) (s : System)
    → Reach options s
    → IsWatched s.watched s.requests s.server.running
Reach-IsWatched options _ start = tt
Reach-IsWatched options _ (later {s} {t} r st) =
    Step-IsWatched options s t st (Reach-IsWatched options s r)

-- The end of a NATS server that nobody stops is not missed: once the goroutine of a server that is
-- installed has ended, a shutdown of the application was asked for, unless `Stop` was called.
pub end_not_missed :
    (options : Options) (s : System) (r : RunningServer)
    → Reach options s
    → s.server.running ≡ some r
    → r.stopping ≡ false
    → has s.watched r.id ≡ false
    → has s.requests r.id ≡ true
end_not_missed options s r reached p h gone =
    let w : IsWatched s.watched s.requests (some r) =
      subst (IsWatched s.watched s.requests) p (Reach-IsWatched options s reached) in
    ground arith
