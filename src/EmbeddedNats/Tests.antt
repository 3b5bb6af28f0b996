-- ===== src/EmbeddedNats/Tests.antt =====
-- embeddednats/embeddednats.go: a server that is started, and that ends by itself.
use go_toolbelt.Base.{
  ℕ, ◌+◌, ◌≤◌, ◌⊎◌, ◌≡◌, refl, inr, Bool, true, false, List, [], ◌∷◌, Option, none, some,
}
use go_toolbelt.Base.Ids.{has, without}
use go_toolbelt.EmbeddedNats.{
  RunningServer, begin_start, install, finish, is_unexpected, perform, perform_all, System, began,
  moved, installed, finished, looked, call_start, makes_temp, creates, awaits, installs, ends,
  looks, Reach, start, later,
}
use go_toolbelt.EmbeddedNats.Launch.{
  default_options, Phase, at_install, returning, wait_shutdown, remove_dir, not_ready, not_removed,
  make_temp, create, await_ready, give_up, remove_temp_dir,
}
use go_toolbelt.EmbeddedNats.Laws.{
  alive, temp_of, nats_in, temp_in, is_launching, one_server, end_not_missed,
}

slow_and_stuck : await_ready true false (some 7) ≡ record {
  phase = returning;
  errors = not_ready ∷ not_removed 7 ∷ [];
  calls = wait_shutdown ∷ remove_dir (some 7) ∷ [];
}
unfolding await_ready give_up remove_temp_dir
slow_and_stuck = refl

abbrev runner : Bool → RunningServer
runner done = record {
  id = 0;
  has_temp = true;
  done = done;
  stop_err = none;
  stopping = false;
  shut_down = false;
}

abbrev system_of : Bool → Option RunningServer → Phase → ℕ → ℕ → List ℕ → List ℕ → System
system_of starting running phase made live watched requests = record {
  server = record { starting = starting; running = running };
  phase = phase;
  world = record { live = live; dirs = live; failed = 0 };
  made = made;
  watched = watched;
  requests = requests;
}

abbrev made_ready : System
made_ready = system_of true none (at_install true) 0 1 [] []

abbrev up : System
up = system_of true (some (runner false)) returning 1 1 (0 ∷ []) []

abbrev ended_alone : System
ended_alone = system_of true (some (runner true)) returning 1 0 [] (0 ∷ [])

ready_reached : Reach default_options made_ready
unfolding began begin_start moved make_temp create await_ready perform_all perform
ready_reached =
    later
      (later (later (later start call_start) (makes_temp none refl)) (creates true none none refl))
      (awaits true true none refl)

up_reached : Reach default_options up
unfolding installed install
up_reached = later ready_reached (installs true refl)

ended_reached : Reach default_options ended_alone
unfolding finished finish remove_temp_dir perform_all perform looked is_unexpected without has
ended_reached =
    later (later up_reached (ends (runner false) none refl refl)) (looks 0 refl (inr refl))

-- A server that is not ready is shut down, and its directory stays where it cannot be removed.
abbrev given_up : System
given_up = record {
  server = record { starting = true; running = none };
  phase = returning;
  world = record { live = 0; dirs = 1; failed = 1 };
  made = 0;
  watched = [];
  requests = [];
}

given_up_reached : Reach default_options given_up
unfolding began begin_start moved make_temp create await_ready give_up remove_temp_dir perform_all
    perform
given_up_reached =
    later
      (later (later (later start call_start) (makes_temp none refl)) (creates true none none refl))
      (awaits true false (some 7) refl)

one_server_example :
    (made_ready.world.live ≡ alive made_ready.server.running + nats_in made_ready.phase)
    × (made_ready.world.live ≤ 1)
    × (made_ready.world.dirs
        ≡ made_ready.world.failed + temp_of made_ready.server.running + temp_in made_ready.phase)
    × ((is_launching made_ready.phase ≡ false) ⊎ (made_ready.server.running ≡ none))
one_server_example = one_server default_options made_ready ready_reached

is_gone : has ended_alone.watched 0 ≡ false
unfolding has
is_gone = refl

end_not_missed_example : has ended_alone.requests 0 ≡ true
end_not_missed_example =
    end_not_missed default_options ended_alone (runner true) ended_reached refl refl is_gone
