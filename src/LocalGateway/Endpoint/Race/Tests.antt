-- ===== src/LocalGateway/Endpoint/Race/Tests.antt =====
-- localgateway/endpoint_unix.go: a socket that another server has replaced before it is moved aside.
use go_toolbelt.Base.{◌≡◌, ◌⊎◌, refl, inr, none, some}
use go_toolbelt.LocalGateway.Endpoint.{Identity}
use go_toolbelt.LocalGateway.Endpoint.Race.{
  move_aside, restore_no_replace, decide, System, at_end, at_restore, moves, looks, looks_back,
  restores, Call, calls, others, Reach, start, later,
}
use go_toolbelt.LocalGateway.Endpoint.Race.Laws.{IsThere, removal_destroys_only}

abbrev mine : Identity
mine = (1, 10)

abbrev theirs : Identity
theirs = (1, 11)

abbrev moved : System
moved = record { files = record { endpoint = none; aside = some theirs }; stage = at_restore }

abbrev put_back : System
put_back = record { files = record { endpoint = some theirs; aside = none }; stage = at_end }

replaced_moved : Reach mine moved
unfolding move_aside decide
replaced_moved =
    later
      (later (later (later (start (some mine)) (others (some theirs))) (calls (moves refl)))
        (calls (looks refl)))
      (calls (looks_back refl))

puts_back : Call mine moved put_back
unfolding restore_no_replace
puts_back = restores refl

removal_destroys_only_example : IsThere theirs put_back.files ⊎ (theirs ≡ mine)
removal_destroys_only_example =
    removal_destroys_only mine moved put_back theirs replaced_moved puts_back (inr refl)
