-- ===== src/EventBus/Tests.antt =====
-- eventbus/eventbus.go: a broker with a subscriber that is slow, and is unsubscribed twice.
use go_toolbelt.Base.{ℕ, ◌≡◌, refl, true, false, List, [], ◌∷◌, All, some}
use go_toolbelt.Base.Int.{pos}
use go_toolbelt.EventBus.{
  Channel, new_channel, send, offer, publish, subscribe, unsubscribe, receive, on_channel, Call,
  publishes, subscribes, unsubscribes, receives, perform, perform_all,
}
use go_toolbelt.EventBus.Laws.{IsValid, broker_never_panics}

abbrev calls : List (Call ℕ)
calls =
    subscribes (pos 1)
    ∷ publishes 7
    ∷ publishes 8
    ∷ receives 0
    ∷ publishes 9
    ∷ unsubscribes 0
    ∷ unsubscribes 0
    ∷ publishes 10
    ∷ []

abbrev closed_channel : Channel ℕ
closed_channel = record {
  size = 1;
  buffer = 9 ∷ [];
  closed = true;
  subscribed = false;
  once_done = true;
}

-- The second event is dropped, and the last one is not sent.
broker_runs : perform_all calls [] ≡ some (closed_channel ∷ [])
unfolding perform_all perform publish offer send subscribe new_channel unsubscribe receive
    on_channel
broker_runs = refl

broker_never_panics_example :
    (cs : List (Channel ℕ)) × (perform_all calls [] ≡ some cs) × All IsValid cs
broker_never_panics_example = broker_never_panics calls

abbrev open_channel : Channel ℕ
open_channel = record closed_channel { closed = false; subscribed = true; once_done = false }

unsubscribes_once : unsubscribe open_channel ≡ some closed_channel
unfolding unsubscribe
unsubscribes_once = refl
