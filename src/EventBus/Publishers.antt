-- ===== src/EventBus/Publishers.antt =====
-- eventbus/eventbus.go: `NoopPublisher`, `BrokerPublisher` and `JSONPublisher`. The JSON encoder with
-- its writer is a parameter: what `Encode` does to it, and the error that it returns.
mod Tests
use go_toolbelt.Base.{
  ℕ, ◌≡◌, refl, Bool, true, false, List, [], ◌∷◌, Option, none, some, if◌then◌else◌, map, arith,
  Option-cases, inl, inr,
}
use go_toolbelt.EventBus.{Channel, publish, Call, publishes, perform, perform_all}

-- What a publisher passes an event to.
pub data Publisher : Type 0 where
  noop to_broker to_writer : Publisher

-- Whether the broker is nil, and whether the writer is.
pub broker_publisher : Bool → Publisher
broker_publisher is_nil = if is_nil then noop else to_broker

pub json_publisher : Bool → Publisher
json_publisher is_nil = if is_nil then noop else to_writer

-- The broker's channels, and the encoder.
pub record World (T W : Type 0) : Type 0 where
  pub channels : List (Channel T)
  pub encoder : W

module _ {T W : Type 0} (encode : T → W → Option ℕ × W) where
  abbrev pub with_channels : World T W → Option (List (Channel T)) → Option (World T W)
  with_channels w none = none
  with_channels w (some cs) = some (record w { channels = cs })

  -- A call of a publisher; the error of `Encode` is ignored.
  pub call : Publisher → T → World T W → Option (World T W)
  unfolding publish
  call noop e w = some w
  call to_broker e w = with_channels w (publish e w.channels)
  call to_writer e w = some (record w { encoder = (encode e w.encoder).1 })

  pub call_all : Publisher → List T → World T W → Option (World T W)
  unfolding call
  call_all p [] w = some w
  call_all p (e ∷ es) w = elim (call p e w) [ none ↦ none | some w' ↦ call_all p es w' ]

  -- Events that are published through a broker's publisher are calls of `Publish`, one after another.
  to_broker-perform_all :
      (es : List T) (w : World T W)
      → call_all to_broker es w ≡ with_channels w (perform_all (map publishes es) w.channels)
  unfolding call_all call perform_all perform
  to_broker-perform_all [] w = refl
  to_broker-perform_all (e ∷ es) w = elim (Option-cases (publish e w.channels)) [
    | inl p ↦ ground (arith, p)
    | inr (cs, p) ↦ ground (arith, p, to_broker-perform_all es (record w { channels = cs }))
  ]
