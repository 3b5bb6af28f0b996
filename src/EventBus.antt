-- ===== src/EventBus.antt =====
-- eventbus/eventbus.go: `Broker`, its channels and its subscribers. A channel is known by the order
-- in which `Subscribe` made it; the broker's mutex makes each call one step. A send on a closed
-- channel and a second close would panic: `none` stands for that.
pub mod Laws
pub mod Publishers
mod Tests
use go_toolbelt.Base.{
  ℕ, zero, suc, Bool, true, false, List, [], ◌∷◌, ◌++◌, Option, none, some, length, ltb,
  if◌then◌else◌,
}
use go_toolbelt.Base.Int.{ℤ, pos, negsuc}

abbrev pub default_buffer_size : ℕ
default_buffer_size = 32

-- A channel, whether the broker's map holds it, and whether the `once` of its unsubscribe
-- function is done.
pub record Channel (T : Type 0) : Type 0 where
  pub size : ℕ
  pub buffer : List T
  pub closed : Bool
  pub subscribed : Bool
  pub once_done : Bool

abbrev pub buffer_size : ℤ → ℕ
buffer_size (pos zero) = default_buffer_size
buffer_size (pos (suc n)) = suc n
buffer_size (negsuc n) = default_buffer_size

module _ {T : Type 0} where
  pub new_channel : ℤ → Channel T
  new_channel size = record {
    size = buffer_size size;
    buffer = [];
    closed = false;
    subscribed = true;
    once_done = false;
  }

  -- `select` with the send and a default: a full channel drops the event.
  pub send : T → Channel T → Option (Channel T)
  send e c =
      if c.closed
      then none
      else if ltb (length c.buffer) c.size
      then some (record c { buffer = c.buffer ++ (e ∷ []) })
      else some c

  pub offer : T → Channel T → Option (Channel T)
  unfolding send
  offer e c = if c.subscribed then send e c else some c

  abbrev pub prepend : Option (Channel T) → Option (List (Channel T)) → Option (List (Channel T))
  prepend (some c) (some cs) = some (c ∷ cs)
  prepend _ _ = none

  pub publish : T → List (Channel T) → Option (List (Channel T))
  unfolding offer
  publish e [] = some []
  publish e (c ∷ cs) = prepend (offer e c) (publish e cs)

  pub subscribe : ℤ → List (Channel T) → List (Channel T)
  unfolding new_channel
  subscribe size cs = cs ++ (new_channel size ∷ [])

  -- The function that `Subscribe` returns.
  pub unsubscribe : Channel T → Option (Channel T)
  unsubscribe c =
      if c.once_done
      then some c
      else if c.closed
      then none
      else some (record c { subscribed = false; closed = true; once_done = true })

  -- A receive takes the first event; where there is none it leaves the channel as it is.
  pub receive : Channel T → Option (Channel T)
  receive c = elim c.buffer [ [] ↦ some c | e ∷ rest ↦ some (record c { buffer = rest }) ]

  -- A call on the channel with an index; an index out of range names none.
  pub on_channel :
      ℕ → (Channel T → Option (Channel T)) → List (Channel T) → Option (List (Channel T))
  on_channel i f [] = some []
  on_channel zero f (c ∷ cs) = prepend (f c) (some cs)
  on_channel (suc i) f (c ∷ cs) = prepend (some c) (on_channel i f cs)

pub data Call (T : Type 0) : Type 0 where
  publishes : T → Call T
  subscribes : ℤ → Call T
  unsubscribes receives : ℕ → Call T

module _ {T : Type 0} where
  pub perform : Call T → List (Channel T) → Option (List (Channel T))
  unfolding publish subscribe unsubscribe receive on_channel
  perform (publishes e) cs = publish e cs
  perform (subscribes size) cs = some (subscribe size cs)
  perform (unsubscribes i) cs = on_channel i unsubscribe cs
  perform (receives i) cs = on_channel i receive cs

  pub perform_all : List (Call T) → List (Channel T) → Option (List (Channel T))
  unfolding perform
  perform_all [] cs = some cs
  perform_all (x ∷ xs) cs = elim (perform x cs) [ none ↦ none | some cs' ↦ perform_all xs cs' ]
