-- ===== src/EventBus/Laws.antt =====
-- eventbus/eventbus.go: what holds of a broker in any sequence of calls.
use go_toolbelt.Base.{
  ℕ, zero, suc, ◌<◌, ◌≤◌, ◌≡◌, refl, subst, Option-cases, inl, inr, not, List, [], ◌∷◌, All, Option,
  none, some, length, length-append, arith,
}
use go_toolbelt.Base.Int.{ℤ, pos, negsuc}
use go_toolbelt.EventBus.{
  Channel, new_channel, send, offer, prepend, publish, subscribe, unsubscribe, receive, on_channel,
  Call, publishes, subscribes, unsubscribes, receives, perform, perform_all,
}

-- A channel is closed exactly when it is not in the broker's map, and its buffer fits.
pub record IsValid {T : Type 0} (c : Channel T) : Type 0 where
  pub held : c.subscribed ≡ not c.closed
  pub once : c.once_done ≡ c.closed
  pub fits : length c.buffer ≤ c.size
  pub roomy : 0 < c.size

module _ {T : Type 0} where
  -- A call succeeds, and its channel is well-formed.
  abbrev Succeeds : Option (Channel T) → Type 0
  Succeeds none = ⊥
  Succeeds (some c) = IsValid c

  abbrev SucceedAll : Option (List (Channel T)) → Type 0
  SucceedAll none = ⊥
  SucceedAll (some cs) = All IsValid cs

  offer-valid : (e : T) (c : Channel T) → IsValid c → Succeeds (offer e c)
  unfolding offer send
  offer-valid e c v = ground (arith, length-append c.buffer (e ∷ []))

  new_channel-IsValid : (size : ℤ) → IsValid (new_channel {T = T} size)
  unfolding new_channel
  new_channel-IsValid (pos zero) = ground arith
  new_channel-IsValid (pos (suc n)) = ground arith
  new_channel-IsValid (negsuc n) = ground arith

  unsubscribe-valid : (c : Channel T) → IsValid c → Succeeds (unsubscribe c)
  unfolding unsubscribe
  unsubscribe-valid c v = ground arith

  receive-valid : (c : Channel T) → IsValid c → Succeeds (receive c)
  unfolding receive
  receive-valid c v = ground arith

  prepend-valid :
      (r : Option (Channel T)) (rs : Option (List (Channel T)))
      → Succeeds r
      → SucceedAll rs
      → SucceedAll (prepend r rs)
  prepend-valid (some c) (some cs) v vs = (v, vs)
  prepend-valid none rs v vs = absurd v
  prepend-valid (some c) none v vs = absurd vs

  publish-valid : (e : T) (cs : List (Channel T)) → All IsValid cs → SucceedAll (publish e cs)
  unfolding publish
  publish-valid e [] h = tt
  publish-valid e (c ∷ cs) (v, vs) =
      prepend-valid (offer e c) (publish e cs) (offer-valid e c v) (publish-valid e cs vs)

  subscribe-IsValid :
      (size : ℤ) (cs : List (Channel T)) → All IsValid cs → All IsValid (subscribe size cs)
  unfolding subscribe
  subscribe-IsValid size [] h = (new_channel-IsValid size, tt)
  subscribe-IsValid size (c ∷ cs) (v, vs) = (v, subscribe-IsValid size cs vs)

  on_channel-valid :
      (i : ℕ) (f : Channel T → Option (Channel T)) (cs : List (Channel T))
      → ((c : Channel T) → IsValid c → Succeeds (f c))
      → All IsValid cs
      → SucceedAll (on_channel i f cs)
  unfolding on_channel
  on_channel-valid i f [] k h = tt
  on_channel-valid zero f (c ∷ cs) k (v, vs) = prepend-valid (f c) (some cs) (k c v) vs
  on_channel-valid (suc i) f (c ∷ cs) k (v, vs) =
      prepend-valid (some c) (on_channel i f cs) v (on_channel-valid i f cs k vs)

  perform-valid : (x : Call T) (cs : List (Channel T)) → All IsValid cs → SucceedAll (perform x cs)
  unfolding perform
  perform-valid (publishes e) cs h = publish-valid e cs h
  perform-valid (subscribes size) cs h = subscribe-IsValid size cs h
  perform-valid (unsubscribes i) cs h = on_channel-valid i unsubscribe cs unsubscribe-valid h
  perform-valid (receives i) cs h = on_channel-valid i receive cs receive-valid h

  perform_all-valid :
      (xs : List (Call T)) (cs : List (Channel T)) → All IsValid cs → SucceedAll (perform_all xs cs)
  unfolding perform_all
  perform_all-valid [] cs h = h
  perform_all-valid (x ∷ xs) cs h = elim (Option-cases (perform x cs)) [
    | inl p ↦ absurd (subst SucceedAll p (perform-valid x cs h))
    | inr (cs', p) ↦
        rw (p, perform_all) (perform_all-valid xs cs' (subst SucceedAll p (perform-valid x cs h)))
  ]

  succeeded :
      (r : Option (List (Channel T)))
      → SucceedAll r
      → (cs : List (Channel T)) × (r ≡ some cs) × All IsValid cs
  succeeded none h = absurd h
  succeeded (some cs) h = (cs, refl, h)

  -- A broker never panics: in any sequence of calls on a new one, none sends on a closed channel or
  -- closes one twice. At the end each channel has a buffer of positive size that holds no more than
  -- that, and is in the broker's map exactly if it is not closed.
  pub broker_never_panics :
      (xs : List (Call T))
      → (cs : List (Channel T)) × (perform_all xs [] ≡ some cs) × All IsValid cs
  broker_never_panics xs = succeeded (perform_all xs []) (perform_all-valid xs [] tt)

  -- The unsubscribe function does nothing when it is called again.
  unsubscribe_twice : (c d : Channel T) → unsubscribe c ≡ some d → unsubscribe d ≡ some d
  unfolding unsubscribe
  unsubscribe_twice c d h = ground arith
