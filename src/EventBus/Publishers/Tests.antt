-- ===== src/EventBus/Publishers/Tests.antt =====
-- eventbus/eventbus.go: a writer that is nil, and one that is not.
use go_toolbelt.Base.{ℕ, ◌≡◌, refl, true, false, List, [], ◌∷◌, ◌++◌, Option, none, some}
use go_toolbelt.EventBus.Publishers.{World, json_publisher, call, call_all}

abbrev encode : ℕ → List ℕ → Option ℕ × List ℕ
encode e out = (none, out ++ (e ∷ 10 ∷ []))

abbrev empty : World ℕ (List ℕ)
empty = record { channels = []; encoder = [] }

written :
    (call_all encode (json_publisher false) (1 ∷ 2 ∷ []) empty
      ≡ some (record empty { encoder = 1 ∷ 10 ∷ 2 ∷ 10 ∷ [] }))
    × (call_all encode (json_publisher true) (1 ∷ 2 ∷ []) empty ≡ some empty)
unfolding call_all call json_publisher
written = (refl, refl)
