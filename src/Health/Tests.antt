-- ===== src/Health/Tests.antt =====
-- A monitor of two backends, one of which answers.
use homelab_api.Base.{lit, Bool, true, false, ◌≡◌, [], ◌∷◌, Distinct}
use homelab_api.Base.Dict.{Dict, lookup, keys}
use homelab_api.Health.{Monitor, tick, available, start}
use homelab_api.Health.Laws.{answer, last_answers, replay, available-start, replay-start}

-- A checker is whether its backend answers.
abbrev backends : Dict Bool
backends = (lit "nas", true) ∷ (lit "attic", false) ∷ []

abbrev monitor : Monitor Bool
monitor = record {
  backends = backends;
  availability = (lit "nas", true) ∷ (lit "attic", true) ∷ [];
}

abbrev ping : Bool → Bool
ping b = b

abbrev recovered : Bool → Bool
recovered b = true

backends-Distinct : Distinct (keys backends)
unfolding lit
backends-Distinct = ((λ e. cc, tt), (tt, tt))

available-start_example :
    available (start ping monitor (tick recovered ∷ [])).0 (lit "attic")
    ≡ answer
        (last_answers ping (tick recovered ∷ []))
        (lookup (lit "attic") backends)
        (available monitor (lit "attic"))
available-start_example =
    available-start ping (tick recovered ∷ []) monitor (lit "attic") backends-Distinct

replay-start_example :
    replay (start ping monitor (tick recovered ∷ [])).1 (available monitor)
    ≡ available (start ping monitor (tick recovered ∷ [])).0
replay-start_example = replay-start ping (tick recovered ∷ []) monitor
