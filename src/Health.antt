-- ===== src/Health.antt =====
-- internal/health/monitor.go: the monitor that pings the backends and tells which are available.
-- One probe of one backend is a step, since the monitor's lock is held for that long; the pings'
-- answers come from outside. Time shows only as the sequence of probes.
pub mod Laws
mod Tests
use homelab_api.Base.{Text, Bool, true, not, ◌&&◌, if◌then◌else◌, List, [], ◌∷◌, ◌++◌, map}
use homelab_api.Base.Dict.{Dict, insert, flag}

-- What the monitor logs.
pub data Transition : Type 0 where
  went_offline came_back_online : Text → Transition

-- `H` is the type of the health checkers.
pub record Monitor (H : Type 0) : Type 0 where
  pub backends : Dict H
  pub availability : Dict Bool

-- What the loop of Start receives: a tick, with the answers of the pings that it starts, or the
-- end of the context.
pub data Event (H : Type 0) : Type 0 where
  tick : (H → Bool) → Event H
  done : Event H

-- The switch at the end of the loop body.
transition : Text → Bool → Bool → List Transition
transition name was now =
    if was && not now
    then went_offline name ∷ []
    else if not was && now
    then came_back_online name ∷ []
    else []

module _ {H : Type 0} where
  -- NewMonitor
  pub new_monitor : Dict H → Monitor H
  new_monitor backends = record {
    backends = backends;
    availability = map (λ b. (b.0, true)) backends;
  }

  -- Available
  pub available : Monitor H → Text → Bool
  available m name = flag name m.availability

  module _ (ping : H → Bool) where
    -- The loop body; `ping hc` says whether Ping returned nil.
    probe_one : Text × H → Dict Bool → Dict Bool × List Transition
    unfolding transition
    probe_one (name, hc) availability =
        let was = flag name availability in
        let now = ping hc in (insert name now availability, transition name was now)

    probe_all : Dict H → Dict Bool → Dict Bool × List Transition
    probe_all [] availability = (availability, [])
    probe_all (b ∷ bs) availability =
        let (next, log) = probe_one b availability in
        let (end, logs) = probe_all bs next in (end, log ++ logs)

    -- probe
    pub probe : Monitor H → Monitor H × List Transition
    unfolding probe_all probe_one
    probe m =
        let (availability, log) = probe_all m.backends m.availability in
        (record m { availability = availability }, log)

  loop : Monitor H → List (Event H) → Monitor H × List Transition
  loop m [] = (m, [])
  loop m (done ∷ events) = (m, [])
  loop m (tick ping ∷ events) =
      let (next, log) = probe ping m in let (end, logs) = loop next events in (end, log ++ logs)

  -- Start: a probe at once, then the loop.
  pub start : (H → Bool) → Monitor H → List (Event H) → Monitor H × List Transition
  unfolding loop
  start ping m events = loop m (tick ping ∷ events)
