-- ===== src/Health/Laws.antt =====
-- What a probe and a whole run of the monitor leave behind.
use homelab_api.Base.{
  Text, ◌==◌, ==_iff, Bool, true, false, if◌then◌else◌, Option, some, none, List, [], ◌∷◌, ◌++◌,
  ◌≡◌, refl, ap, ◌∙◌, arith, Distinct,
}
use mathlib.Core.Path.{fun_ext}
use homelab_api.Base.Dict.{Dict, lookup, insert, flag, keys, lookup-none, flag-insert}
use homelab_api.Health.{
  Transition, went_offline, came_back_online, Monitor, Event, tick, done, available, transition,
  probe_one, probe_all, probe, loop, start,
}

-- The flags that a reader of the log works out, from the flags at the start.
abbrev pub replay : List Transition → (Text → Bool) → Text → Bool
replay [] flags = flags
replay (went_offline k ∷ log) flags = replay log (λ n. if k == n then false else flags n)
replay (came_back_online k ∷ log) flags = replay log (λ n. if k == n then true else flags n)

replay-append :
    (l r : List Transition) (flags : Text → Bool)
    → replay (l ++ r) flags ≡ replay r (replay l flags)
replay-append [] r flags = refl
replay-append (went_offline k ∷ l) r flags =
    replay-append l r (λ n. if k == n then false else flags n)
replay-append (came_back_online k ∷ l) r flags =
    replay-append l r (λ n. if k == n then true else flags n)

-- The line that one probe logs tells its effect on the flags.
replay-transition :
    (k : Text) (now : Bool) (av : Dict Bool)
    → replay (transition k (flag k av) now) (λ n. flag n av) ≡ (λ n. flag n (insert k now av))
unfolding transition
replay-transition k now av = fun_ext λ n. ground (arith, flag-insert k n now av, ==_iff k n)

module _ {H : Type 0} where
  -- The answer of the backend that a name stands for; a name of no backend keeps its flag.
  abbrev pub answer : (H → Bool) → Option H → Bool → Bool
  answer ping none before = before
  answer ping (some hc) before = ping hc

  flag-probe_all :
      (ping : H → Bool) (bs : Dict H) (av : Dict Bool) (n : Text)
      → Distinct (keys bs)
      → flag n (probe_all ping bs av).0 ≡ answer ping (lookup n bs) (flag n av)
  unfolding probe_all probe_one lookup
  flag-probe_all ping [] av n d = refl
  flag-probe_all ping ((k, hc) ∷ bs) av n (fresh, d) = ground (
    arith,
    flag-probe_all ping bs (insert k (ping hc) av) n d,
    flag-insert k n (ping hc) av,
    ==_iff k n,
    lookup-none k bs fresh,
  )

  -- After a probe every backend is available exactly if its ping was answered, and a name that is
  -- no backend's is as before.
  pub available-probe :
      (ping : H → Bool) (m : Monitor H) (n : Text)
      → Distinct (keys m.backends)
      → available (probe ping m).0 n ≡ answer ping (lookup n m.backends) (available m n)
  unfolding probe available
  available-probe ping m n d = flag-probe_all ping m.backends m.availability n d

  -- The answers of the last probe that a run makes.
  abbrev pub last_answers : (H → Bool) → List (Event H) → H → Bool
  last_answers ping [] = ping
  last_answers ping (done ∷ events) = ping
  last_answers ping (tick next ∷ events) = last_answers next events

  available-loop :
      (ping : H → Bool) (events : List (Event H)) (m : Monitor H) (n : Text)
      → Distinct (keys m.backends)
      → available (loop (probe ping m).0 events).0 n
        ≡ answer (last_answers ping events) (lookup n m.backends) (available m n)
  unfolding loop probe
  available-loop ping [] m n d = available-probe ping m n d
  available-loop ping (done ∷ events) m n d = available-probe ping m n d
  available-loop ping (tick next ∷ events) m n d =
      ground (arith, available-loop next events (probe ping m).0 n d, available-probe ping m n d)

  -- However long the monitor has run, a backend is available exactly if it answered the last ping,
  -- and a name of no backend is what it was at the start.
  pub available-start :
      (ping : H → Bool) (events : List (Event H)) (m : Monitor H) (n : Text)
      → Distinct (keys m.backends)
      → available (start ping m events).0 n
        ≡ answer (last_answers ping events) (lookup n m.backends) (available m n)
  unfolding start
  available-start ping events m n d = available-loop ping events m n d

  replay-probe_all :
      (ping : H → Bool) (bs : Dict H) (av : Dict Bool)
      → replay (probe_all ping bs av).1 (λ n. flag n av) ≡ (λ n. flag n (probe_all ping bs av).0)
  unfolding probe_all probe_one
  replay-probe_all ping [] av = refl
  replay-probe_all ping ((k, hc) ∷ bs) av =
      replay-append (transition k (flag k av) (ping hc)) _ (λ n. flag n av)
      ∙ ap (replay (probe_all ping bs (insert k (ping hc) av)).1) (replay-transition k (ping hc) av)
      ∙ replay-probe_all ping bs (insert k (ping hc) av)

  replay-loop :
      (events : List (Event H)) (m : Monitor H)
      → replay (loop m events).1 (available m) ≡ available (loop m events).0
  unfolding loop probe available
  replay-loop [] m = refl
  replay-loop (done ∷ events) m = refl
  replay-loop (tick ping ∷ events) m =
      replay-append (probe ping m).1 (loop (probe ping m).0 events).1 (available m)
      ∙ ap (replay (loop (probe ping m).0 events).1)
          (replay-probe_all ping m.backends m.availability)
      ∙ replay-loop events (probe ping m).0

  -- The log of a run is complete: it leads from the flags at the start to those at the end.
  pub replay-start :
      (ping : H → Bool) (events : List (Event H)) (m : Monitor H)
      → replay (start ping m events).1 (available m) ≡ available (start ping m events).0
  unfolding start
  replay-start ping events m = replay-loop (tick ping ∷ events) m
