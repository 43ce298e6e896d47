-- ===== src/Adapters/Dsm/Sharing/Example.antt =====
-- Two goroutines hold the session "a" when it expires: the first logs in again, and the second does
-- not clear the new session.
use homelab_api.Base.{Text, lit, ◌==◌, true, false, [], ◌∷◌, ◌≢◌, refl}
use homelab_api.Adapters.Dsm.Session.{invalidated}
use homelab_api.Adapters.Dsm.Sharing.{
  System, Reach, IsKept, Reach-IsKept, init, start, later, pick, cached, missing, login, expired,
  invalidate, update, logging_in, requesting, invalidating, ensuring,
}

abbrev a : Text
a = lit "a"

abbrev b : Text
b = lit "b"

a_filled : a ≢ []
unfolding lit
a_filled = λ e. cc

-- Goroutine 0 logs in as "a", goroutine 1 finds "a" cached, and both are told that it has expired.
abbrev both_expired : System
both_expired = record {
  shared = record { sid = a; issued = a ∷ []; rejected = a ∷ a ∷ [] };
  pc =
      update
        (update
          (update (update (update init.pc 0 (logging_in true)) 0 (requesting true a)) 1
            (requesting true a))
          0 (invalidating a))
        1 (invalidating a);
}

both_expired-Reach : Reach both_expired
both_expired-Reach =
    later
      (later
        (later (later (later start (pick 0 (missing refl))) (pick 0 (login a refl)))
          (pick 1 (cached a_filled)))
        (pick 0 expired))
      (pick 1 expired)

-- Goroutine 0 invalidates "a" and logs in as "b"; then goroutine 1 invalidates "a".
abbrev kept_b : System
kept_b = record {
  shared = record { sid = b; issued = b ∷ a ∷ []; rejected = a ∷ a ∷ [] };
  pc =
      update
        (update (update (update both_expired.pc 0 (ensuring false)) 0 (logging_in false)) 0
          (requesting false b))
        1 (ensuring false);
}

kept_b-Reach : Reach kept_b
unfolding invalidated ◌==◌ lit
kept_b-Reach =
    later
      (later (later (later both_expired-Reach (pick 0 invalidate)) (pick 0 (missing refl)))
        (pick 0 (login b refl)))
      (pick 1 invalidate)

Reach-IsKept_example : IsKept kept_b.shared
Reach-IsKept_example = Reach-IsKept kept_b-Reach
