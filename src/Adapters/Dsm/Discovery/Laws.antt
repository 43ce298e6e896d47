-- ===== src/Adapters/Dsm/Discovery/Laws.antt =====
-- internal/adapters/synology.go: the capability checks against what API discovery has found.
use homelab_api.Base.{
  Text, ◌==◌, Bool, true, false, if◌then◌else◌, List, [], ◌∷◌, ◌≡◌, refl, subst, arith, any,
}
use homelab_api.Base.Dict.{Dict, flag, flag-insert, flag-nil}
use homelab_api.Base.Result.{Error, Result, ok, err}
use homelab_api.Adapters.Dsm.{SynologyClient, Web, Dsm, Outcome, good, bad, new_synology_client}
use homelab_api.Adapters.Dsm.Session.{call}
use homelab_api.Adapters.Dsm.Session.Laws.{Within, call-Within}
use homelab_api.Adapters.Dsm.Discovery.{
  discover_apis, recheck, ping, supports_api, supported_of, catalogue, conclude, fail_discovery,
  request_catalogue,
}

-- What is known of a DSM's APIs.
pub data Capability : Type 0 where
  unattempted failing : Capability
  known : List Text → Capability

abbrev pub allows : Capability → Text → Bool
allows unattempted api = true
allows failing api = false
allows (known names) api = any (λ name. name == api) names

abbrev pub is_failing : Capability → Bool
is_failing failing = true
is_failing unattempted = false
is_failing (known names) = false

abbrev pub capability_of : Outcome Error (List Text) → Capability
capability_of (good names) = known names
capability_of (bad e) = failing

-- The client stands for `c`.
pub record Shows (client : SynologyClient) (c : Capability) : Type 0 where
  pub failed : client.discovery_failed ≡ is_failing c
  pub answers : (api : Text) → supports_api client api ≡ allows c api

flag-supported_of :
    (names : List Text) (api : Text)
    → flag api (supported_of names) ≡ any (λ name. name == api) names
unfolding supported_of
flag-supported_of [] api = flag-nil api
flag-supported_of (name ∷ names) api =
    ground (arith, flag-insert name api true (supported_of names), flag-supported_of names api)

pub Shows-new :
    (name host user pass version : Text)
    → Shows (new_synology_client name host user pass version) unattempted
unfolding new_synology_client supports_api
Shows-new name host user pass version = record { failed = refl; answers = λ api. refl }

-- What a goroutine does with the client.
pub data Event : Type 0 where
  discovers : Event
  pings : Result {0} Unit → Event
  calls : (api method version : Text) → Dict Text → Event

Shows-conclude :
    (web : Web) (r : Outcome Error (List Text)) (d : Dsm)
    → Shows (conclude web r d).1.client (capability_of r)
unfolding conclude fail_discovery supports_api
Shows-conclude web (bad e) d = record { failed = refl; answers = λ api. refl }
Shows-conclude web (good names) d = record { failed = refl; answers = flag-supported_of names }

Shows-Within : (c : Capability) (d d' : Dsm) → Within 6 d d' → Shows d.client c → Shows d'.client c
unfolding supports_api
Shows-Within c d d' w s = record {
  failed = rw w.failed s.failed;
  answers = λ api. rw (w.failed, w.supported) (s.answers api);
}

module _ (web : Web) where
  unfoldable pub run : Event → Dsm → Dsm
  run discovers d = (discover_apis web d).1
  run (pings reached) d = (ping web reached d).1
  run (calls api method version extra) d = (call web api method version extra d).1

  -- What is known after a query for the catalogue.
  abbrev pub learnt : Dsm → Capability
  learnt d = capability_of (catalogue web (request_catalogue web d).0)

  -- What is known after an event, if it was `c` before: a ping asks again only after a failure.
  abbrev pub observe : Event → Dsm → Capability → Capability
  observe discovers d c = learnt d
  observe (pings (err e)) d c = c
  observe (pings (ok u)) d c = if is_failing c then learnt d else c
  observe (calls api method version extra) d c = c

  run-Shows :
      (event : Event) (d : Dsm) (c : Capability)
      → Shows d.client c
      → Shows (run event d).client (observe event d c)
  unfolding run discover_apis ping recheck
  run-Shows discovers d c s = Shows-conclude web _ _
  run-Shows (pings (err e)) d c s = s
  run-Shows (calls api method version extra) d c s =
      Shows-Within c d _ (call-Within web api method version extra d) s
  run-Shows (pings (ok u)) d c s =
      subst
        (λ b. Shows (recheck web d.client.discovery_failed d).1.client (if b then learnt d else c))
        s.failed (recheck-Shows d.client.discovery_failed s)
    where
      recheck-Shows :
          (failed : Bool)
          → Shows d.client c
          → Shows (recheck web failed d).1.client (if failed then learnt d else c)
      recheck-Shows true s = Shows-conclude web _ _
      recheck-Shows false s = s

  unfoldable pub run_all : List Event → Dsm → Dsm
  run_all [] d = d
  run_all (event ∷ events) d = run_all events (run event d)

  unfoldable pub observe_all : List Event → Dsm → Capability → Capability
  observe_all [] d c = c
  observe_all (event ∷ events) d c = observe_all events (run event d) (observe event d c)

  run_all-Shows :
      (events : List Event) (d : Dsm) (c : Capability)
      → Shows d.client c
      → Shows (run_all events d).client (observe_all events d c)
  unfolding run_all observe_all
  run_all-Shows [] d c s = s
  run_all-Shows (event ∷ events) d c s =
      run_all-Shows events (run event d) _ (run-Shows event d c s)

  -- After any calls, pings and discoveries of a new client, an API counts as supported exactly if
  -- the catalogue of the last discovery that was due lists it: none after a failed discovery, all
  -- before the first.
  pub supports_api-run_all :
      (name host user pass version : Text) (events : List Event) (api : Text)
      → let start : Dsm = record {
        client = new_synology_client name host user pass version;
        requests = [];
      } in
        supports_api (run_all events start).client api
        ≡ allows (observe_all events start unattempted) api
  supports_api-run_all name host user pass version events api =
      (run_all-Shows events _ unattempted (Shows-new name host user pass version)).answers api
