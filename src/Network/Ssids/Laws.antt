-- ===== src/Network/Ssids/Laws.antt =====
-- The clients of a wireless network, and the wireless networks that can be looked up.
use homelab_api.Base.{
  Text, ◌==◌, ==_sound, Bool, true, false, not, ◌&&◌, Option, some, none, List, [], ◌∷◌, ◌++◌,
  append_assoc, append-nil, filter, ◌≡◌, refl, sym, ap, ◌∙◌, if◌then◌else◌, Bool-cases, inl, inr,
  ◌⊎◌,
}
use homelab_api.Base.Dict.{Dict, lookup, lookup-insert}
use homelab_api.Adapters.UniFi.{UniFiSta}
use homelab_api.Network.Ssids.{
  or_no_clients, add_on_ssid, clients_by_ssid_from, build_clients_by_ssid,
}

-- The client is on the wireless network of that name.
abbrev pub is_on : Text → UniFiSta → Bool
is_on name c = elim c.essid [ none ↦ false | some essid ↦ not c.is_wired && essid == name ]

on_ssid : Text → UniFiSta → Option Text → List UniFiSta
on_ssid name c none = []
on_ssid name c (some essid) = if not c.is_wired && essid == name then c ∷ [] else []

lookup-add_on_ssid :
    (name : Text) (c : UniFiSta) (o : Option Text) (m : Dict (List UniFiSta))
    → or_no_clients (lookup name (add_on_ssid c o m))
      ≡ or_no_clients (lookup name m) ++ on_ssid name c o
unfolding add_on_ssid on_ssid
lookup-add_on_ssid name c none m = sym (append-nil (or_no_clients (lookup name m)))
lookup-add_on_ssid name c (some essid) m = elim (Bool-cases c.is_wired) [
  | inl w ↦ simp w (sym (append-nil (or_no_clients (lookup name m))))
  | inr n ↦
      simp n (
        ap or_no_clients (lookup-insert essid name before m)
        ∙ appended (Bool-cases (essid == name)))
]
  where
    before : List UniFiSta
    before = or_no_clients (lookup essid m) ++ c ∷ []

    appended :
        ((essid == name) ≡ true) ⊎ ((essid == name) ≡ false)
        → or_no_clients (if essid == name then some before else lookup name m)
          ≡ or_no_clients (lookup name m) ++ (if essid == name then c ∷ [] else [])
    appended (inl y) =
        rw y (ap (λ (k : Text). or_no_clients (lookup k m) ++ c ∷ []) (==_sound essid name y))
    appended (inr n) = rw n (sym (append-nil (or_no_clients (lookup name m))))

-- The same test as in `is_on`, with a list behind.
on_ssid-append :
    (name : Text) (c : UniFiSta) (o : Option Text) (l : List UniFiSta)
    → on_ssid name c o ++ l ≡ (
        if elim o [ none ↦ false | some essid ↦ not c.is_wired && essid == name ] then c ∷ l else l)
unfolding on_ssid
on_ssid-append name c none l = refl
on_ssid-append name c (some essid) l = kept (not c.is_wired && essid == name)
  where
    kept : (b : Bool) → (if b then c ∷ [] else []) ++ l ≡ (if b then c ∷ l else l)
    kept true = refl
    kept false = refl

on_ssid-filter :
    (name : Text) (c : UniFiSta) (cs : List UniFiSta)
    → on_ssid name c c.essid ++ filter (is_on name) cs ≡ filter (is_on name) (c ∷ cs)
on_ssid-filter name c cs = on_ssid-append name c c.essid (filter (is_on name) cs)

lookup-clients_by_ssid_from :
    (name : Text) (cs : List UniFiSta) (m : Dict (List UniFiSta))
    → or_no_clients (lookup name (clients_by_ssid_from cs m))
      ≡ or_no_clients (lookup name m) ++ filter (is_on name) cs
unfolding clients_by_ssid_from
lookup-clients_by_ssid_from name [] m = sym (append-nil (or_no_clients (lookup name m)))
lookup-clients_by_ssid_from name (c ∷ cs) m =
    lookup-clients_by_ssid_from name cs (add_on_ssid c c.essid m)
    ∙ ap (λ (l : List UniFiSta). l ++ filter (is_on name) cs) (lookup-add_on_ssid name c c.essid m)
    ∙ append_assoc (or_no_clients (lookup name m)) (on_ssid name c c.essid) (filter (is_on name) cs)
    ∙ ap (λ (l : List UniFiSta). or_no_clients (lookup name m) ++ l) (on_ssid-filter name c cs)

-- The index of the clients by SSID holds, under each name, exactly the wireless clients of that
-- SSID, in their order.
pub lookup-build_clients_by_ssid :
    (name : Text) (clients : List UniFiSta)
    → or_no_clients (lookup name (build_clients_by_ssid clients)) ≡ filter (is_on name) clients
unfolding build_clients_by_ssid lookup
lookup-build_clients_by_ssid name clients = lookup-clients_by_ssid_from name clients []
