-- ===== src/System/Updates/Warnings.antt =====
-- internal/system/updates_service.go: what a sequence of requests for updates warns about.
use homelab_api.Base.{
  Text, ℕ, Bool, true, Option, List, [], ◌∷◌, ◌++◌, In, In-append_left, In-append_right, ◌≡◌, ◌⊎◌,
  inl, inr, sym, subst,
}
use homelab_api.Base.Dict.{Dict, flag}
use homelab_api.Base.Result.{Result}
use homelab_api.Adapters.Registry.{Registry}
use homelab_api.Adapters.Synology.{DsmContainer}
use homelab_api.System.Images.{ImageSource, split_image_tag}
use homelab_api.System.Releases.{GitHubRelease}
use homelab_api.System.Scan.{DsmBackendConfig, State, ImageWarning, scanned_containers}
use homelab_api.System.Scan.Laws.{
  images, images-append, IsFreshLog, IsFreshLog-nil, IsFreshLog-append, IsUnsourced,
  scan_containers-IsFreshLog, scan_containers-recorded,
}
use homelab_api.System.Updates.{Times, Built, build_update_items}

-- A request for updates, with what the monitor, the devices and the release hosts answer meanwhile.
pub record Request : Type 0 where
  pub monitor : Option (Text → Bool)
  pub dsm_backends : Registry DsmBackendConfig
  pub fetch : Text → Text → Result GitHubRelease
  pub times : Times
  pub force_github : Bool

module _ (sources : Dict ImageSource) (ttl : ℕ) where
  abbrev pub serve : Request → State → Built
  serve r st =
      build_update_items r.fetch
        (record {
          dsm_backends = r.dsm_backends;
          monitor = r.monitor;
          sources = sources;
          update_cache_ttl = ttl;
        })
        r.times st r.force_github

  -- The warnings of the requests, in their order, and the state after the last.
  abbrev pub serve_all : List Request → State → List ImageWarning × State
  serve_all [] st = ([], st)
  serve_all (r ∷ rs) st =
      let (log, last) = serve_all rs (serve r st).state in ((serve r st).image_log ++ log, last)

  -- A request meets the container on a device that it scans.
  abbrev pub Meets : Request → DsmContainer → Type 0
  Meets r c = (device : Text) × In (device, c) (scanned_containers r.monitor r.dsm_backends)

  serve-IsFreshLog :
      (r : Request) (st : State)
      → IsFreshLog st.warned_images (serve r st).image_log (serve r st).state.warned_images
  unfolding build_update_items
  serve-IsFreshLog r st =
      scan_containers-IsFreshLog sources (scanned_containers r.monitor r.dsm_backends) []
        st.warned_images

  serve_all-IsFreshLog :
      (rs : List Request) (st : State)
      → IsFreshLog st.warned_images (serve_all rs st).0 (serve_all rs st).1.warned_images
  serve_all-IsFreshLog [] st = IsFreshLog-nil st.warned_images
  serve_all-IsFreshLog (r ∷ rs) st =
      IsFreshLog-append st.warned_images (serve r st).state.warned_images _ (serve r st).image_log _
        (serve-IsFreshLog r st) (serve_all-IsFreshLog rs (serve r st).state)

  serve-recorded :
      (r : Request) (st : State) (c : DsmContainer)
      → Meets r c
      → IsUnsourced sources c
      → flag (split_image_tag c.image).0 (serve r st).state.warned_images ≡ true
  unfolding build_update_items
  serve-recorded r st c (device, i) u =
      scan_containers-recorded sources (scanned_containers r.monitor r.dsm_backends) []
        st.warned_images device c i u

  abbrev pub Warned : List Request → State → DsmContainer → Type 0
  Warned rs st c =
      (flag (split_image_tag c.image).0 st.warned_images ≡ true)
      ⊎ In (split_image_tag c.image).0 (images (serve_all rs st).0)

  joined :
      (q : Request) (rs : List Request) (st : State) (j : Text)
      → In j (images (serve q st).image_log) ⊎ In j (images (serve_all rs (serve q st).state).0)
      → In j (images (serve_all (q ∷ rs) st).0)
  joined q rs st j i =
      let first = (serve q st).image_log in
      let later = (serve_all rs (serve q st).state).0 in
      subst (In j) (sym (images-append first later)) (elim i [
        | inl x ↦ In-append_left j (images first) (images later) x
        | inr y ↦ In-append_right j (images first) (images later) y
      ])

  earlier :
      (q : Request) (rs : List Request) (st : State) (c : DsmContainer)
      → flag (split_image_tag c.image).0 (serve q st).state.warned_images ≡ true
      → Warned (q ∷ rs) st c
  earlier q rs st c h =
      let image = (split_image_tag c.image).0 in
      elim (((serve-IsFreshLog q st).recorded image).0 h) [
        | inl before ↦ inl before
        | inr i ↦ inr (joined q rs st image (inl i))
      ]

  serve_all-Warned :
      (rs : List Request) (st : State) (r : Request) (c : DsmContainer)
      → In r rs
      → Meets r c
      → IsUnsourced sources c
      → Warned rs st c
  serve_all-Warned [] st r c i m u = absurd i
  serve_all-Warned (q ∷ rs) st r c (inl e) m u =
      earlier q rs st c (serve-recorded q st c (subst (λ (x : Request). Meets x c) (sym e) m) u)
  serve_all-Warned (q ∷ rs) st r c (inr i) m u =
      elim (serve_all-Warned rs (serve q st).state r c i m u) [
        | inl before ↦ earlier q rs st c before
        | inr later ↦ inr (joined q rs st (split_image_tag c.image).0 (inr later))
      ]

  -- Over any sequence of requests for updates, whatever the devices and the release hosts answer, no
  -- image is warned about twice, and none that had been warned about before; the state records
  -- exactly the images warned about; and every image with a version tag and without a release source
  -- that a request meets is warned about, then or before.
  pub serve_all-IsWarned :
      (rs : List Request) (st : State)
      → IsFreshLog st.warned_images (serve_all rs st).0 (serve_all rs st).1.warned_images
        × ((r : Request) (c : DsmContainer)
            → In r rs
            → Meets r c
            → IsUnsourced sources c
            → Warned rs st c)
  serve_all-IsWarned rs st =
      (serve_all-IsFreshLog rs st, λ r c i m u. serve_all-Warned rs st r c i m u)
