-- ===== src/Storage/Volumes/Laws.antt =====
-- The volumes that are listed: from which devices, and that each can be looked up.
use homelab_api.Base.{
  Text, lit, ==_refl, ==_sound, true, false, Option, some, none, List, [], ◌∷◌, map, ◌≡◌, ◌≢◌, refl,
  sym, ap, ◌∙◌, All, All-In, Distinct, In, In-map, In-map_inv, find, find_of_In,
}
use homelab_api.Base.Strings.Cut.{Lacks}
use homelab_api.Base.Dict.{lookup, index_by, lookup-index_by, index_by-some}
use homelab_api.Base.Result.{ok, err, wrap, plain, err_not_found}
use homelab_api.Base.Loop.{for_each_inv, Appended-next, Appended-guard}
use homelab_api.ApiErrors.Laws.{parse_composite_id_iff}
use homelab_api.Adapters.Registry.{BackendEntry}
use homelab_api.Adapters.Registry.Laws.{names, find-In}
use homelab_api.Adapters.Listing.{Appended-or_fail}
use homelab_api.Adapters.Synology.{DsmStorageVolume, DsmStorageVolumeResponse}
use homelab_api.Storage.Volumes.{
  StorageBackend, Service, Volume, VolumeDetail, find_storage_backend, parse_volume_id, volume_id,
  map_volume, or_no_volume, build_volume_detail, is_volume, is_skipped, volumes_round,
  list_storage_volumes, get_storage_volume,
}

-- The devices' names differ, and each can stand in a composite ID.
pub record IsRoutable (s : Service) : Type 0 where
  pub distinct : Distinct (names s.storage_backends)
  pub plain_names :
      All
        (λ (e : BackendEntry StorageBackend). (e.name ≢ []) × Lacks b'.' e.name)
        s.storage_backends

module _ (s : Service) where
  -- Where an item of the list comes from.
  pub record Origin (device : Option Text) (w : Volume) : Type 0 where
    pub entry : BackendEntry StorageBackend
    pub listed : In entry s.storage_backends
    pub read : is_skipped s device entry ≡ false
    pub resp : DsmStorageVolumeResponse
    pub got : entry.backend.get_storage_volumes ≡ ok resp
    pub item : DsmStorageVolume
    pub here : In item resp.volumes
    pub built : map_volume entry.name item ≡ w

  list_storage_volumes-Origin :
      (device : Option Text) (items : List Volume) (w : Volume)
      → (list_storage_volumes s device).result ≡ ok items
      → In w items
      → Origin device w
  unfolding list_storage_volumes volumes_round
  list_storage_volumes-Origin device items w h i =
      let (entry, j, added) =
        for_each_inv (volumes_round s device) s.storage_backends items w h i in
      let (read, a) = Appended-guard w (is_skipped s device entry) _ added in
      let (resp, got, b) = Appended-or_fail w device _ _ _ entry.backend.get_storage_volumes _ a in
      let (item, here, built) =
        In-map_inv (map_volume entry.name) w resp.volumes (Appended-next w b) in
      record {
        entry = entry;
        listed = j;
        read = read;
        resp = resp;
        got = got;
        item = item;
        here = here;
        built = built;
      }

  module _ (ready : IsRoutable s) (e : BackendEntry StorageBackend)
      (i : In e s.storage_backends) where
    find_storage_backend-In : find_storage_backend s e.name ≡ ok e.backend
    unfolding find_storage_backend
    find_storage_backend-In =
        rw (find-In s.storage_backends e ready.distinct i, find_storage_backend) refl

    parse_volume_id-volume_id :
        (name : Text) → name ≢ [] → parse_volume_id (volume_id e.name name) ≡ ok (e.name, name)
    unfolding parse_volume_id volume_id
    parse_volume_id-volume_id name given =
        let (named, lacks) =
          All-In (λ (x : BackendEntry StorageBackend). (x.name ≢ []) × Lacks b'.' x.name)
            s.storage_backends e ready.plain_names i in
        (parse_composite_id_iff (lit "volume ID") (lit "device.name") _ e.name name).1
          (record { spelled = refl; no_dot = lacks; device_given = named; suffix_given = given })

  get_storage_volume_found :
      (id device name : Text) (backend : StorageBackend) (resp : DsmStorageVolumeResponse)
      (vol : Volume)
      → parse_volume_id id ≡ ok (device, name)
      → find_storage_backend s device ≡ ok backend
      → backend.get_storage_volumes ≡ ok resp
      → find (is_volume name) (map (map_volume device) resp.volumes) ≡ some vol
      → get_storage_volume s id ≡ ok (build_volume_detail resp vol)
  unfolding get_storage_volume
  get_storage_volume_found id device name backend resp vol p b c f =
      rw (p, b, c)
        (ap
          (λ (o : Option Volume). elim o [
            | some x ↦ ok (build_volume_detail resp x)
            | none ↦ err (wrap (plain (lit "volume not found: ") ∷ plain id ∷ []) err_not_found)
          ])
          f)

  is_volume-map_volume :
      (device name : Text) (vs : List DsmStorageVolume) (vol : Volume)
      → In vol (map (map_volume device) vs)
      → is_volume name vol ≡ true
      → (vol.name ≡ name) × (vol.id ≡ volume_id device name)
  unfolding is_volume map_volume
  is_volume-map_volume device name vs vol i t =
      let (v, _, built) = In-map_inv (map_volume device) vol vs i in
      let named : vol.name ≡ name = ==_sound vol.name name t in
      (
        named,
        sym (ap (λ (x : Volume). x.id) built)
            ∙ ap (volume_id device) (ap (λ (x : Volume). x.name) built ∙ named),
      )

  -- The mount path is the one of a volume of that name.
  mount_path-build_volume_detail :
      (resp : DsmStorageVolumeResponse) (v : DsmStorageVolume) (vol : Volume)
      → In v resp.volumes
      → vol.name ≡ v.id
      → (raw : DsmStorageVolume) × In raw resp.volumes
        × (raw.id ≡ vol.name)
        × (raw.vol_path ≡ (build_volume_detail resp vol).mount_path)
  unfolding build_volume_detail
  mount_path-build_volume_detail resp v vol i e =
      let (raw, found) = index_by-some (λ (x : DsmStorageVolume). x.id) resp.volumes v i in
      let (j, k) = lookup-index_by (λ (x : DsmStorageVolume). x.id) resp.volumes v.id raw found in
      (
        raw,
        j,
        k ∙ sym e,
        ap (λ (o : Option DsmStorageVolume). (or_no_volume o).vol_path)
            (sym (
              ap (λ (n : Text). lookup n (index_by (λ (x : DsmStorageVolume). x.id) resp.volumes)) e
              ∙ found)),
      )

  -- GetStorageVolume finds a volume of the ID, of the same name, with the mount path that the device
  -- reports for a volume of that name.
  abbrev pub IsFound : (device : Option Text) (w : Volume) → Origin device w → Type 0
  IsFound device w o =
      (d : VolumeDetail) × (get_storage_volume s w.id ≡ ok d)
      × (d.id ≡ w.id)
      × (d.name ≡ w.name)
      × ((raw : DsmStorageVolume) × In raw o.resp.volumes
          × (raw.id ≡ w.name)
          × (raw.vol_path ≡ d.mount_path))

  get_storage_volume-Origin :
      (device : Option Text) (w : Volume)
      → IsRoutable s
      → w.name ≢ []
      → (o : Origin device w) → IsFound device w o
  unfolding map_volume build_volume_detail is_volume
  get_storage_volume-Origin device w ready named o =
      let name : o.item.id ≡ w.name = ap (λ (x : Volume). x.name) o.built in
      let id : volume_id o.entry.name o.item.id ≡ w.id = ap (λ (x : Volume). x.id) o.built in
      let (vol, found, at, t) =
        find_of_In (is_volume o.item.id) (map_volume o.entry.name o.item)
          (map (map_volume o.entry.name) o.resp.volumes)
          (In-map (map_volume o.entry.name) o.item o.resp.volumes o.here) (==_refl o.item.id) in
      let (same_name, same_id) =
        is_volume-map_volume o.entry.name o.item.id o.resp.volumes vol at t in
      let (raw, j, k, m) = mount_path-build_volume_detail o.resp o.item vol o.here same_name in
      (
        build_volume_detail o.resp vol,
        get_storage_volume_found w.id o.entry.name o.item.id o.entry.backend o.resp vol
            (ap parse_volume_id (sym id)
              ∙ parse_volume_id-volume_id ready o.entry o.listed o.item.id (rw name named))
            (find_storage_backend-In ready o.entry o.listed) o.got found,
        same_id ∙ id,
        same_name ∙ name,
        (raw, j, k ∙ same_name ∙ name, m),
      )

  -- Every listed volume with a name is found under its ID: the detail has the same ID and name, and
  -- the mount path that its device reports for a volume of that name. The devices' names have to
  -- differ, hold no dot and not be empty.
  pub get_storage_volume-list_storage_volumes :
      (device : Option Text) (items : List Volume) (w : Volume)
      → (list_storage_volumes s device).result ≡ ok items
      → In w items
      → IsRoutable s
      → w.name ≢ []
      → (o : Origin device w) × IsFound device w o
  get_storage_volume-list_storage_volumes device items w h i ready named =
      let o = list_storage_volumes-Origin device items w h i in
      (o, get_storage_volume-Origin device w ready named o)
