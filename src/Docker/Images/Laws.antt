-- ===== src/Docker/Images/Laws.antt =====
-- The Docker images that are listed: from which devices, and that each can be looked up.
use homelab_api.Base.{
  Text, lit, true, false, Option, some, none, List, [], ◌∷◌, ◌++◌, ◌≡◌, ◌≢◌, refl, sym, ap, ◌∙◌,
  arith, take, length, ltb, ◌≤◌, ◌⊎◌, In, In-map_inv, find, find_of_In, if◌then◌else◌, All, All-In,
  Bool-cases, inl, inr,
}
use homelab_api.Base.Strings.{has_prefix, trim_prefix-append}
use homelab_api.Base.Strings.Prefix.{take_all, take-append_take, has_prefix-take, prefix-cancel}
use homelab_api.Base.Result.{ok, err, wrap, plain, quoted, err_not_found}
use homelab_api.Base.Loop.{for_each_inv, Appended-next, Appended-guard}
use homelab_api.Adapters.Registry.{BackendEntry}
use homelab_api.Adapters.Listing.{Appended-or_fail}
use homelab_api.Adapters.Synology.{DsmDockerImageItem}
use homelab_api.Docker.Service.{
  DockerBackend, Service, docker_id, parse_docker_id, find_backend, is_skipped,
}
use homelab_api.Docker.Service.Laws.{
  IsRoutable, find_backend-In, parse_docker_id-docker_id, not_skipped,
}
use homelab_api.Docker.Images.{
  DockerImage, DockerImageDetail, map_docker_image, map_docker_image_detail, image_short_id,
  is_image, images_round, list_images, get_image,
}

-- "sha256:" and at least twelve more bytes, as Docker writes an image's ID.
pub record IsDigest (id : Text) : Type 0 where
  pub rest : Text
  pub spelled : id ≡ lit "sha256:" ++ rest
  pub long : 12 ≤ length rest

image_short_id-IsDigest : (id : Text) (d : IsDigest id) → image_short_id id ≡ take 12 d.rest
unfolding image_short_id
image_short_id-IsDigest id d =
    rw (d.spelled, trim_prefix-append (lit "sha256:") d.rest)
      (shortened (Bool-cases (ltb 12 (length d.rest))))
  where
    shortened :
        (ltb 12 (length d.rest) ≡ true) ⊎ (ltb 12 (length d.rest) ≡ false)
        → (if ltb 12 (length d.rest) then take 12 d.rest else d.rest) ≡ take 12 d.rest
    shortened (inl y) = rw y refl
    shortened (inr n) = rw n (sym (take_all 12 d.rest (ground arith)))

is_image_self :
    (img : DsmDockerImageItem) → IsDigest img.id → is_image (image_short_id img.id) img ≡ true
unfolding is_image
is_image_self img d =
    rw (image_short_id-IsDigest img.id d, d.spelled) (has_prefix-take (lit "sha256:") 12 d.rest)

-- An image found by a short ID has that short ID.
is_image-short_id :
    (img found : DsmDockerImageItem)
    → IsDigest img.id
    → IsDigest found.id
    → is_image (image_short_id img.id) found ≡ true
    → image_short_id found.id ≡ image_short_id img.id
unfolding is_image
is_image-short_id img found d f h =
    let h' : has_prefix (lit "sha256:" ++ f.rest) (lit "sha256:" ++ take 12 d.rest) ≡ true =
      rw (← f.spelled, ← image_short_id-IsDigest img.id d) h in
    image_short_id-IsDigest found.id f
    ∙ ap (take 12) (prefix-cancel (lit "sha256:") (take 12 d.rest) f.rest h')
    ∙ take-append_take 12 d.rest _ d.long
    ∙ sym (image_short_id-IsDigest img.id d)

module _ (s : Service) where
  -- The IDs that the backends report for their images are digests.
  abbrev pub ReportsDigests : Type 0
  ReportsDigests =
      (entry : BackendEntry DockerBackend) (raw : List DsmDockerImageItem)
      → In entry s.backends
      → entry.backend.list_docker_images ≡ ok raw
      → All (λ (img : DsmDockerImageItem). IsDigest img.id) raw

  -- Where an item of the list comes from.
  record Origin (device : Option Text) (w : DockerImage) : Type 0 where
    entry : BackendEntry DockerBackend
    listed : In entry s.backends
    read : is_skipped s device entry ≡ false
    raw : List DsmDockerImageItem
    got : entry.backend.list_docker_images ≡ ok raw
    item : DsmDockerImageItem
    here : In item raw
    built : map_docker_image entry.name item ≡ w

  list_images-Origin :
      (device : Option Text) (items : List DockerImage) (w : DockerImage)
      → (list_images s device).result ≡ ok items
      → In w items
      → Origin device w
  unfolding list_images images_round
  list_images-Origin device items w h i =
      let (entry, j, added) = for_each_inv (images_round s device) s.backends items w h i in
      let (read, a) = Appended-guard w (is_skipped s device entry) _ added in
      let (raw, got, b) = Appended-or_fail w device _ _ _ entry.backend.list_docker_images _ a in
      let (item, here, built) =
        In-map_inv (map_docker_image entry.name) w raw (Appended-next w b) in
      record {
        entry = entry;
        listed = j;
        read = read;
        raw = raw;
        got = got;
        item = item;
        here = here;
        built = built;
      }

  get_image_found :
      (id device short_id : Text) (backend : DockerBackend) (raw : List DsmDockerImageItem)
      (img : DsmDockerImageItem)
      → parse_docker_id id ≡ ok (device, short_id)
      → find_backend s device ≡ ok backend
      → backend.list_docker_images ≡ ok raw
      → find (is_image short_id) raw ≡ some img
      → get_image s id ≡ ok (map_docker_image_detail device img)
  unfolding get_image
  get_image_found id device short_id backend raw img p b c f =
      rw (p, b, c)
        (ap
          (λ (o : Option DsmDockerImageItem). elim o [
            | some x ↦ ok (map_docker_image_detail device x)
            | none ↦ err (
                wrap (plain (lit "image ") ∷ quoted id ∷ plain (lit " not found") ∷ [])
                  err_not_found)
          ])
          f)

  short_id_given : (img : DsmDockerImageItem) → IsDigest img.id → image_short_id img.id ≢ []
  short_id_given img d e = not_empty d.rest d.long (sym (image_short_id-IsDigest img.id d) ∙ e)
    where
      not_empty : (t : Text) → 12 ≤ length t → take 12 t ≡ [] → ⊥
      not_empty [] l e' = omega arith
      not_empty (c ∷ t) l e' = cc

  get_image-Origin :
      (device : Option Text) (w : DockerImage)
      → IsRoutable s
      → ReportsDigests
      → Origin device w
      → (d : DockerImageDetail) × (get_image s w.id ≡ ok d) × (d.id ≡ w.id)
  unfolding map_docker_image map_docker_image_detail
  get_image-Origin device w ready digests o =
      let id : docker_id o.entry.name (image_short_id o.item.id) ≡ w.id =
        ap (λ (x : DockerImage). x.id) o.built in
      let all_digests = digests o.entry o.raw o.listed o.got in
      let digest =
        All-In (λ (img : DsmDockerImageItem). IsDigest img.id) o.raw o.item all_digests o.here in
      let (img, found, at, t) =
        find_of_In (is_image (image_short_id o.item.id)) o.item o.raw o.here
          (is_image_self o.item digest) in
      (
        map_docker_image_detail o.entry.name img,
        get_image_found w.id o.entry.name (image_short_id o.item.id) o.entry.backend o.raw img
            (ap parse_docker_id (sym id)
              ∙ parse_docker_id-docker_id s ready o.entry o.listed (image_short_id o.item.id)
                  (short_id_given o.item digest))
            (find_backend-In s ready o.entry o.listed (not_skipped s device o.entry o.read).1) o.got
            found,
        ap (docker_id o.entry.name) (
              is_image-short_id o.item img digest
                (All-In (λ (x : DsmDockerImageItem). IsDigest x.id) o.raw img all_digests at) t)
            ∙ id,
      )

  -- Every listed image is found under its ID, and what is found has that ID, if the backends report
  -- digests, and the devices' names differ, hold no dot and are not empty.
  pub get_image-list_images :
      (device : Option Text) (items : List DockerImage) (w : DockerImage)
      → (list_images s device).result ≡ ok items
      → In w items
      → IsRoutable s
      → ReportsDigests
      → (d : DockerImageDetail) × (get_image s w.id ≡ ok d) × (d.id ≡ w.id)
  get_image-list_images device items w h i ready digests =
      get_image-Origin device w ready digests (list_images-Origin device items w h i)
