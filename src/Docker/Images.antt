-- ===== src/Docker/Images.antt =====
-- internal/docker/images_service.go: the Docker images.
-- Nil tags show as the empty list. A time is its number of Unix seconds.
pub mod Laws
mod Tests
use homelab_api.Base.{
  Text, ◌==◌, lit, Bool, not, if◌then◌else◌, Option, some, none, List, [], ◌∷◌, ◌++◌, map, find,
  length, take, ltb,
}
use homelab_api.Base.Int.{ℤ}
use homelab_api.Base.Strings.{has_prefix, trim_prefix}
use homelab_api.Base.Result.{plain, quoted, Result, ok, err, ◌>>=◌, wrapping, wrap, err_not_found}
use homelab_api.Base.Loop.{Round, next, skip, Logged, for_each}
use homelab_api.Adapters.Registry.{BackendEntry}
use homelab_api.Adapters.Listing.{or_fail}
use homelab_api.Adapters.Synology.{DsmDockerImageItem}
use homelab_api.Docker.Service.{
  DockerBackend, Service, find_backend, parse_docker_id, docker_id, is_skipped, from_backend,
}

pub record DockerImage : Type 0 where
  pub id : Text
  pub device : Text
  pub repository : Text
  pub size : ℤ
  pub tags : List Text

pub record DockerImageDetail : Type 0 where
  pub id : Text
  pub device : Text
  pub repository : Text
  pub size : ℤ
  pub virtual_size : ℤ
  pub tags : List Text
  pub created : ℤ
  pub description : Option Text

pub image_short_id : Text → Text
image_short_id full_id =
    let s = trim_prefix full_id (lit "sha256:") in if ltb 12 (length s) then take 12 s else s

map_docker_image : Text → DsmDockerImageItem → DockerImage
map_docker_image device img = record {
  id = docker_id device (image_short_id img.id);
  device = device;
  repository = img.repository;
  size = img.size;
  tags = img.tags;
}

map_docker_image_detail : Text → DsmDockerImageItem → DockerImageDetail
map_docker_image_detail device img = record {
  id = docker_id device (image_short_id img.id);
  device = device;
  repository = img.repository;
  size = img.size;
  virtual_size = img.virtual_size;
  tags = img.tags;
  created = img.created;
  description = if not (img.description == []) then some img.description else none;
}

-- `strings.HasPrefix(img.ID, "sha256:"+shortID)`
is_image : Text → DsmDockerImageItem → Bool
is_image short_id img = has_prefix img.id (lit "sha256:" ++ short_id)

module _ (s : Service) where
  images_round : Option Text → BackendEntry DockerBackend → Round DockerImage
  images_round device entry =
      if is_skipped s device entry
      then skip
      else or_fail device (from_backend (lit "list docker images") entry.name)
          (lit "skipping backend on list docker images error") entry.name
          entry.backend.list_docker_images (λ raw. next (map (map_docker_image entry.name) raw) [])

  pub list_images : Option Text → Logged (List DockerImage)
  unfolding images_round
  list_images device = for_each (images_round device) s.backends

  pub get_image : Text → Result DockerImageDetail
  unfolding is_image
  get_image image_id = do
    (device, short_id) ← parse_docker_id image_id
    backend ← find_backend s device
    raw ← wrapping (plain (lit "list docker images") ∷ []) backend.list_docker_images
    elim (find (is_image short_id) raw) [
      | some img ↦ ok (map_docker_image_detail device img)
      | none ↦ err (
          wrap (plain (lit "image ") ∷ quoted image_id ∷ plain (lit " not found") ∷ [])
            err_not_found)
    ]
