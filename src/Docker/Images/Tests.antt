-- ===== src/Docker/Images/Tests.antt =====
-- The image of the sample device.
use homelab_api.Base.{lit, ◌==◌, none, [], ◌∷◌, ◌≡◌, refl, inl, inr, arith, All, sym, subst}
use homelab_api.Base.Int.{pos}
use homelab_api.Base.Strings.{has_prefix, trim_prefix}
use homelab_api.Base.Result.{ok}
use homelab_api.Base.Loop.{for_each}
use homelab_api.Adapters.Registry.{BackendEntry}
use homelab_api.Adapters.Synology.{DsmDockerImageItem}
use homelab_api.Docker.Service.{DockerBackend, docker_id}
use homelab_api.Docker.Sample.{one_device, one_device-IsRoutable, nginx}
use homelab_api.Docker.Images.{
  DockerImage, DockerImageDetail, list_images, get_image, map_docker_image, image_short_id,
}
use homelab_api.Docker.Images.Laws.{IsDigest, ReportsDigests, get_image-list_images}

abbrev listed : DockerImage
listed = record {
  id = lit "nas.0123456789ab";
  device = lit "nas";
  repository = lit "nginx";
  size = pos 100;
  tags = lit "1.27" ∷ [];
}

one_device_listed : (list_images one_device none).result ≡ ok (listed ∷ [])
unfolding list_images for_each ◌==◌ lit docker_id map_docker_image image_short_id trim_prefix
    has_prefix
one_device_listed = refl

nginx-IsDigest : IsDigest nginx.id
unfolding lit
nginx-IsDigest = record { rest = lit "0123456789abcdef"; spelled = refl; long = omega arith }

one_device-ReportsDigests : ReportsDigests one_device
one_device-ReportsDigests entry raw (inl e) got =
    let got_here : ok (nginx ∷ []) ≡ ok raw =
      subst (λ (x : BackendEntry DockerBackend). x.backend.list_docker_images ≡ ok raw) (sym e)
        got in
    let same : raw ≡ nginx ∷ [] = cc in
    subst (All (λ (img : DsmDockerImageItem). IsDigest img.id)) (sym same) (nginx-IsDigest, tt)
one_device-ReportsDigests entry raw (inr i) got = absurd i

get_image-list_images_example :
    (d : DockerImageDetail) × (get_image one_device listed.id ≡ ok d) × (d.id ≡ listed.id)
get_image-list_images_example =
    get_image-list_images one_device none (listed ∷ []) listed one_device_listed (inl refl)
      one_device-IsRoutable one_device-ReportsDigests
