-- ===== src/System/Info/Tests.antt =====
-- Two devices, of which one is not available.
use homelab_api.Base.{ℕ, ◌+◌, lit, ◌==◌, none, some, List, [], ◌∷◌, map, ◌≡◌, refl, arith}
use homelab_api.Base.Int.{pos}
use homelab_api.Base.Result.{ok}
use homelab_api.Adapters.Synology.System.{DsmSystemInfoResponse, DsmSystemUtilizationResponse}
use homelab_api.System.Info.{
  SystemBackend, Service, SystemInfo, each_backend, info_item, list_system_info, system_info,
  parse_uptime, system_utilization,
}
use homelab_api.System.Info.Uptime.{print_uptime, parse_uptime-print_uptime}
use homelab_api.System.Info.Laws.{selected, list_system_info-selected, memory-system_utilization}

parse_uptime-print_uptime_example : parse_uptime (print_uptime 30 5 9) ≡ some (pos 108309)
parse_uptime-print_uptime_example = parse_uptime-print_uptime 30 5 9 (omega arith)

abbrev info : DsmSystemInfoResponse
info = record {
  firmware_ver = lit "7.2";
  model = lit "DS920";
  ram_size = pos 4096;
  up_time = lit "30:5:9";
}

abbrev utilization : DsmSystemUtilizationResponse
utilization = record {
  cpu = record { user_load = pos 3; system_load = pos 2; other_load = pos 1 };
  memory = record {
    memory_size = pos 4096;
    total_real = pos 4000;
    avail_real = pos 100;
    real_usage = pos 40;
    total_swap = pos 2000;
    avail_swap = pos 500;
  };
  network = [];
  disk = record { disk = [] };
}

abbrev backend : SystemBackend
backend = record { get_system_info = ok info; get_system_utilization = ok utilization }

abbrev service : Service
service = record {
  dsm_backends =
      record { name = lit "attic"; backend = backend }
      ∷ record { name = lit "nas"; backend = backend }
      ∷ [];
  monitor = some (λ name. name == lit "nas");
}

abbrev listed : List SystemInfo
listed = system_info (lit "nas") info ∷ []

service_listed : list_system_info service none ≡ ok listed
unfolding list_system_info each_backend info_item ◌==◌ lit
service_listed = refl

list_system_info-selected_example :
    map (λ (x : SystemInfo). x.device) listed ≡ selected service.monitor none service.dsm_backends
list_system_info-selected_example = list_system_info-selected service none listed service_listed

memory-system_utilization_example :
    let m = (system_utilization 7 (lit "nas") utilization).memory in
    (m.total_bytes ≡ pos 4096000)
    × (m.available_bytes ≡ pos 102400)
    × (m.swap_total_bytes ≡ pos 2048000)
    × ((used : ℕ) × (m.swap_used_bytes ≡ pos used) × (used + 512000 ≡ 2048000))
memory-system_utilization_example =
    memory-system_utilization 7 (lit "nas") utilization 4000 100 2000 500 refl refl refl refl
      (omega arith) (omega arith) (omega arith) (omega arith)
