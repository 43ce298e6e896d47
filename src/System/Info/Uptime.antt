-- ===== src/System/Info/Uptime.antt =====
-- internal/system/info_service.go: parseUptime on what the DSM prints.
use homelab_api.Base.{ℕ, ◌+◌, ◌*◌, ◌^◌, ◌<◌, Text, some, [], ◌∷◌, ◌++◌, ◌≡◌, refl, ap, arith}
use homelab_api.Base.Strings.{split}
use homelab_api.Base.Strings.Cut.{split-append, split-whole}
use homelab_api.Base.Int.{pos, wrap_int64}
use homelab_api.Base.Int.Decimal.{format, format-Lacks_colon}
use homelab_api.Base.Int.Parse.Printed.{try_parse_int-format}
use homelab_api.System.Info.{parse_uptime, uptime_of, seconds}

-- fmt.Sprintf("%d:%d:%d", h, m, s)
abbrev pub print_uptime : ℕ → ℕ → ℕ → Text
print_uptime h m s = format (pos h) ++ b':' ∷ (format (pos m) ++ b':' ∷ format (pos s))

wrap_int64-small : (n : ℕ) → n < 2 ^ 63 → wrap_int64 (pos n) ≡ pos n
unfolding wrap_int64
wrap_int64-small n h = ground arith

split-print_uptime :
    (h m s : ℕ)
    → split b':' (print_uptime h m s) ≡ format (pos h) ∷ format (pos m) ∷ format (pos s) ∷ []
split-print_uptime h m s =
    rw
      (
        split-append b':' (format (pos h)) (format (pos m) ++ b':' ∷ format (pos s))
            (format-Lacks_colon (pos h)),
        split-append b':' (format (pos m)) (format (pos s)) (format-Lacks_colon (pos m)),
        split-whole b':' (format (pos s)) (format-Lacks_colon (pos s)),
      )
      refl

-- An uptime printed as "h:m:s" is parsed to h * 3600 + m * 60 + s seconds, if they fit an int64.
pub parse_uptime-print_uptime :
    (h m s : ℕ)
    → h * 3600 + m * 60 + s < 2 ^ 63
    → parse_uptime (print_uptime h m s) ≡ some (pos (h * 3600 + m * 60 + s))
unfolding parse_uptime uptime_of seconds
parse_uptime-print_uptime h m s fits =
    rw
      (
        split-print_uptime h m s,
        try_parse_int-format h (omega arith),
        try_parse_int-format m (omega arith),
        try_parse_int-format s (omega arith),
      )
      (ap some (wrap_int64-small _ fits))
