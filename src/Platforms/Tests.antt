-- ===== src/Platforms/Tests.antt =====
-- Runs of the platform parser, and its round trip at a concrete text.
use wudup.Prelude.{codes, ◌≡◌, refl, none, some}
use wudup.Prelude.Unicode.{ascii}
use wudup.Platforms.{ImagePlatform, value, parse_platform, platform_value}
use wudup.Platforms.RoundTrip.{parse_platform-roundtrip}

abbrev arm : ImagePlatform
arm = record { os = codes "linux"; architecture = codes "arm64"; variant = codes "v8" }

arm_parsed : parse_platform ascii (codes " Linux/ARM64 / v8 ") ≡ some arm
unfolding parse_platform
arm_parsed = refl

arm_value : platform_value (some arm) ≡ codes "linux/arm64/v8"
unfolding platform_value value
arm_value = refl

refused :
    (parse_platform ascii (codes "linux") ≡ none)
    × (parse_platform ascii (codes "linux/arm64/") ≡ none)
    × (parse_platform ascii (codes "unknown/amd64") ≡ none)
unfolding parse_platform
refused = (refl, refl, refl)

parse_platform-roundtrip_example : parse_platform ascii (value arm) ≡ some arm
parse_platform-roundtrip_example =
    parse_platform-roundtrip ascii (codes " Linux/ARM64 / v8 ") arm arm_parsed
