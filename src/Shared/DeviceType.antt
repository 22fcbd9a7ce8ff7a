-- ===== src/Shared/DeviceType.antt =====
-- shared/constants.ts: `DeviceType`, and the display names of api/auth-requests.ts.
use vaultur.Prelude.{ℕ, zero, suc, String, List, [], ◌∷◌}

abbrev pub unknown_browser : ℕ
unknown_browser = 14

-- The names in the order of the enumeration, from `Android = 0` to `LinuxCLI = 25`.
abbrev display_names : List String
display_names =
    "Android" ∷ "iOS" ∷ "Chrome Extension" ∷ "Firefox Extension" ∷ "Opera Extension"
    ∷ "Edge Extension" ∷ "Windows" ∷ "macOS" ∷ "Linux" ∷ "Chrome" ∷ "Firefox" ∷ "Opera" ∷ "Edge"
    ∷ "Internet Explorer" ∷ "Unknown Browser" ∷ "Android" ∷ "UWP" ∷ "Safari" ∷ "Vivaldi"
    ∷ "Vivaldi Extension" ∷ "Safari Extension" ∷ "SDK" ∷ "Server" ∷ "Windows CLI" ∷ "macOS CLI"
    ∷ "Linux CLI" ∷ []

name_at : List String → ℕ → String
name_at [] n = "Unknown Browser"
name_at (s ∷ ss) zero = s
name_at (s ∷ ss) (suc n) = name_at ss n

-- `deviceTypeName`
pub device_type_name : ℕ → String
device_type_name atype = name_at display_names atype
