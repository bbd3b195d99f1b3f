-- ===== src/Ascii.antt =====
-- common/vsx-util.h: characters without regard to the locale.
use verda_sxtelo.Common.{ℕ, ◌+◌, ◌-◌, Bool, ◌&&◌, leb, if◌then◌else◌}

-- `vsx_ascii_tolower`
unfoldable pub ascii_tolower : ℕ → ℕ
ascii_tolower ch = if leb 65 ch && leb ch 90 then ch - 65 + 97 else ch

-- `vsx_ascii_isdigit`
unfoldable pub ascii_isdigit : ℕ → Bool
ascii_isdigit ch = leb 48 ch && leb ch 57
