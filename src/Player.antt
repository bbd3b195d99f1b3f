-- ===== src/Player.antt =====
-- server/vsx-player.c and vsx-player.h: a player of a conversation and its flags.
pub mod Flags
use verda_sxtelo.Common.{ℕ, ◌-◌, ◌^◌, Bool, not, List, bit_and, bit_or, ◌==◌, if◌then◌else◌}

-- `VsxPlayer`. The name is its bytes, without the terminator.
pub record Player : Type 0 where
  pub num : ℕ
  pub flags : ℕ
  pub name : List ℕ

-- `VsxPlayerFlags`
abbrev pub connected : ℕ
connected = 1

abbrev pub typing : ℕ
typing = 2

abbrev pub next_turn : ℕ
next_turn = 4

unfoldable pub flags_connected : ℕ → Bool
flags_connected f = not (bit_and f connected == 0)

unfoldable pub flags_typing : ℕ → Bool
flags_typing f = not (bit_and f typing == 0)

unfoldable pub flags_next_turn : ℕ → Bool
flags_next_turn f = not (bit_and f next_turn == 0)

abbrev pub is_connected : Player → Bool
is_connected p = flags_connected p.flags

abbrev pub is_typing : Player → Bool
is_typing p = flags_typing p.flags

abbrev pub has_next_turn : Player → Bool
has_next_turn p = flags_next_turn p.flags

unfoldable pub new : List ℕ → ℕ → Player
new player_name num = record { num = num; flags = connected; name = player_name }

-- `flags | flag` or `flags & ~flag`, on 32 bits.
unfoldable pub change_flag : ℕ → ℕ → Bool → ℕ
change_flag f flag value = if value then bit_or f flag else bit_and f (2 ^ 32 - 1 - flag)
