-- ===== src/Person.antt =====
-- server/vsx-person.c and vsx-person.h: a player as the server remembers it, whatever connection
-- the player uses. Times are microseconds of the monotonic clock.
use verda_sxtelo.Common.{ℕ, ◌-◌, ◌*◌, Bool, ltb}

-- `VsxPerson`. The pointers are the index of the conversation and the number of the player in it.
pub record Person : Type 0 where
  pub id : ℕ
  pub conversation : ℕ
  pub player_num : ℕ
  pub last_noise_time : ℕ
  pub message_offset : ℕ

-- `VSX_PERSON_SILENCE_TIME`
abbrev pub silence_time : ℕ
silence_time = 60 * 5 * 1000000

unfoldable pub make_noise : ℕ → Person → Person
make_noise clock person = record person { last_noise_time = clock }

-- The clock never goes backwards, so the difference is not negative.
unfoldable pub is_silent : ℕ → Person → Bool
is_silent clock person = ltb silence_time (clock - person.last_noise_time)
