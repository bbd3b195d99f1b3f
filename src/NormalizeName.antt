-- ===== src/NormalizeName.antt =====
-- server/vsx-normalize-name.c: the name of a player, tidied in place.
-- A C string is the list of its bytes without the terminator. `none` stands for a return of false.
-- The loop writes behind the place where it reads, so it reads the name as it was given.
pub mod Steps
pub mod Tidy
pub mod Accepted
use verda_sxtelo.Common.{
  ℕ, Bool, true, false, not, ◌&&◌, ◌||◌, Option, none, some, List, [], ◌∷◌, ◌>>=◌, length, ◌==◌,
  ltb, leb, if◌then◌else◌,
}
use mathlib.Core.Option

-- `VSX_PROTO_MAX_NAME_LENGTH`
abbrev pub max_name_length : ℕ
max_name_length = 256

unfoldable pub is_space : ℕ → Bool
is_space ch = (ch == 32) || ((ch == 10) || ((ch == 13) || (ch == 9)))

unfoldable pub skip_space : List ℕ → List ℕ
unfolding is_space
skip_space [] = []
skip_space (ch ∷ src) = let rest = skip_space src in if is_space ch then rest else ch ∷ src

-- The loop, with what it writes and `got_letter`. Its inner loop over the white space that follows
-- a space is the state `in_space`.
unfoldable pub combine : Bool → List ℕ → Option (List ℕ × Bool)
unfolding is_space
combine in_space [] = some ([], false)
combine in_space (ch ∷ src) =
    let after_space = combine true src in
    let after_letter = combine false src in
    if is_space ch
    then (if in_space then after_space else Option.map (λ r. (32 ∷ r.0, r.1)) after_space)
    else if leb ch 32
    then none
    else Option.map (λ r. (ch ∷ r.0, true)) after_letter

-- `if (dst[-1] == ' ') dst--;`
unfoldable pub strip_space : List ℕ → List ℕ
strip_space [] = []
strip_space (ch ∷ []) = if ch == 32 then [] else ch ∷ []
strip_space (ch ∷ next ∷ rest) = ch ∷ strip_space (next ∷ rest)

unfoldable pub normalize_name : List ℕ → Option (List ℕ)
unfolding skip_space combine strip_space
normalize_name name = do
  r ← combine false (skip_space name)
  if not r.1
      then none
      else if ltb max_name_length (length (strip_space r.0))
      then none
      else some (strip_space r.0)
