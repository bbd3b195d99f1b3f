-- ===== src/Bitmask.antt =====
-- common/vsx-bitmask.h, with the search for the first bit that the server makes in a mask. A mask
-- is the list of its bits, from the lowest one of the first element on.
use verda_sxtelo.Common.{
  ℕ, zero, suc, ◌+◌, ◌-◌, ◌*◌, ◌/◌, Bool, true, false, ◌||◌, Option, none, some, List, [], ◌∷◌,
  get_or, set, replicate,
}

abbrev pub bits_per_element : ℕ
bits_per_element = 64

-- `VSX_BITMASK_N_ELEMENTS_FOR_SIZE`
abbrev pub n_elements_for_size : ℕ → ℕ
n_elements_for_size size = (size + bits_per_element - 1) / bits_per_element

-- A mask from `vsx_calloc`.
unfoldable pub empty : ℕ → List Bool
empty size = replicate (n_elements_for_size size * bits_per_element) false

-- A bit outside the mask would be one of the memory behind it.
unfoldable pub set_bit : List Bool → ℕ → Bool → List Bool
set_bit mask flag_num value = set mask flag_num value

unfoldable pub set_range : List Bool → ℕ → List Bool
set_range mask zero = mask
set_range [] (suc n_flags) = []
set_range (b ∷ mask) (suc n_flags) = true ∷ set_range mask n_flags

unfoldable pub get : List Bool → ℕ → Bool
get mask flag_num = get_or mask flag_num false

-- The number of the lowest bit that is set: the first element that is not zero, and `ffsl`.
unfoldable pub first_set : List Bool → Option ℕ
first_set [] = none
first_set (true ∷ mask) = some 0
first_set (false ∷ mask) = elim (first_set mask) [ none ↦ none | some n ↦ some (suc n) ]

-- Whether an element is not zero.
unfoldable pub any_set : List Bool → Bool
any_set [] = false
any_set (b ∷ mask) = b || any_set mask
