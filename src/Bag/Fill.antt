-- ===== src/Bag/Fill.antt =====
-- Filling the bag from letters that are characters: it succeeds, and the bag holds those letters.
use verda_sxtelo.Common.{
  ℕ, zero, suc, ◌^◌, ◌<◌, ◌≡◌, refl, ◌∙◌, arith, some, List, [], ◌∷◌, ◌++◌, map, length,
  length-append, length-map, take-append, All,
}
use verda_sxtelo.Common.Int.{pos, negsuc}
use verda_sxtelo.Tile.{Tile}
use verda_sxtelo.TileData.{n_tiles}
use verda_sxtelo.Utf8.{encode, next}
use verda_sxtelo.Utf8.Encode.{encode_all, next_width-encode, next-encode, length-encode_pos}
use verda_sxtelo.Utf8.Valid.{IsScalar}
use verda_sxtelo.Bag.{letter_tile, fill, init_tile_data, shuffle_tiles}
use verda_sxtelo.Bag.Shuffle.{shuffle_tiles-perm, length-shuffle_tiles}
use mathlib.Core.List.{Perm}
use mathlib.Core.Option

-- A tile of the bag: it is not on the board yet and no player has moved it.
pub fresh_tile : ℕ → Tile
fresh_tile ch = record { x = pos 0; y = pos 0; last_player = negsuc 0; letter = encode ch }

fill_step :
    (left : ℕ) (t : List ℕ)
    → 0 < length t
    → fill (suc left) t ≡ Option.map (◌∷◌ (letter_tile t)) (fill left (next t))
unfolding fill
fill_step left [] h = absurd (omega arith)
fill_step left (b ∷ t) h = refl

letter_tile-encode :
    (ch : ℕ) (rest : List ℕ) → ch < 2 ^ 21 → letter_tile (encode ch ++ rest) ≡ fresh_tile ch
unfolding letter_tile fresh_tile
letter_tile-encode ch rest h = rw (next_width-encode ch rest h, take-append (encode ch) rest)

fill-encode :
    (n ch : ℕ) (rest : List ℕ)
    → ch < 2 ^ 21
    → fill (suc n) (encode ch ++ rest) ≡ Option.map (◌∷◌ (fresh_tile ch)) (fill n rest)
fill-encode n ch rest h =
    fill_step n (encode ch ++ rest)
      (omega (arith, length-append (encode ch) rest, length-encode_pos ch))
    ∙ rw (letter_tile-encode ch rest h, next-encode ch rest h)

fill-encode_all :
    (n : ℕ) (chs : List ℕ)
    → All IsScalar chs
    → length chs ≡ n
    → fill n (encode_all chs) ≡ some (map fresh_tile chs)
unfolding encode_all
fill-encode_all zero [] a h = unfold fill in refl
fill-encode_all (suc n) [] a h = absurd (omega arith)
fill-encode_all zero (ch ∷ chs) a h = absurd (omega arith)
fill-encode_all (suc n) (ch ∷ chs) (s, a) h =
    fill-encode n ch (encode_all chs) (omega arith) ∙ rw (fill-encode_all n chs a (omega arith))

-- With letters that are 122 characters, filling the bag meets no failed assertion, and whatever
-- rand () returns the bag holds a tile for each of the letters, as often as the letter is there.
pub init_tile_data-perm :
    (rand : ℕ → ℕ) (chs : List ℕ)
    → All IsScalar chs
    → length chs ≡ n_tiles
    → (tiles : List Tile) × (init_tile_data rand (encode_all chs) ≡ some tiles)
      × Perm tiles (map fresh_tile chs)
      × (length tiles ≡ n_tiles)
unfolding init_tile_data
init_tile_data-perm rand chs a h = (
  shuffle_tiles rand (map fresh_tile chs),
  rw (fill-encode_all n_tiles chs a h),
  shuffle_tiles-perm rand (map fresh_tile chs),
  length-shuffle_tiles rand (map fresh_tile chs) ∙ length-map chs fresh_tile ∙ h,
)
