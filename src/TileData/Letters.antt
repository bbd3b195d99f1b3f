-- ===== src/TileData/Letters.antt =====
-- The tables of letters: each is the encoding of 122 characters.
use verda_sxtelo.Common.{
  ℕ, zero, suc, ◌≡◌, refl, List, [], ◌∷◌, length, All, Bool, true, ◌&&◌, ◌||◌, ltb, leb, get_elem?,
  some, arith, none-ne-some,
}
use verda_sxtelo.Utf8.Encode.{encode_all}
use verda_sxtelo.Utf8.Valid.{IsScalar}
use verda_sxtelo.TileData.{
  TileData, n_rooms, n_tiles, vsx_tile_data, eo_chars, en_chars, fr_chars, en_sv_chars,
}

scalars : List ℕ → Bool
scalars [] = true
scalars (c ∷ cs) = (ltb 0 c && ((ltb c 0xd800 || leb 0xe000 c) && ltb c 0x110000)) && scalars cs

scalar_test :
    (c : ℕ) → (ltb 0 c && ((ltb c 0xd800 || leb 0xe000 c) && ltb c 0x110000)) ≡ true → IsScalar c
scalar_test c h = record { nonzero = ground arith; no_pair = ground arith; in_range = ground arith }

and_parts : (a b : Bool) → (a && b) ≡ true → (a ≡ true) × (b ≡ true)
and_parts a b h = ground arith

scalars-sound : (cs : List ℕ) → scalars cs ≡ true → All IsScalar cs
unfolding scalars
scalars-sound [] h = tt
scalars-sound (c ∷ cs) h =
    let (a, b) = and_parts _ (scalars cs) h in (scalar_test c a, scalars-sound cs b)

-- The letters of one language.
pub record IsBag (d : TileData) : Type 0 where
  pub chars : List ℕ
  pub encoded : d.letters ≡ encode_all chars
  pub all_scalars : All IsScalar chars
  pub count : length chars ≡ n_tiles

-- Each entry of the table of languages holds the encoding of exactly 122 characters, which is
-- what filling the bag asserts.
pub vsx_tile_data-IsBag : (i : ℕ) {d : TileData} → get_elem? vsx_tile_data i ≡ some d → IsBag d
unfolding vsx_tile_data scalars eo_chars en_chars fr_chars en_sv_chars
vsx_tile_data-IsBag zero e = record {
  chars = eo_chars;
  encoded = cc;
  all_scalars = scalars-sound eo_chars refl;
  count = refl;
}
vsx_tile_data-IsBag (suc zero) e = record {
  chars = en_chars;
  encoded = cc;
  all_scalars = scalars-sound en_chars refl;
  count = refl;
}
vsx_tile_data-IsBag (suc (suc zero)) e = record {
  chars = fr_chars;
  encoded = cc;
  all_scalars = scalars-sound fr_chars refl;
  count = refl;
}
vsx_tile_data-IsBag (suc (suc (suc zero))) e = record {
  chars = en_sv_chars;
  encoded = cc;
  all_scalars = scalars-sound en_sv_chars refl;
  count = refl;
}
vsx_tile_data-IsBag (suc (suc (suc (suc i)))) {d} e = absurd (none-ne-some d e)

pub length-vsx_tile_data : length vsx_tile_data ≡ n_rooms
unfolding vsx_tile_data
length-vsx_tile_data = refl
