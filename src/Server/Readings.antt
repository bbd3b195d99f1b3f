-- ===== src/Server/Readings.antt =====
-- What the commands read from a payload: a language of the table, and a text that can be clipped.
use verda_sxtelo.Common.{
  ℕ, zero, suc, ◌+◌, ◌<◌, ◌≡◌, ◌∙◌, ap, subst, arith, Option-cases, some, List, [], ◌∷◌, length,
  Bool-cases, inl, inr, All,
}
use verda_sxtelo.Common.{none-ne-some, list_eq, take, drop, ◌==◌, ==-false}
use verda_sxtelo.Memory.{memchr}
use verda_sxtelo.TileData.{
  TileData, n_rooms, vsx_tile_data, language_code_from, get_for_language_code,
}
use verda_sxtelo.TileData.Letters.{length-vsx_tile_data}
use verda_sxtelo.Utf8.{is_valid_string}
use verda_sxtelo.Utf8.Sound.{IsCharByte}
use verda_sxtelo.Proto.{Item, string, string_item, read_item, read_payload}
use verda_sxtelo.Conversation.Talk.Clip.{Kept, raw_length-Kept}
use verda_sxtelo.Conversation.Grows.{bind_some, some-same}
use verda_sxtelo.Server.Arguments.{text_arg}

language_from-bound :
    (code : List ℕ) (ds : List TileData) (i d : ℕ)
    → language_code_from code ds i ≡ some d
    → d < i + length ds
unfolding language_code_from
language_from-bound code [] i d e = absurd (none-ne-some d e)
language_from-bound code (x ∷ ds) i d e = elim (Bool-cases (list_eq x.language_code code)) [
  | inl t ↦ let q : i ≡ d = some-same (rw t at e) in omega arith
  | inr t ↦ omega (arith, language_from-bound code ds (i + 1) d (rw t at e))
]

pub language-bound : (code : List ℕ) (d : ℕ) → get_for_language_code code ≡ some d → d < n_rooms
unfolding get_for_language_code
language-bound code d e =
    omega (arith, language_from-bound code vsx_tile_data 0 d e, length-vsx_tile_data)

memchr-before :
    (bytes : List ℕ) (i : ℕ)
    → memchr bytes 0 ≡ some i
    → All (λ b. b < 256) bytes
    → All IsCharByte (take i bytes)
unfolding memchr
memchr-before [] i e a = absurd (none-ne-some i e)
memchr-before (b ∷ bytes) zero e a = tt
memchr-before (b ∷ bytes) (suc i) e (h, a) = elim (Bool-cases (b == 0)) [
  | inl t ↦ let q : 0 ≡ suc i = some-same (rw t at e) in absurd (omega arith)
  | inr t ↦ elim (Option-cases (memchr bytes 0)) [
    | inl n ↦ absurd (none-ne-some (suc i) (rw (t, n) at e))
    | inr (j, n) ↦
        let q : j + 1 ≡ suc i = some-same (rw (t, n) at e) in
        let same : j ≡ i = omega arith in
        ((omega (arith, ==-false b 0 t), h), memchr-before bytes i (n ∙ ap some same) a)
  ]
]

-- The text of a message can be clipped.
pub text-Kept :
    (payload : List ℕ) (items : List Item)
    → All (λ b. b < 256) payload
    → read_payload (string ∷ []) payload ≡ some items
    → Kept (text_arg 0 items)
unfolding read_payload text_arg
text-Kept payload items a e =
    let (r, f, g) = bind_some (read_item string payload) _ items e in
    let (rest, h, k) = bind_some (read_payload [] (r.1)) _ items g in
    let (i, m, n) = bind_some (memchr payload 0) _ r f in
    elim (Bool-cases (is_valid_string (take i payload))) [
      | inr t ↦ absurd (none-ne-some r (rw t at n))
      | inl t ↦
          let q : (string_item (take i payload), drop (i + 1) payload) ≡ r =
            some-same (rw t at n) in
          let w : r.0 ∷ rest ≡ items = some-same k in
          subst (λ items. Kept (text_arg 0 items)) w
            (subst (λ (r : Item × List ℕ). Kept (text_arg 0 (r.0 ∷ rest))) q
              (raw_length-Kept (take i payload) (memchr-before payload i m a) t))
    ]
