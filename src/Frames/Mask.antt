-- ===== src/Frames/Mask.antt =====
-- The masking of payloads, word by word in the code and byte by byte in the WebSocket protocol.
use verda_sxtelo.Common.{
  ◌++◌, ℕ, suc, ◌+◌, ◌*◌, ◌≡◌, refl, sym, ap, ap₂, ◌∙◌, arith, List, [], ◌∷◌, All, length, bit_xor,
}
use verda_sxtelo.Common.Bits.{shifted, xor_split, xor_bound, xor_twice}
use verda_sxtelo.Proto.{write_le, read_le}
use verda_sxtelo.Proto.Numbers.{IsByte, write_le-read_le}
use verda_sxtelo.Frames.{unmask_rest, unmask_data}

-- Each byte with the next of the four bytes of the mask, round and round.
unfoldable pub masked : ℕ → ℕ → ℕ → ℕ → List ℕ → List ℕ
masked m n o p [] = []
masked m n o p (b ∷ bytes) = bit_xor b m ∷ masked n o p m bytes

abbrev pub AreBytes : ℕ → ℕ → ℕ → ℕ → Type 0
AreBytes m n o p = All IsByte (m ∷ n ∷ o ∷ p ∷ [])

bit_xor-IsByte : (a b : ℕ) → IsByte a → IsByte b → IsByte (bit_xor a b)
bit_xor-IsByte a b h l = xor_bound 8 a b h l

shifted_eight : (z : ℕ) → shifted 8 z ≡ 256 * z
shifted_eight z = omega arith

-- Exclusive or on words is that on their bytes.
xor_bytes :
    (a b x y : ℕ)
    → IsByte a
    → IsByte b
    → bit_xor (a + 256 * x) (b + 256 * y) ≡ bit_xor a b + 256 * bit_xor x y
xor_bytes a b x y h l =
    rw (sym (shifted_eight x), sym (shifted_eight y), sym (shifted_eight (bit_xor x y)))
      (xor_split 8 a b x y h l)

xor_word :
    (a b c d m n o p : ℕ)
    → AreBytes a b c d
    → AreBytes m n o p
    → write_le 4 (bit_xor (read_le (a ∷ b ∷ c ∷ d ∷ [])) (read_le (m ∷ n ∷ o ∷ p ∷ [])))
      ≡ bit_xor a m ∷ bit_xor b n ∷ bit_xor c o ∷ bit_xor d p ∷ []
unfolding read_le
xor_word a b c d m n o p (ha, (hb, (hc, (hd, _)))) (hm, (hn, (ho, (hp, _)))) =
    ap (write_le 4) (
      xor_bytes a m (b + 256 * (c + 256 * (d + 256 * 0))) (n + 256 * (o + 256 * (p + 256 * 0))) ha
        hm
      ∙ ap (λ z. bit_xor a m + 256 * z)
          (xor_bytes b n (c + 256 * (d + 256 * 0)) (o + 256 * (p + 256 * 0)) hb hn
            ∙ ap (λ z. bit_xor b n + 256 * z)
                (xor_bytes c o (d + 256 * 0) (p + 256 * 0) hc ho
                  ∙ ap (λ z. bit_xor c o + 256 * z) (xor_bytes d p 0 0 hd hp))))
    ∙ write_le-read_le (bit_xor a m ∷ bit_xor b n ∷ bit_xor c o ∷ bit_xor d p ∷ []) (
      bit_xor-IsByte a m ha hm,
      (bit_xor-IsByte b n hb hn, (bit_xor-IsByte c o hc ho, (bit_xor-IsByte d p hd hp, tt))),
    )

-- Unmasking four bytes at a time and then the rest is exclusive or of each byte with the next
-- byte of the mask, round and round, where all of them are bytes.
pub unmask_data-masked :
    (m n o p : ℕ) (bytes : List ℕ)
    → AreBytes m n o p
    → All IsByte bytes
    → unmask_data (m ∷ n ∷ o ∷ p ∷ []) bytes ≡ masked m n o p bytes
unfolding unmask_data unmask_rest masked
unmask_data-masked m n o p [] h a = refl
unmask_data-masked m n o p (b ∷ []) h a = refl
unmask_data-masked m n o p (b ∷ c ∷ []) h a = refl
unmask_data-masked m n o p (b ∷ c ∷ d ∷ []) h a = refl
unmask_data-masked m n o p (b ∷ c ∷ d ∷ e ∷ bytes) h (hb, (hc, (hd, (he, a)))) =
    ap₂ ◌++◌ (xor_word b c d e m n o p (hb, (hc, (hd, (he, tt)))) h)
      (unmask_data-masked m n o p bytes h a)

-- Masking twice with the same four bytes changes nothing.
masked_twice :
    (m n o p : ℕ) (bytes : List ℕ)
    → AreBytes m n o p
    → All IsByte bytes
    → masked m n o p (masked m n o p bytes) ≡ bytes
unfolding masked
masked_twice m n o p [] h a = refl
masked_twice m n o p (b ∷ bytes) (hm, (hn, (ho, (hp, t)))) (hb, a) =
    ap₂ ◌∷◌ (xor_twice 8 b m hb hm) (masked_twice n o p m bytes (hn, (ho, (hp, (hm, t)))) a)

pub masked-IsByte :
    (m n o p : ℕ) (bytes : List ℕ)
    → AreBytes m n o p
    → All IsByte bytes
    → All IsByte (masked m n o p bytes)
unfolding masked
masked-IsByte m n o p [] h a = tt
masked-IsByte m n o p (b ∷ bytes) (hm, (hn, (ho, (hp, t)))) (hb, a) =
    (bit_xor-IsByte b m hb hm, masked-IsByte n o p m bytes (hn, (ho, (hp, (hm, t)))) a)

pub length-masked : (m n o p : ℕ) (bytes : List ℕ) → length (masked m n o p bytes) ≡ length bytes
unfolding masked
length-masked m n o p [] = refl
length-masked m n o p (b ∷ bytes) = ap suc (length-masked n o p m bytes)

-- What the client masked with any four bytes is unmasked.
pub unmask_data_lem :
    (m n o p : ℕ) (bytes : List ℕ)
    → AreBytes m n o p
    → All IsByte bytes
    → unmask_data (m ∷ n ∷ o ∷ p ∷ []) (masked m n o p bytes) ≡ bytes
unmask_data_lem m n o p bytes h a =
    unmask_data-masked m n o p (masked m n o p bytes) h (masked-IsByte m n o p bytes h a)
    ∙ masked_twice m n o p bytes h a
