-- ===== src/Utf8/Bytes.antt =====
-- The bytes of UTF-8 by their class, in plain arithmetic: what each mask of the code gives.
use verda_sxtelo.Common.{
  ℕ, ◌+◌, ◌*◌, ◌%◌, ◌^◌, ◌<◌, ◌≤◌, ◌≡◌, refl, arith, Bool, true, false, not, bit_and, bit_or, ◌==◌,
  ltb, leb, ◌&&◌, ◌||◌, ◌⊎◌,
}
use verda_sxtelo.Common.Bits.{table, read_table, agree_below, agree_below_sound, or_six}

module _ (base m : ℕ) where
  -- `(base + x) & m`
  abbrev masked : ℕ → ℕ
  masked x = bit_and (base + x) m

-- A byte below 0x80.
pub ascii_mask : (b : ℕ) → b < 128 → bit_and b 0x80 ≡ 0
unfolding agree_below
ascii_mask b h = agree_below_sound 128 (λ x. bit_and x 0x80) (λ x. 0) b refl h

pub record Continuation (x : ℕ) : Type 0 where
  pub top : bit_and (0x80 + x) 0xc0 ≡ 0x80
  pub low : bit_and (0x80 + x) 0x3f ≡ x
  pub not_ascii : bit_and (0x80 + x) 0x80 ≡ 0x80

pub continuation : (x : ℕ) → x < 64 → Continuation x
unfolding agree_below
continuation x h = record {
  top = agree_below_sound 64 (masked 0x80 0xc0) (λ x. 0x80) x refl h;
  low = agree_below_sound 64 (masked 0x80 0x3f) (λ x. x) x refl h;
  not_ascii = agree_below_sound 64 (masked 0x80 0x80) (λ x. 0x80) x refl h;
}

pub record Lead2 (x : ℕ) : Type 0 where
  pub not_ascii : bit_and (0xc0 + x) 0x80 ≡ 0x80
  pub three : bit_and (0xc0 + x) 0xe0 ≡ 0xc0
  pub stop : bit_and (0xc0 + x) 0x20 ≡ 0
  pub low : bit_and (0xc0 + x) 31 ≡ x

pub lead2 : (x : ℕ) → x < 32 → Lead2 x
unfolding agree_below
lead2 x h = record {
  not_ascii = agree_below_sound 32 (masked 0xc0 0x80) (λ x. 0x80) x refl h;
  three = agree_below_sound 32 (masked 0xc0 0xe0) (λ x. 0xc0) x refl h;
  stop = agree_below_sound 32 (masked 0xc0 0x20) (λ x. 0) x refl h;
  low = agree_below_sound 32 (masked 0xc0 31) (λ x. x) x refl h;
}

pub record Lead3 (x : ℕ) : Type 0 where
  pub not_ascii : bit_and (0xe0 + x) 0x80 ≡ 0x80
  pub three : bit_and (0xe0 + x) 0xe0 ≡ 0xe0
  pub four : bit_and (0xe0 + x) 0xf0 ≡ 0xe0
  pub go : bit_and (0xe0 + x) 0x20 ≡ 0x20
  pub stop : bit_and (0xe0 + x) 0x10 ≡ 0
  pub low : bit_and (0xe0 + x) 15 ≡ x

pub lead3 : (x : ℕ) → x < 16 → Lead3 x
unfolding agree_below
lead3 x h = record {
  not_ascii = agree_below_sound 16 (masked 0xe0 0x80) (λ x. 0x80) x refl h;
  three = agree_below_sound 16 (masked 0xe0 0xe0) (λ x. 0xe0) x refl h;
  four = agree_below_sound 16 (masked 0xe0 0xf0) (λ x. 0xe0) x refl h;
  go = agree_below_sound 16 (masked 0xe0 0x20) (λ x. 0x20) x refl h;
  stop = agree_below_sound 16 (masked 0xe0 0x10) (λ x. 0) x refl h;
  low = agree_below_sound 16 (masked 0xe0 15) (λ x. x) x refl h;
}

pub record Lead4 (x : ℕ) : Type 0 where
  pub not_ascii : bit_and (0xf0 + x) 0x80 ≡ 0x80
  pub three : bit_and (0xf0 + x) 0xe0 ≡ 0xe0
  pub four : bit_and (0xf0 + x) 0xf0 ≡ 0xf0
  pub five : bit_and (0xf0 + x) 0xf8 ≡ 0xf0
  pub go : bit_and (0xf0 + x) 0x20 ≡ 0x20
  pub go_on : bit_and (0xf0 + x) 0x10 ≡ 0x10
  pub stop : bit_and (0xf0 + x) 0x08 ≡ 0
  pub low : bit_and (0xf0 + x) 7 ≡ x

pub lead4 : (x : ℕ) → x < 8 → Lead4 x
unfolding agree_below
lead4 x h = record {
  not_ascii = agree_below_sound 8 (masked 0xf0 0x80) (λ x. 0x80) x refl h;
  three = agree_below_sound 8 (masked 0xf0 0xe0) (λ x. 0xe0) x refl h;
  four = agree_below_sound 8 (masked 0xf0 0xf0) (λ x. 0xf0) x refl h;
  five = agree_below_sound 8 (masked 0xf0 0xf8) (λ x. 0xf0) x refl h;
  go = agree_below_sound 8 (masked 0xf0 0x20) (λ x. 0x20) x refl h;
  go_on = agree_below_sound 8 (masked 0xf0 0x10) (λ x. 0x10) x refl h;
  stop = agree_below_sound 8 (masked 0xf0 0x08) (λ x. 0) x refl h;
  low = agree_below_sound 8 (masked 0xf0 7) (λ x. x) x refl h;
}

-- The bytes that start nothing.
no_sequence_test : ℕ → Bool
no_sequence_test b =
    (leb 0xc0 b && ltb b 0xf8)
    || (not (bit_and b 0xe0 == 0xc0)
        && (not (bit_and b 0xf0 == 0xe0) && not (bit_and b 0xf8 == 0xf0)))

no_sequence_table : table no_sequence_test 256 ≡ true
unfolding table no_sequence_test
no_sequence_table = refl

pub no_sequence :
    (b : ℕ)
    → b < 256
    → (b < 0xc0) ⊎ (0xf8 ≤ b)
    → ((bit_and b 0xe0 == 0xc0) ≡ false)
      × ((bit_and b 0xf0 == 0xe0) ≡ false)
      × ((bit_and b 0xf8 == 0xf0) ≡ false)
unfolding no_sequence_test
no_sequence b h o = ground (arith, read_table no_sequence_test b 256 h no_sequence_table)

-- Only the bytes from 0x80 to 0xbf pass the test for a continuation.
continuation_test : ℕ → Bool
continuation_test b = not (bit_and b 0xc0 == 0x80) || (leb 0x80 b && ltb b 0xc0)

continuation_table : table continuation_test 256 ≡ true
unfolding table continuation_test
continuation_table = refl

pub is_continuation : (b : ℕ) → b < 256 → (bit_and b 0xc0 == 0x80) ≡ true → (0x80 ≤ b) × (b < 0xc0)
unfolding continuation_test
is_continuation b h e = ground (arith, read_table continuation_test b 256 h continuation_table)

-- One round of `tail_loop`, without wrap.
pub tail_value :
    (value x : ℕ)
    → value < 2 ^ 26
    → x < 64
    → bit_or (value * 64 % 2 ^ 32) (bit_and (0x80 + x) 0x3f) ≡ value * 64 + x
tail_value value x hv hx =
    let fits : value * 64 % 2 ^ 32 ≡ value * 64 = omega arith in
    rw (fits, (continuation x hx).low) (or_six value x hx)

-- What `encode` stores.
pub stored_continuation : (x : ℕ) → x < 64 → bit_or x 0x80 % 256 ≡ 0x80 + x
unfolding agree_below
stored_continuation x h = agree_below_sound 64 (λ x. bit_or x 0x80 % 256) (λ x. 0x80 + x) x refl h

pub stored_two : (x : ℕ) → x < 32 → bit_or x 0xc0 % 256 ≡ 0xc0 + x
unfolding agree_below
stored_two x h = agree_below_sound 32 (λ x. bit_or x 0xc0 % 256) (λ x. 0xc0 + x) x refl h

pub stored_three : (x : ℕ) → x < 16 → bit_or x 0xe0 % 256 ≡ 0xe0 + x
unfolding agree_below
stored_three x h = agree_below_sound 16 (λ x. bit_or x 0xe0 % 256) (λ x. 0xe0 + x) x refl h

pub stored_four : (x : ℕ) → x < 8 → bit_or x 0xf0 % 256 ≡ 0xf0 + x
unfolding agree_below
stored_four x h = agree_below_sound 8 (λ x. bit_or x 0xf0 % 256) (λ x. 0xf0 + x) x refl h

-- A byte from 0x80 on.
pub high_mask : (x : ℕ) → x < 128 → bit_and (0x80 + x) 0x80 ≡ 0x80
unfolding agree_below
high_mask x h = agree_below_sound 128 (masked 0x80 0x80) (λ x. 0x80) x refl h
