-- ===== src/Tests/Codecs.antt =====
-- Identifiers in URLs and base64.
use verda_sxtelo.Common.{ℕ, ◌≡◌, refl, arith, some, none, List, [], ◌∷◌, ◌++◌, All}
use verda_sxtelo.Common.Chars.{codes}
use verda_sxtelo.IdUrl.{decode, encode_url}
use verda_sxtelo.IdUrl.RoundTrip.{decode-encode_url}
use verda_sxtelo.Base64
use verda_sxtelo.Base64.{
  Base64Data, End, done, padding_error, decode_start, decode_end, encode_base64,
}
use verda_sxtelo.Base64.Stream.{then_decode, decode-append}
use verda_sxtelo.Base64.RoundTrip.{IsByte, decode-encode_base64}

decode-encode_url_example : decode (encode_url 0xfedcba9876543210) ≡ some 0xfedcba9876543210
decode-encode_url_example = decode-encode_url 0xfedcba9876543210 (omega arith)

-- The scheme and the host are read without regard to case, and no bit may be left over.
shouted_url : decode (codes "HTTP://Gemelo.ORG/j/AAAAAAAAAAB") ≡ some 1
unfolding decode
shouted_url = refl

too_big : decode (codes "https://gemelo.org/j/AAAAAAAAAAQ") ≡ none
unfolding decode
too_big = refl

abbrev four_bytes : List ℕ
four_bytes = 0 ∷ 255 ∷ 128 ∷ 7 ∷ []

four_in_base64 : encode_base64 four_bytes ≡ codes "AP+ABw=="
unfolding encode_base64
four_in_base64 = refl

four_bytes-IsByte : All IsByte four_bytes
four_bytes-IsByte = omega arith

decode-encode_base64_example :
    (after : Base64Data) × (out : List ℕ) × (rest : List ℕ) × (Base64.decode decode_start
        (encode_base64 four_bytes)
      ≡ (after, some out))
    × (decode_end after ≡ done rest)
    × (out ++ rest ≡ four_bytes)
decode-encode_base64_example = decode-encode_base64 four_bytes four_bytes-IsByte

decode-append_example :
    Base64.decode decode_start (codes "AP+AB" ++ codes "w==")
    ≡ then_decode (Base64.decode decode_start (codes "AP+AB")) (codes "w==")
decode-append_example = decode-append decode_start (codes "AP+AB") (codes "w==")

-- Bits that the padding cuts off must be zero.
cut_bits : decode_end (Base64.decode decode_start (codes "AP+ABx==")).0 ≡ padding_error
unfolding decode_end Base64.decode decode_start
cut_bits = refl
