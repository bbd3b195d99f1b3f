-- ===== src/Frames/Sent.antt =====
-- The frames as RFC 6455 has a client write them, and what the server does with each.
use verda_sxtelo.Common.{
  ≢→==-false, ltb→lt, ℕ, ◌+◌, ◌-◌, ◌<◌, ◌≤◌, ◌≡◌, refl, sym, ap, ◌∙◌, arith, Bool, true, false,
  some, List, [], ◌∷◌, ◌++◌, length, length-append, take, drop, drop-append, All, ltb, leb, ◌==◌,
  Bool-cases, if◌then◌else◌, inl, inr, lt→ltb-false, ◌%◌, ◌/◌,
}
use verda_sxtelo.Proto.{write_le, read_le, swap_bytes}
use verda_sxtelo.Proto.Numbers.{IsByte}
use verda_sxtelo.Frames.{read_buf_size, Header, header, from_be, read_header}
use verda_sxtelo.Frames.Mask.{masked, AreBytes, length-masked}
use verda_sxtelo.Frames.Step.{read_two, read_short, extended_long}
use mathlib.Core.List.{append_assoc}

-- The four bytes of a mask.
pub record Mask : Type 0 where
  pub m : ℕ
  pub n : ℕ
  pub o : ℕ
  pub p : ℕ
  pub bytes : AreBytes m n o p

pub record Frame : Type 0 where
  pub is_fin : Bool
  pub opcode : ℕ
  pub mask : Mask
  pub payload : List ℕ

-- A frame that the server's buffer has room for, with the longest header of a length below 2 ^ 16.
pub record IsFrame (f : Frame) : Type 0 where
  pub is_opcode : f.opcode < 16
  pub bytes : All IsByte f.payload
  pub fits : length f.payload ≤ 1016

-- The length, with the bit that says that there is a mask.
abbrev length_bytes : ℕ → List ℕ
length_bytes n = if ltb n 126 then (128 + n) ∷ [] else 254 ∷ n / 256 ∷ n % 256 ∷ []

abbrev pub mask_bytes : Mask → List ℕ
mask_bytes k = k.m ∷ k.n ∷ k.o ∷ k.p ∷ []

abbrev first_byte : Frame → ℕ
first_byte f = (if f.is_fin then 128 else 0) + f.opcode

-- What stands before the mask.
abbrev pub front : Frame → List ℕ
front f = first_byte f ∷ length_bytes (length f.payload)

abbrev pub masked_payload : Frame → List ℕ
masked_payload f = masked f.mask.m f.mask.n f.mask.o f.mask.p f.payload

abbrev pub encode : Frame → List ℕ
encode f = front f ++ (mask_bytes f.mask ++ masked_payload f)

-- The header that is read from it.
abbrev pub header_of : Frame → Header
header_of f = record {
  is_fin = f.is_fin;
  has_reserved = false;
  opcode = f.opcode;
  has_mask = true;
  payload_length = length f.payload;
  header_size = if ltb (length f.payload) 126 then 6 else 8;
}

from_be_lem : (n : ℕ) (rest : List ℕ) → n < 65536 → from_be 2 (n / 256 ∷ n % 256 ∷ rest) ≡ n
unfolding from_be swap_bytes read_le write_le
from_be_lem n rest h = omega (arith, h)

fin_bit : (b : Bool) (o : ℕ) → o < 16 → leb 128 ((if b then 128 else 0) + o) ≡ b
fin_bit true o h = ground arith
fin_bit false o h = ground arith

no_reserved : (b : Bool) (o : ℕ) → o < 16 → (((if b then 128 else 0) + o) / 16 % 8 == 0) ≡ true
no_reserved true o h = ground arith
no_reserved false o h = ground arith

opcode_bits : (b : Bool) (o : ℕ) → o < 16 → ((if b then 128 else 0) + o) % 16 ≡ o
opcode_bits true o h = omega arith
opcode_bits false o h = omega arith

header_same :
    (f : Frame) (second size n : ℕ)
    → IsFrame f
    → leb 128 second ≡ true
    → n ≡ length f.payload
    → size + 4 ≡ (header_of f).header_size
    → header (first_byte f) second n size ≡ header_of f
header_same f second size n i b e k =
    rw
      (
        fin_bit f.is_fin f.opcode i.is_opcode,
        no_reserved f.is_fin f.opcode i.is_opcode,
        opcode_bits f.is_fin f.opcode i.is_opcode,
        b,
        e,
        k,
      )
      refl

module _ (f : Frame) (rest : List ℕ) (i : IsFrame f) where
  length_short :
      ltb (length f.payload) 126 ≡ true
      → read_header (first_byte f ∷ (128 + length f.payload) ∷ rest) ≡ some (header_of f)
  length_short t =
      let l = ltb→lt (length f.payload) 126 t in
      read_short (first_byte f) (128 + length f.payload) rest
        (≢→==-false ((128 + length f.payload) % 128) 126 (omega (arith, l)))
        (≢→==-false ((128 + length f.payload) % 128) 127 (omega (arith, l)))
      ∙ ap some (
          header_same f (128 + length f.payload) 2 ((128 + length f.payload) % 128) i (ground arith)
            (omega (arith, l)) (rw t refl))

  length_long :
      ltb (length f.payload) 126 ≡ false
      → read_header (first_byte f ∷ 254 ∷ length f.payload / 256 ∷ length f.payload % 256 ∷ rest)
        ≡ some (header_of f)
  length_long t =
      let tail = length f.payload / 256 ∷ length f.payload % 256 ∷ rest in
      read_two (first_byte f) 254 tail refl
      ∙ extended_long (first_byte f) 254 tail 2 (lt→ltb-false (length tail) 2 (omega arith))
      ∙ ap some (
          header_same f 254 4 (from_be 2 tail) i refl
            (from_be_lem (length f.payload) rest (omega (arith, i.fits))) (rw t refl))

front_short :
    (f : Frame)
    → ltb (length f.payload) 126 ≡ true
    → front f ≡ first_byte f ∷ (128 + length f.payload) ∷ []
front_short f t = rw t refl

front_long :
    (f : Frame)
    → ltb (length f.payload) 126 ≡ false
    → front f ≡ first_byte f ∷ 254 ∷ length f.payload / 256 ∷ length f.payload % 256 ∷ []
front_long f t = rw t refl

read_header-front :
    (f : Frame) (rest : List ℕ) → IsFrame f → read_header (front f ++ rest) ≡ some (header_of f)
read_header-front f rest i = elim (Bool-cases (ltb (length f.payload) 126)) [
  | inl t ↦ ap (λ l. read_header (l ++ rest)) (front_short f t) ∙ length_short f rest i t
  | inr t ↦ ap (λ l. read_header (l ++ rest)) (front_long f t) ∙ length_long f rest i t
]

length-front : (f : Frame) → length (front f) + 4 ≡ (header_of f).header_size
length-front f = elim (Bool-cases (ltb (length f.payload) 126)) [
  | inl t ↦ rw t refl
  | inr t ↦ rw t refl
]

pub length-encode :
    (f : Frame) (rest : List ℕ)
    → length (encode f ++ rest) ≡ (header_of f).header_size + length f.payload + length rest
length-encode f rest = omega (
  arith,
  length-append (encode f) rest,
  length-append (front f) (mask_bytes f.mask ++ masked_payload f),
  length-front f,
  length-masked f.mask.m f.mask.n f.mask.o f.mask.p f.payload,
)

-- What the server takes for the mask and for the payload.
pub mask_there :
    (f : Frame) (rest : List ℕ)
    → take 4 (drop ((header_of f).header_size - 4) (encode f ++ rest)) ≡ mask_bytes f.mask
mask_there f rest =
    let k : (header_of f).header_size - 4 ≡ length (front f) = omega (arith, length-front f) in
    ap (λ n. take 4 (drop n (encode f ++ rest))) k
    ∙ ap (λ l. take 4 (drop (length (front f)) l))
        (append_assoc (front f) (mask_bytes f.mask ++ masked_payload f) rest)
    ∙ ap (take 4) (drop-append (front f) (mask_bytes f.mask ++ masked_payload f ++ rest))

pub payload_there :
    (f : Frame) (rest : List ℕ)
    → drop (header_of f).header_size (encode f ++ rest) ≡ masked_payload f ++ rest
payload_there f rest =
    let before = front f ++ mask_bytes f.mask in
    let k : (header_of f).header_size ≡ length before =
      omega (arith, length-front f, length-append (front f) (mask_bytes f.mask)) in
    ap (λ n. drop n (encode f ++ rest)) k
    ∙ ap (λ l. drop (length before) (l ++ rest))
        (sym (append_assoc (front f) (mask_bytes f.mask) (masked_payload f)))
    ∙ ap (drop (length before)) (append_assoc before (masked_payload f) rest)
    ∙ drop-append before (masked_payload f ++ rest)

pub read_header-encode :
    (f : Frame) (rest : List ℕ) → IsFrame f → read_header (encode f ++ rest) ≡ some (header_of f)
read_header-encode f rest i =
    ap read_header (append_assoc (front f) (mask_bytes f.mask ++ masked_payload f) rest)
    ∙ read_header-front f (mask_bytes f.mask ++ masked_payload f ++ rest) i

size_most : (f : Frame) → (header_of f).header_size ≤ 8
size_most f = elim (Bool-cases (ltb (length f.payload) 126)) [
  | inl t ↦ rw t (omega arith)
  | inr t ↦ rw t (omega arith)
]

-- The buffer has room for the frame.
pub encode-fits : (f : Frame) → IsFrame f → length (encode f) ≤ read_buf_size
encode-fits f i =
    omega (arith, i.fits, size_most f, length-encode f [], length-append (encode f) [])
