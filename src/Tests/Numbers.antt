-- ===== src/Tests/Numbers.antt =====
-- The number of a player.
use verda_sxtelo.Common.{ℕ, ◌≡◌, refl, arith, false, List, [], ◌∷◌}
use verda_sxtelo.GenerateId.{Address, random_bytes, generate_id}
use verda_sxtelo.GenerateId.Distinct.{IsAddress, generate_id-injective}

abbrev address : Address
address = record { is_ipv6 = false; port = 80 ∷ 1 ∷ []; ipv4 = 127 ∷ 0 ∷ 0 ∷ 1 ∷ []; ipv6 = [] }

address-IsAddress : IsAddress address
address-IsAddress = record {
  port_bytes = (omega arith, (omega arith, tt));
  ipv4_bytes = (omega arith, (omega arith, (omega arith, (omega arith, tt))));
  ipv6_bytes = tt;
}

abbrev got : List ℕ
got = 1 ∷ 2 ∷ 3 ∷ []

same_number : generate_id got (λ i. 7) address ≡ generate_id got (λ i. 65543) address
unfolding generate_id
same_number = refl

generate_id-injective_example : random_bytes got (λ i. 7) ≡ random_bytes got (λ i. 65543)
generate_id-injective_example =
    generate_id-injective got got (λ i. 7) (λ i. 65543) address address-IsAddress
      (omega arith, (omega arith, (omega arith, tt)))
      (omega arith, (omega arith, (omega arith, tt))) (omega arith) (omega arith) same_number
