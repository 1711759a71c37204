-- ===== src/Ipv6/Mask.antt =====
-- The subnet mask of ipv6.h, and the host bits that it leaves.
use native.Mathlib.Nat.{pow-le-pow_right, one-le-pow, div-add-mod', mod-lt}
use protovalidate_cc.Base.Bits.{bit_and-ones}
use protovalidate_cc.Base.{
  ℕ, ◌+◌, ◌-◌, ◌*◌, ◌/◌, ◌%◌, ◌^◌, ◌≤◌, ◌≡◌, refl, sym, ap, ◌∙◌, true, bit_and, ◌==◌, ==_iff, arith,
  all_below, all_below_lem,
}
use protovalidate_cc.Ipv6.{Ipv6Prefix, mask}

length_mask : ℕ → ℕ
length_mask n = mask (record { bits = 0; prefix_length = n })

mask_table : all_below 129 (λ n. length_mask n == 2 ^ 128 - 2 ^ (128 - n)) ≡ true
unfolding all_below mask length_mask
mask_table = refl

-- The mask depends on the length only.
mask-length_mask : (p : Ipv6Prefix) → mask p ≡ length_mask p.prefix_length
unfolding mask length_mask
mask-length_mask p = refl

-- The mask has a one for each bit of the routing prefix, from the top, and zeros below; the length
-- 0 shifts all of the bits out.
pub ipv6_mask_lem :
    (p : Ipv6Prefix) → p.prefix_length ≤ 128 → mask p ≡ 2 ^ 128 - 2 ^ (128 - p.prefix_length)
ipv6_mask_lem p h =
    mask-length_mask p
    ∙ (==_iff (length_mask p.prefix_length) (2 ^ 128 - 2 ^ (128 - p.prefix_length))).0 (
        all_below_lem 129 (λ n. length_mask n == 2 ^ 128 - 2 ^ (128 - n)) p.prefix_length mask_table
          (omega arith))

-- For a length up to 128, the bits of an IPv6 prefix that its mask leaves out are its bits
-- modulo the size of the host part.
pub ipv6_host_bits :
    (p : Ipv6Prefix)
    → p.prefix_length ≤ 128
    → bit_and p.bits (2 ^ 128 - 1 - mask p) ≡ p.bits % 2 ^ (128 - p.prefix_length)
ipv6_host_bits p h =
    let k = 128 - p.prefix_length in
    let pos : 1 ≤ 2 ^ k = one-le-pow k 2 (omega arith) in
    let below : 2 ^ k ≤ 2 ^ 128 =
      pow-le-pow_right {n = 2} (omega arith) {i = k} {j = 128} (omega arith) in
    let ones : 2 ^ 128 - 1 - mask p ≡ 2 ^ k - 1 = omega (arith, ipv6_mask_lem p h) in
    let parts : p.bits / 2 ^ k * 2 ^ k + p.bits % 2 ^ k ≡ p.bits = div-add-mod' p.bits (2 ^ k) in
    ap (λ m. bit_and p.bits m) ones
    ∙ ap (λ b. bit_and b (2 ^ k - 1)) (sym parts)
    ∙ bit_and-ones k (p.bits / 2 ^ k) (p.bits % 2 ^ k) (mod-lt p.bits pos)
