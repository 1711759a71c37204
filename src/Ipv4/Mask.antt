-- ===== src/Ipv4/Mask.antt =====
-- The subnet mask of ipv4.h, and the host bits that it leaves.
use native.Mathlib.Nat.{pow-le-pow_right, one-le-pow, div-add-mod', mod-lt}
use protovalidate_cc.Base.Bits.{bit_and-ones}
use protovalidate_cc.Base.{
  ℕ, ◌+◌, ◌-◌, ◌*◌, ◌/◌, ◌%◌, ◌^◌, ◌≤◌, ◌≡◌, refl, sym, ap, ◌∙◌, true, bit_and, ◌==◌, ==_iff, arith,
  all_below, all_below_lem,
}
use protovalidate_cc.Ipv4.{Ipv4Prefix, mask}

length_mask : ℕ → ℕ
length_mask n = mask (record { bits = 0; prefix_length = n })

mask_table : all_below 33 (λ n. length_mask n == 2 ^ 32 - 2 ^ (32 - n)) ≡ true
unfolding all_below mask length_mask
mask_table = refl

-- The mask depends on the length only.
mask-length_mask : (p : Ipv4Prefix) → mask p ≡ length_mask p.prefix_length
unfolding mask length_mask
mask-length_mask p = refl

-- The mask has a one for each bit of the routing prefix, from the top, and zeros below; the length
-- 0, which would shift by the whole width, gives the empty mask.
pub ipv4_mask_lem :
    (p : Ipv4Prefix) → p.prefix_length ≤ 32 → mask p ≡ 2 ^ 32 - 2 ^ (32 - p.prefix_length)
ipv4_mask_lem p h =
    mask-length_mask p
    ∙ (==_iff (length_mask p.prefix_length) (2 ^ 32 - 2 ^ (32 - p.prefix_length))).0 (
        all_below_lem 33 (λ n. length_mask n == 2 ^ 32 - 2 ^ (32 - n)) p.prefix_length mask_table
          (omega arith))

-- For a length up to 32, the bits of an IPv4 prefix that its mask leaves out are its bits modulo
-- the size of the host part.
pub ipv4_host_bits :
    (p : Ipv4Prefix)
    → p.prefix_length ≤ 32
    → bit_and p.bits (2 ^ 32 - 1 - mask p) ≡ p.bits % 2 ^ (32 - p.prefix_length)
ipv4_host_bits p h =
    let k = 32 - p.prefix_length in
    let pos : 1 ≤ 2 ^ k = one-le-pow k 2 (omega arith) in
    let below : 2 ^ k ≤ 2 ^ 32 =
      pow-le-pow_right {n = 2} (omega arith) {i = k} {j = 32} (omega arith) in
    let ones : 2 ^ 32 - 1 - mask p ≡ 2 ^ k - 1 = omega (arith, ipv4_mask_lem p h) in
    let parts : p.bits / 2 ^ k * 2 ^ k + p.bits % 2 ^ k ≡ p.bits = div-add-mod' p.bits (2 ^ k) in
    ap (λ m. bit_and p.bits m) ones
    ∙ ap (λ b. bit_and b (2 ^ k - 1)) (sym parts)
    ∙ bit_and-ones k (p.bits / 2 ^ k) (p.bits % 2 ^ k) (mod-lt p.bits pos)
