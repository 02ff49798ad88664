-- ===== src/Csim/AddressLaws.antt =====
-- The address split of cachelab/csim.c as division: which set, tag and offset an address has.
use native.Mathlib.Nat.{pow-le-pow_right, pow-suc, one-le-pow, div-add-mod', mod-lt}
use cs_app_labs.Prelude.{
  ℕ, zero, suc, ◌+◌, ◌-◌, ◌*◌, ◌/◌, ◌%◌, ◌^◌, ◌≤◌, ◌<◌, ◌≡◌, ap, ◌∙◌, bit_and, bit_xor, arith,
}
use cs_app_labs.Prelude.Bits.{bit_xor-fields, bit_and-mask}
use cs_app_labs.Csim.Address.{mask_loop, create_right_bit_mask, parse_address}

double-pow : (q n : ℕ) → q * 2 ^ suc n ≡ 2 * (q * 2 ^ n)
double-pow q n = omega (arith, ap (λ (t : ℕ). q * t) (pow-suc 2 n))

mask_loop-fill : (n q : ℕ) → n ≤ 32 → mask_loop n (q * 2 ^ n) + 1 ≡ q * 2 ^ n + 2 ^ n
unfolding mask_loop
mask_loop-fill zero q h = omega arith
mask_loop-fill (suc n) q h =
    let word : 2 ^ suc n ≤ 2 ^ 32 = pow-le-pow_right (omega arith) {j = 32} h in
    let bit : 2 ^ n % 2 ^ 32 ≡ 2 ^ n = omega (arith, pow-suc 2 n, one-le-pow n 2) in
    let low : 2 ^ n < 2 ^ suc n = omega (arith, pow-suc 2 n, one-le-pow n 2) in
    let next : bit_xor (q * 2 ^ suc n) (2 ^ n) ≡ (2 * q + 1) * 2 ^ n =
      bit_xor-fields (suc n) q (2 ^ n) low ∙ omega (arith, double-pow q n) in
    rw (bit, next)
      (omega (arith, mask_loop-fill n (2 * q + 1) (omega arith), double-pow q n, pow-suc 2 n))

-- The mask has the lowest bits set, as many as it is asked for, up to the width of an `int`.
create_right_bit_mask_lem : (n : ℕ) → n ≤ 32 → create_right_bit_mask n ≡ 2 ^ n - 1
unfolding create_right_bit_mask
create_right_bit_mask_lem n h =
    let start : 0 * 2 ^ n ≡ 0 = omega arith in
    omega (arith, mask_loop-fill n 0 h, ap (λ (m : ℕ). mask_loop n m) start)

-- With at most 31 bits for each and the masks that `initializeDCache` makes, the offset is the remainder by the block size,
-- the set number the next field, and the tag the rest; the three determine the address.
pub parse_address_fields :
    (s b address : ℕ)
    → s ≤ 31
    → b ≤ 31
    → let p = parse_address s b (create_right_bit_mask s) (create_right_bit_mask b) address in
      (p.block_offset ≡ address % 2 ^ b)
      × (p.set_number ≡ address / 2 ^ b % 2 ^ s)
      × (p.set_number < 2 ^ s)
      × ((p.tag * 2 ^ s + p.set_number) * 2 ^ b + p.block_offset ≡ address)
unfolding parse_address
parse_address_fields s b address hs hb =
    let offset : bit_and address (create_right_bit_mask b) ≡ address % 2 ^ b =
      rw (create_right_bit_mask_lem b (omega arith)) (bit_and-mask b address) in
    let index : bit_and (address / 2 ^ b) (create_right_bit_mask s) ≡ address / 2 ^ b % 2 ^ s =
      rw (create_right_bit_mask_lem s (omega arith)) (bit_and-mask s (address / 2 ^ b)) in
    (
      offset,
      index,
      rw index (mod-lt _ (one-le-pow s 2 (omega arith))),
      rw (offset, index, div-add-mod' (address / 2 ^ b) (2 ^ s)) (div-add-mod' address (2 ^ b)),
    )
