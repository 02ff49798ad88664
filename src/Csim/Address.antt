-- ===== src/Csim/Address.antt =====
-- The address split of cachelab/csim.c.
use cs_app_labs.Prelude.{ℕ, zero, suc, ◌/◌, ◌%◌, ◌^◌, bit_and, bit_xor}

-- The loop of `createRightBitMask`: `mask ^= 1 << --numberOfBits`, on a 32-bit `int`.
unfoldable pub mask_loop : ℕ → ℕ → ℕ
mask_loop zero mask = mask
mask_loop (suc n) mask = mask_loop n (bit_xor mask (2 ^ n % 2 ^ 32))

unfoldable pub create_right_bit_mask : ℕ → ℕ
unfolding mask_loop
create_right_bit_mask number_of_bits = mask_loop number_of_bits 0

-- The three results of `parseAddress`.
pub record Address : Type 0 where
  pub set_number : ℕ
  pub tag : ℕ
  pub block_offset : ℕ

-- `parseAddress`, with the globals that it reads as arguments.
unfoldable pub parse_address : (set_bits block_bits set_mask block_mask : ℕ) → ℕ → Address
parse_address set_bits block_bits set_mask block_mask address =
    let cut_offset = address / 2 ^ block_bits in
    record {
      set_number = bit_and cut_offset set_mask;
      tag = cut_offset / 2 ^ set_bits;
      block_offset = bit_and address block_mask;
    }
