-- ===== src/Daemon/Samples.antt =====
-- daemon/src/shm.rs, s24_to_f32: three bytes of S24_3LE as a Float32. A finite Float32 is a
-- whole number of steps of 2^-149, the smallest that the format has, and its sample is that number.
-- A 24-bit value is a whole number of steps of 2^-23, which the mantissa holds exactly.
use line6_coreaudio.Prelude.{
  ℕ, ◌+◌, ◌-◌, ◌*◌, ◌/◌, ◌%◌, ◌^◌, ◌<◌, ◌≡◌, arith, bit_or, ltb, if◌then◌else◌, u32_mod,
}
use line6_coreaudio.Prelude.Bits.{bit_or_fields}

-- A signed number: `neg n` is -(n + 1).
pub data Steps : Type 0 where
  pos : ℕ → Steps
  neg : ℕ → Steps

-- The i32 pattern b0 | b1 << 8 | b2 << 16.
pub pack_s24 : ℕ → ℕ → ℕ → ℕ
pack_s24 b0 b1 b2 = bit_or (bit_or b0 (b1 * 2 ^ 8 % u32_mod)) (b2 * 2 ^ 16 % u32_mod)

-- (v << 8) >> 8 on an i32: the pattern is shifted out and in again with its sign.
pub sign_extend : ℕ → Steps
sign_extend v =
    let up = v * 2 ^ 8 % u32_mod in
    if ltb up (2 ^ 31) then pos (up / 2 ^ 8) else neg ((u32_mod - 1 - up) / 2 ^ 8)

pub s24_value : ℕ → ℕ → ℕ → Steps
s24_value b0 b1 b2 = sign_extend (pack_s24 b0 b1 b2)

-- v as f32 / 2^23, in steps of 2^-149.
pub in_f32_steps : Steps → Steps
in_f32_steps (pos n) = pos (n * 2 ^ 126)
in_f32_steps (neg n) = neg ((n + 1) * 2 ^ 126 - 1)

pub s24_to_f32 : ℕ → ℕ → ℕ → Steps
unfolding in_f32_steps
s24_to_f32 b0 b1 b2 = in_f32_steps (s24_value b0 b1 b2)

pack_s24-eq-sum :
    (b0 b1 b2 : ℕ) → b0 < 256 → b1 < 256 → b2 < 256 → pack_s24 b0 b1 b2 ≡ b0 + b1 * 256 + b2 * 65536
unfolding pack_s24
pack_s24-eq-sum b0 b1 b2 h0 h1 h2 =
    let e1 : b1 * 2 ^ 8 % u32_mod ≡ b1 * 2 ^ 8 = omega arith in
    let e2 : b2 * 2 ^ 16 % u32_mod ≡ b2 * 2 ^ 16 = omega arith in
    let f1 : bit_or b0 (b1 * 2 ^ 8) ≡ b0 + b1 * 2 ^ 8 = bit_or_fields 8 b0 b1 (omega arith) in
    rw (e1, e2, f1) (bit_or_fields 16 (b0 + b1 * 2 ^ 8) b2 (omega arith))

-- The two's complement bytes of a number of steps.
abbrev pub encode_s24 : Steps → ℕ × ℕ × ℕ
encode_s24 (pos n) = (n % 256, n / 256 % 256, n / 65536 % 256)
encode_s24 (neg n) = (255 - n % 256, 255 - n / 256 % 256, 255 - n / 65536 % 256)

-- The values that 24 bits hold.
abbrev pub InS24 : Steps → Type 0
InS24 (pos n) = n < 2 ^ 23
InS24 (neg n) = n < 2 ^ 23

in_s24 :
    (b0 b1 b2 : ℕ)
    → b0 < 256
    → b1 < 256
    → b2 < 256
    → InS24 (sign_extend (b0 + b1 * 256 + b2 * 65536))
unfolding sign_extend
in_s24 b0 b1 b2 h0 h1 h2 = ground arith

encode-sign_extend :
    (b0 b1 b2 : ℕ)
    → b0 < 256
    → b1 < 256
    → b2 < 256
    → encode_s24 (sign_extend (b0 + b1 * 256 + b2 * 65536)) ≡ (b0, b1, b2)
unfolding sign_extend
encode-sign_extend b0 b1 b2 h0 h1 h2 = ground arith

-- Every three bytes give a value within full scale, from -2^23 to 2^23 - 1 steps, and encoding it
-- in two's complement gives the bytes back.
pub encode-s24_value :
    (b0 b1 b2 : ℕ)
    → b0 < 256
    → b1 < 256
    → b2 < 256
    → InS24 (s24_value b0 b1 b2) × (encode_s24 (s24_value b0 b1 b2) ≡ (b0, b1, b2))
unfolding s24_value
encode-s24_value b0 b1 b2 h0 h1 h2 =
    rw (pack_s24-eq-sum b0 b1 b2 h0 h1 h2)
      (in_s24 b0 b1 b2 h0 h1 h2, encode-sign_extend b0 b1 b2 h0 h1 h2)
