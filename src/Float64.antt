-- ===== src/Float64.antt =====
-- The C type `double` as the timeline of plugin/Line6HAL.c uses it: an interface, since the
-- hardware's arithmetic is no code of the repository.
use line6_coreaudio.Prelude.{ℕ, ◌≤◌, ◌≡◌}

pub record Float64 : Type 1 where
  pub Carrier : Type 0
  -- (Float64)n for an unsigned integer, and (UInt64)x
  pub of_u64 : ℕ → Carrier
  pub to_u64 : Carrier → ℕ
  pub times : Carrier → Carrier → Carrier
  pub over : Carrier → Carrier → Carrier

-- What IEEE arithmetic promises of the operations: rounding is monotone, and zero is absorbing.
pub record IsOrdered (f : Float64) : Type 1 where
  pub Le : f.Carrier → f.Carrier → Type 0
  pub IsNonneg : f.Carrier → Type 0
  pub of_u64_mono : (a b : ℕ) → a ≤ b → Le (f.of_u64 a) (f.of_u64 b)
  pub times_mono : (x y t : f.Carrier) → IsNonneg t → Le x y → Le (f.times x t) (f.times y t)
  pub to_u64_mono : (x y : f.Carrier) → Le x y → f.to_u64 x ≤ f.to_u64 y
  pub zero_times : (t : f.Carrier) → IsNonneg t → f.to_u64 (f.times (f.of_u64 0) t) ≡ 0
