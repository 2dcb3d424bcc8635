-- ===== src/Prelude/Words.antt =====
-- The operations on u64 and u128 that test for overflow or stop at the bound.
use omsrs.Prelude.{ℕ, ◌+◌, ◌-◌, ◌^◌, ◌≡◌, refl, Option, none, some, ltb, leb, if◌then◌else◌}

abbrev pub u64_limit : ℕ
u64_limit = 18446744073709551616

abbrev pub u128_limit : ℕ
u128_limit = 340282366920938463463374607431768211456

-- `u64::checked_add`
abbrev pub checked_add : ℕ → ℕ → Option ℕ
checked_add a b = if ltb (a + b) u64_limit then some (a + b) else none

-- `u64::checked_sub`
abbrev pub checked_sub : ℕ → ℕ → Option ℕ
checked_sub a b = if leb b a then some (a - b) else none

-- `u64::saturating_add`, and u128's
abbrev pub saturating_add : ℕ → ℕ → ℕ
saturating_add a b = if ltb (a + b) u64_limit then a + b else 18446744073709551615

abbrev pub saturating_add_u128 : ℕ → ℕ → ℕ
saturating_add_u128 a b =
    if ltb (a + b) u128_limit then a + b else 340282366920938463463374607431768211455

u64_limit_lem : u64_limit ≡ 2 ^ 64
u64_limit_lem = refl

u128_limit_lem : u128_limit ≡ 2 ^ 128
u128_limit_lem = refl
