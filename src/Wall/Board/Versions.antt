-- ===== src/Wall/Board/Versions.antt =====
-- The rule by which two elements with one id are compared.
use filenymous.Prelude.{◌≡◌, true, false, arith}
use filenymous.Prelude.Json.{ℤ, lt_ℤ}
use filenymous.Wall.Board.{BoardElement, newer_than}

lt_ℤ_trans : (a b c : ℤ) → lt_ℤ a b ≡ true → lt_ℤ b c ≡ true → lt_ℤ a c ≡ true
unfolding lt_ℤ
lt_ℤ_trans a b c h k = ground arith

lt_ℤ_irrefl : (a : ℤ) → lt_ℤ a a ≡ false
unfolding lt_ℤ
lt_ℤ_irrefl a = ground arith

lt_ℤ_total : (a b : ℤ) → lt_ℤ a b ≡ false → lt_ℤ b a ≡ false → a ≡ b
unfolding lt_ℤ
lt_ℤ_total a b h k = ground arith

-- Two elements of one rank: neither replaces the other.
abbrev pub SameRank : BoardElement → BoardElement → Type 0
SameRank a b = (a.version ≡ b.version) × (a.version_nonce ≡ b.version_nonce)

pub newer_than_irrefl : (a : BoardElement) → newer_than a a ≡ false
unfolding newer_than
newer_than_irrefl a = ground (arith, lt_ℤ_irrefl a.version_nonce)

pub newer_than_trans :
    (a b c : BoardElement) → newer_than a b ≡ true → newer_than b c ≡ true → newer_than a c ≡ true
unfolding newer_than
newer_than_trans a b c h k =
    ground (arith, lt_ℤ_trans a.version_nonce b.version_nonce c.version_nonce)

pub newer_than_total :
    (a b : BoardElement) → newer_than a b ≡ false → newer_than b a ≡ false → SameRank a b
unfolding newer_than
newer_than_total a b h k = ground (arith, lt_ℤ_total a.version_nonce b.version_nonce)

pub newer_than_asym : (a b : BoardElement) → newer_than a b ≡ true → newer_than b a ≡ false
newer_than_asym a b h = ground (arith, newer_than_trans a b a h, newer_than_irrefl a)
