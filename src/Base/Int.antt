-- ===== src/Base/Int.antt =====
-- Signed integers over the native numbers, and Python's slices, whose indices may be negative.
use Prim.Native.Nat.{ℕ, zero, suc, ◌+◌, ◌-◌, min}
use mathlib.Core.List.{List}
use manyfaced_honeypot.Base.Tests.{leb, if◌then◌else◌}
use manyfaced_honeypot.Base.Lists.{length, take, drop}

-- `negsuc n` is -(n + 1).
pub data ℤ : Type 0 where
  pos : ℕ → ℤ
  negsuc : ℕ → ℤ

abbrev pub pos_part : ℤ → ℕ
pos_part (pos n) = n
pos_part (negsuc n) = 0

abbrev pub neg_part : ℤ → ℕ
neg_part (pos n) = 0
neg_part (negsuc n) = suc n

abbrev pub sub_ℕ : ℕ → ℕ → ℤ
sub_ℕ a b = if leb b a then pos (a - b) else negsuc (b - a - 1)

infixl 65 ◌+ℤ◌
unfoldable pub ◌+ℤ◌ : ℤ → ℤ → ℤ
a +ℤ b = sub_ℕ (pos_part a + pos_part b) (neg_part a + neg_part b)

abbrev pub negate : ℕ → ℤ
negate zero = pos 0
negate (suc n) = negsuc n

-- An index as a slice of a sequence of length `len` reads it.
unfoldable pub clip : ℕ → ℤ → ℕ
clip len (pos n) = min n len
clip len (negsuc n) = len - suc n

-- `s[i:j]`
unfoldable pub slice {ℓ} : {A : Type ℓ} → List A → ℤ → ℤ → List A
unfolding clip
slice s i j = take (clip (length s) j - clip (length s) i) (drop (clip (length s) i) s)
