-- ===== src/Base/Bytes.antt =====
-- Big-endian bytes of machine integers: `to_be_bytes` and `from_be_bytes`.
use Prim.Native.Nat.{ℕ, zero, suc, ◌+◌, ◌*◌, ◌/◌, ◌%◌, ◌<◌}
use mathlib.Core.Path.{◌≡◌, refl, ◌∙◌}
use mathlib.Core.List.{List, [], ◌∷◌, ◌++◌}
use native.Mathlib.Omega.{arith}
use eidolon.Base.Lists.{length, length-append}

-- The `n` bytes of a number, the most significant one first.
unfoldable pub to_be : ℕ → ℕ → List ℕ
to_be zero x = []
to_be (suc n) x = to_be n (x / 256) ++ (x % 256 ∷ [])

unfoldable pub from_be_acc : ℕ → List ℕ → ℕ
from_be_acc acc [] = acc
from_be_acc acc (b ∷ bs) = from_be_acc (acc * 256 + b) bs

unfoldable pub from_be : List ℕ → ℕ
from_be = from_be_acc 0

-- 256 ^ n
abbrev pub byte_limit : ℕ → ℕ
byte_limit zero = 1
byte_limit (suc n) = 256 * byte_limit n

pub length-to_be : (n x : ℕ) → length (to_be n x) ≡ n
unfolding to_be
length-to_be zero x = refl
length-to_be (suc n) x =
    omega (arith, length-append (to_be n (x / 256)) (x % 256 ∷ []), length-to_be n (x / 256))

from_be_acc-append :
    (acc : ℕ) (xs ys : List ℕ) → from_be_acc acc (xs ++ ys) ≡ from_be_acc (from_be_acc acc xs) ys
unfolding from_be_acc
from_be_acc-append acc [] ys = refl
from_be_acc-append acc (x ∷ xs) ys = from_be_acc-append (acc * 256 + x) xs ys

pub from_be-to_be : (n x : ℕ) → x < byte_limit n → from_be (to_be n x) ≡ x
unfolding to_be from_be from_be_acc
from_be-to_be zero x h = omega arith
from_be-to_be (suc n) x h =
    from_be_acc-append 0 (to_be n (x / 256)) (x % 256 ∷ [])
    ∙ omega (arith, from_be-to_be n (x / 256) (omega arith))

pub from_be-byte : (b : ℕ) → from_be (b ∷ []) ≡ b
unfolding from_be from_be_acc
from_be-byte b = omega arith
