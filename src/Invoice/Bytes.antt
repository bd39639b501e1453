-- ===== src/Invoice/Bytes.antt =====
-- `to_be_bytes` and `from_be_bytes` of the standard library, at every width.
use mathlib.Core.List.{append-nil, append_assoc}
use native.Mathlib.Nat.{pow-suc, add-zero}
use xmrgateway.Prelude.{
  ℕ, zero, suc, ◌+◌, ◌*◌, ◌/◌, ◌%◌, ◌^◌, ◌≤◌, ◌<◌, ◌≡◌, refl, ap, subst, ◌∙◌, List, [], ◌∷◌, ◌++◌,
  length, length-append, All, All-append, arith,
}

-- The `w` bytes of a number, the most significant first.
unfoldable pub to_be_bytes : ℕ → ℕ → List ℕ
to_be_bytes zero n = []
to_be_bytes (suc w) n = to_be_bytes w (n / 256) ++ (n % 256) ∷ []

from_be_acc : ℕ → List ℕ → ℕ
from_be_acc acc [] = acc
from_be_acc acc (b ∷ bs) = from_be_acc (acc * 256 + b) bs

unfoldable pub from_be_bytes : List ℕ → ℕ
unfolding from_be_acc
from_be_bytes bs = from_be_acc 0 bs

abbrev pub IsByte : ℕ → Type 0
IsByte b = b < 256

from_be_acc-append :
    (acc : ℕ) (xs ys : List ℕ) → from_be_acc acc (xs ++ ys) ≡ from_be_acc (from_be_acc acc xs) ys
unfolding from_be_acc
from_be_acc-append acc [] ys = refl
from_be_acc-append acc (x ∷ xs) ys = from_be_acc-append (acc * 256 + x) xs ys

-- The digits read so far weigh one power of 256 for each digit that follows.
from_be_acc_lem :
    (acc : ℕ) (xs : List ℕ) → from_be_acc acc xs ≡ acc * 256 ^ length xs + from_be_bytes xs
unfolding from_be_bytes
from_be_acc_lem acc [] = omega arith
from_be_acc_lem acc (x ∷ xs) = omega (
  arith,
  from_be_acc_lem (acc * 256 + x) xs,
  from_be_acc_lem (0 * 256 + x) xs,
  ap (λ (t : ℕ). acc * t) (pow-suc 256 (length xs)),
)

pub from_be_bytes-append :
    (xs ys : List ℕ)
    → from_be_bytes (xs ++ ys) ≡ from_be_bytes xs * 256 ^ length ys + from_be_bytes ys
unfolding from_be_bytes
from_be_bytes-append xs ys = from_be_acc-append 0 xs ys ∙ from_be_acc_lem (from_be_acc 0 xs) ys

pub length-to_be_bytes : (w n : ℕ) → length (to_be_bytes w n) ≡ w
unfolding to_be_bytes
length-to_be_bytes zero n = refl
length-to_be_bytes (suc w) n =
    omega (
      arith,
      length-append (to_be_bytes w (n / 256)) (n % 256 ∷ []),
      length-to_be_bytes w (n / 256),
    )

pub to_be_bytes-IsByte : (w n : ℕ) → All IsByte (to_be_bytes w n)
unfolding to_be_bytes
to_be_bytes-IsByte zero n = tt
to_be_bytes-IsByte (suc w) n =
    All-append IsByte (to_be_bytes w (n / 256)) _ (to_be_bytes-IsByte w (n / 256)) (omega arith, tt)

-- Reading back the bytes of a number that fits in them.
pub from-to_be_bytes : (w n : ℕ) → n < 256 ^ w → from_be_bytes (to_be_bytes w n) ≡ n
unfolding to_be_bytes from_be_bytes
from-to_be_bytes zero n h = omega arith
from-to_be_bytes (suc w) n h =
    let fits : n < 256 ^ w * 256 = subst (λ t. n < t) (pow-suc 256 w) h in
    omega (
      arith,
      from_be_acc-append 0 (to_be_bytes w (n / 256)) (n % 256 ∷ []),
      from-to_be_bytes w (n / 256) (omega arith),
    )

to-from_acc :
    (w acc : ℕ) (xs : List ℕ)
    → All IsByte xs
    → to_be_bytes (w + length xs) (from_be_acc acc xs) ≡ to_be_bytes w acc ++ xs
unfolding to_be_bytes from_be_acc
to-from_acc w acc [] h = simp (add-zero, append-nil)
to-from_acc w acc (x ∷ xs) h =
    let ih : to_be_bytes (suc w + length xs) (from_be_acc (acc * 256 + x) xs)
        ≡ to_be_bytes (suc w) (acc * 256 + x) ++ xs =
      to-from_acc (suc w) (acc * 256 + x) xs h.1 in
    let high : (acc * 256 + x) / 256 ≡ acc = omega (arith, h.0) in
    let low : (acc * 256 + x) % 256 ≡ x = omega (arith, h.0) in
    let same : w + suc (length xs) ≡ suc w + length xs = omega arith in
    rw same (ih ∙ simp (high, low, append_assoc))

-- Writing the number that a list of bytes spells gives the bytes again.
pub to-from_be_bytes :
    (w : ℕ) (xs : List ℕ) → length xs ≡ w → All IsByte xs → to_be_bytes w (from_be_bytes xs) ≡ xs
unfolding from_be_bytes to_be_bytes
to-from_be_bytes w xs e h =
    let same : w ≡ 0 + length xs = omega arith in rw same (to-from_acc 0 0 xs h)

pub from_be_bytes-lt : (xs : List ℕ) → All IsByte xs → from_be_bytes xs < 256 ^ length xs
unfolding from_be_bytes
from_be_bytes-lt [] h = omega arith
from_be_bytes-lt (x ∷ xs) h =
    let scaled : x * 256 ^ length xs ≤ 255 * 256 ^ length xs = grind (arith, h.0) in
    omega
      (arith, from_be_acc_lem (0 * 256 + x) xs, from_be_bytes-lt xs h.1, pow-suc 256 (length xs))
