-- ===== src/Prelude/Slices.antt =====
-- Byte slices, as lists of numbers below 256.
use Prim.Native.Nat.{ℕ, zero, ◌-◌, ◌<◌}
use mathlib.Core.Path.{◌≡◌, refl}
use mathlib.Core.Logic.{◌≢◌}
use mathlib.Core.Bool.{Bool, true, false, ◌&&◌}
use mathlib.Core.List.{List, [], ◌∷◌, ◌++◌, append-nil}
use native.Mathlib.Omega.{arith}
use go_ratchet.Prelude.Tests.{◌==◌}
use go_ratchet.Prelude.Lists.{
  length, take, replicate, length-append, length-take, length-replicate, take_all,
}

abbrev pub Bytes : Type 0
Bytes = List ℕ

-- Every element is a byte.
abbrev pub IsBytes : Bytes → Type 0
IsBytes [] = Unit {0}
IsBytes (b ∷ bs) = (b < 256) × IsBytes bs

-- `bytes.Equal`, `hmac.Equal` and `subtle.ConstantTimeCompare(a, b) == 1`
unfoldable pub bytes_eq : Bytes → Bytes → Bool
bytes_eq [] [] = true
bytes_eq [] (b ∷ bs) = false
bytes_eq (a ∷ as') [] = false
bytes_eq (a ∷ as') (b ∷ bs) = (a == b) && bytes_eq as' bs

pub bytes_eq_refl : (a : Bytes) → bytes_eq a a ≡ true
unfolding bytes_eq
bytes_eq_refl [] = refl
bytes_eq_refl (x ∷ xs) = ground (arith, bytes_eq_refl xs)

pub bytes_eq→eq : (a b : Bytes) → bytes_eq a b ≡ true → a ≡ b
unfolding bytes_eq
bytes_eq→eq [] [] h = refl
bytes_eq→eq [] (b ∷ bs) h = cc
bytes_eq→eq (a ∷ as') [] h = cc
bytes_eq→eq (a ∷ as') (b ∷ bs) h = ground (arith, bytes_eq→eq as' bs)

pub ne→bytes_eq : (a b : Bytes) → a ≢ b → bytes_eq a b ≡ false
ne→bytes_eq a b h = ground (arith, bytes_eq→eq a b)

-- `dst := make([]byte, n); copy(dst, src)`: cut or filled up with zeros.
abbrev pub fit : ℕ → Bytes → Bytes
fit n src = take n src ++ replicate (n - length src) 0

pub length-fit : (n : ℕ) (src : Bytes) → length (fit n src) ≡ n
length-fit n src = omega (
  arith,
  length-append (take n src) (replicate (n - length src) 0),
  length-take n src,
  length-replicate (n - length src) (zero),
)

pub fit_self : (n : ℕ) (src : Bytes) → length src ≡ n → fit n src ≡ src
fit_self n src h =
    let e : n - length src ≡ 0 = omega arith in
    rw (e, take_all n src (omega arith)) (append-nil src)
