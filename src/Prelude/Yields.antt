-- ===== src/Prelude/Yields.antt =====
-- What methods on a mutable receiver achieve when they succeed.
use mathlib.Core.Path.{◌≡◌, refl}
use go_ratchet.Prelude.Errors.{Result, ok, err, panic}
use go_ratchet.Prelude.Keeps.{Keeps}
use go_ratchet.Prelude.Methods.{Action, ◌>>=◌, and_then, lift, get}

-- Where `P` holds and `m` succeeds, `Q` holds of its value and of what it leaves.
pub record Yields {S A : Type 0} (P : S → Type 0) (m : Action S A) (Q : A → S → Type 0)
    : Type 0 where
  pub after : (s : S) → P s → (a : A) → (m s).0 ≡ ok a → Q a (m s).1

module _ {S A : Type 0} {P : S → Type 0} where
  pub Yields-lift : (r : Result A) → Yields P (lift r) (λ a s. P s)
  Yields-lift r = record { after = λ s h a e. h }

module _ {S : Type 0} {P : S → Type 0} where
  pub Yields-get : Yields P get (λ a s. P s)
  Yields-get = record { after = λ s h a e. h }

module _ {S A B : Type 0} {Q : A → S → Type 0} {R : B → S → Type 0} where
  and_then-Yields :
      (r : Result A) (f : A → Action S B)
      → ((a : A) → Yields (Q a) (f a) R)
      → (s : S) → ((a : A) → r ≡ ok a → Q a s)
      → (b : B) → (and_then (r, s) f).0 ≡ ok b
      → R b (and_then (r, s) f).1
  and_then-Yields (ok a) f yf s h b e = (yf a).after s (h a refl) b e
  and_then-Yields (err why) f yf s h b e = cc
  and_then-Yields panic f yf s h b e = cc

module _ {S A B : Type 0} {P : S → Type 0} {Q : A → S → Type 0} {R : B → S → Type 0} where
  pub Yields-bind :
      (m : Action S A) (f : A → Action S B)
      → Yields P m Q
      → ((a : A) → Yields (Q a) (f a) R)
      → Yields P (m >>= f) R
  Yields-bind m f ym yf = record {
    after = λ s h b e. and_then-Yields (m s).0 f yf (m s).1 (λ a e'. ym.after s h a e') b e;
  }

-- What is kept true holds after a success too.
pub Keeps-Yields :
    {S A : Type 0} {P : S → Type 0} (m : Action S A) → Keeps P m → Yields P m (λ a s. P s)
Keeps-Yields m k = record { after = λ s h a e. k.after s h }
