-- ===== src/Prelude/Keeps.antt =====
-- What methods on a mutable receiver keep true of it, whether they succeed, give an error or panic:
-- one rule for each way in which a method is built.
use mathlib.Core.Bool.{Bool, true, false}
use go_ratchet.Prelude.Tests.{if◌then◌else◌}
use go_ratchet.Prelude.Errors.{Result, ok, err, panic}
use go_ratchet.Prelude.Methods.{Action, ◌>>=◌, ◌>>◌, and_then, lift, get, modify}

-- `m` leaves `P` true where it found it true.
pub record Keeps {S A : Type 0} (P : S → Type 0) (m : Action S A) : Type 0 where
  pub after : (s : S) → P s → P (m s).1

module _ {S A : Type 0} {P : S → Type 0} where
  pub Keeps-lift : (r : Result A) → Keeps P (lift r)
  Keeps-lift r = record { after = λ s h. h }

  pub Keeps-if :
      (b : Bool) (m n : Action S A) → Keeps P m → Keeps P n → Keeps P (if b then m else n)
  Keeps-if true m n km kn = km
  Keeps-if false m n km kn = kn

module _ {S : Type 0} {P : S → Type 0} where
  pub Keeps-get : Keeps P get
  Keeps-get = record { after = λ s h. h }

  pub Keeps-modify : (f : S → S) → ((s : S) → P s → P (f s)) → Keeps P (modify f)
  Keeps-modify f h = record { after = h }

module _ {S A B : Type 0} {P : S → Type 0} where
  and_then-Keeps :
      (r : Result A) (f : A → Action S B)
      → ((a : A) → Keeps P (f a))
      → (s : S) → P s
      → P (and_then (r, s) f).1
  and_then-Keeps (ok a) f kf s h = (kf a).after s h
  and_then-Keeps (err e) f kf s h = h
  and_then-Keeps panic f kf s h = h

  pub Keeps-bind :
      (m : Action S A) (f : A → Action S B)
      → Keeps P m
      → ((a : A) → Keeps P (f a))
      → Keeps P (m >>= f)
  Keeps-bind m f km kf = record {
    after = λ s h. and_then-Keeps (m s).0 f kf (m s).1 (km.after s h);
  }

module _ {S B : Type 0} {P : S → Type 0} where
  pub Keeps-then :
      (m : Action S (Unit {0})) (k : Action S B) → Keeps P m → Keeps P k → Keeps P (m >> k)
  Keeps-then m k km kk = Keeps-bind m (λ _. k) km (λ _. kk)

pub ruleset keeps_rules = (Keeps-lift, Keeps-if, Keeps-get, Keeps-bind, Keeps-then)
