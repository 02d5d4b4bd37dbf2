-- ===== src/Memory/Entries.antt =====
-- The loop of `ReadLog` (session/mem/mem-session.go), from an entry of the log on.
use go_ratchet.Prelude.{
  ℕ, zero, suc, ◌+◌, ◌-◌, ◌<◌, ◌≤◌, ◌≡◌, refl, sym, ap, ◌∙◌, arith, lt→ltb, le→ltb, Bool, true,
  false, List, [], ◌∷◌, ◌++◌, ok, length, get_or, take, drop,
}
use mathlib.Core.List.{reverse, reverse-append}
use native.Mathlib.Decide.{ℕ_discrete}
use go_ratchet.Memory.{read_entries}

pub before : (k : ℕ) → suc k - 1 ≡ k
before k = omega arith

module _ {A : Type 0} where
  pub take_nil : (n : ℕ) (none_left : List A) → none_left ≡ [] → take n none_left ≡ []
  take_nil zero s h = refl
  take_nil (suc n) s h = rw h

  drop-step : (s : List A) (k : ℕ) (d : A) → k < length s → drop k s ≡ get_or s k d ∷ drop (suc k) s
  drop-step [] k d h = absurd (omega (arith, h))
  drop-step (x ∷ xs) zero d h = refl
  drop-step (x ∷ xs) (suc k) d h = drop-step xs k d (omega (arith, h))

  take-step :
      (s : List A) (k : ℕ) (d : A) → k < length s → take (suc k) s ≡ take k s ++ (get_or s k d ∷ [])
  take-step [] k d h = absurd (omega (arith, h))
  take-step (x ∷ xs) zero d h = refl
  take-step (x ∷ xs) (suc k) d h = ap (λ r. x ∷ r) (take-step xs k d (omega (arith, h)))

  reverse-take-step :
      (s : List A) (k : ℕ) (d : A)
      → k < length s
      → reverse (take (suc k) s) ≡ get_or s k d ∷ reverse (take k s)
  reverse-take-step s k d h =
      ap reverse (take-step s k d h) ∙ reverse-append (take k s) (get_or s k d ∷ [])

  pub drop_all : (s : List A) (k : ℕ) → length s ≤ k → drop k s ≡ []
  drop_all [] zero h = refl
  drop_all [] (suc k) h = refl
  drop_all (x ∷ xs) zero h = absurd (omega (arith, h))
  drop_all (x ∷ xs) (suc k) h = drop_all xs k (omega (arith, h))

  pub none_wanted :
      (x : A) (xs : List A) (up : Bool) (start : ℕ) → read_entries (x ∷ xs) up zero start ≡ ok []
  unfolding read_entries
  none_wanted x xs up start = refl

  -- The loop at the last entry of the list or at the first, and at one that others follow.
  up_end :
      (x : A) (xs : List A) (n k : ℕ)
      → suc k ≡ length (x ∷ xs)
      → read_entries (x ∷ xs) true (suc n) (suc k) ≡ ok (get_or (x ∷ xs) k x ∷ [])
  unfolding read_entries
  up_end x xs n k h = rw (
    before k,
    le→ltb (suc k) 1 (omega arith),
    le→ltb (length (x ∷ xs)) (suc k) (omega (arith, h)),
    le→ltb (suc k + 1) 1 (omega arith),
    lt→ltb (length (x ∷ xs)) (suc k + 1) (omega (arith, h)),
  )

  up_more :
      (x : A) (xs lis : List A) (n k : ℕ)
      → suc k < length (x ∷ xs)
      → read_entries (x ∷ xs) true n (suc (suc k)) ≡ ok lis
      → read_entries (x ∷ xs) true (suc n) (suc k) ≡ ok (get_or (x ∷ xs) k x ∷ lis)
  unfolding read_entries
  up_more x xs lis n k h rest =
      let next : suc k + 1 ≡ suc (suc k) = omega arith in
      rw
        (
          next,
          rest,
          le→ltb (suc k) 1 (omega arith),
          le→ltb (length (x ∷ xs)) (suc k) (omega (arith, h)),
          le→ltb (suc (suc k)) 1 (omega arith),
          le→ltb (length (x ∷ xs)) (suc (suc k)) (omega (arith, h)),
        )
        (rw (before k))

  down_end : (x : A) (xs : List A) (n : ℕ) → read_entries (x ∷ xs) false (suc n) 1 ≡ ok (x ∷ [])
  unfolding read_entries
  down_end x xs n = rw (le→ltb (length (x ∷ xs)) 1 (omega arith))

  down_more :
      (x : A) (xs lis : List A) (n k : ℕ)
      → suc k < length (x ∷ xs)
      → read_entries (x ∷ xs) false n (suc k) ≡ ok lis
      → read_entries (x ∷ xs) false (suc n) (suc (suc k)) ≡ ok (get_or (x ∷ xs) (suc k) x ∷ lis)
  unfolding read_entries
  down_more x xs lis n k h rest =
      rw
        (
          before (suc k),
          rest,
          le→ltb (suc (suc k)) 1 (omega arith),
          le→ltb (length (x ∷ xs)) (suc (suc k)) (omega (arith, h)),
          le→ltb (suc k) 1 (omega arith),
          le→ltb (length (x ∷ xs)) (suc k) (omega (arith, h)),
        )
        (rw (before (suc k)))

  pub read_up :
      (x : A) (xs : List A) (n k : ℕ)
      → k < length (x ∷ xs)
      → read_entries (x ∷ xs) true n (suc k) ≡ ok (take n (drop k (x ∷ xs)))
  read_up x xs zero k h = none_wanted x xs true (suc k)
  read_up x xs (suc n) k h = elim (ℕ_discrete (suc k) (length (x ∷ xs))) [
    | yes last ↦
        up_end x xs n k last
        ∙ sym (
            ap (λ r. ok (take (suc n) r)) (drop-step (x ∷ xs) k x h)
            ∙ ap (λ r. ok (get_or (x ∷ xs) k x ∷ r))
                (take_nil n (drop (suc k) (x ∷ xs))
                  (drop_all (x ∷ xs) (suc k) (omega (arith, last)))))
    | no more ↦
        up_more x xs _ n k (omega (arith, h, more))
          (read_up x xs n (suc k) (omega (arith, h, more)))
        ∙ sym (ap (λ r. ok (take (suc n) r)) (drop-step (x ∷ xs) k x h))
  ]

  pub read_down :
      (x : A) (xs : List A) (n k : ℕ)
      → k < length (x ∷ xs)
      → read_entries (x ∷ xs) false n (suc k) ≡ ok (take n (reverse (take (suc k) (x ∷ xs))))
  read_down x xs zero k h = none_wanted x xs false (suc k)
  read_down x xs (suc n) zero h = down_end x xs n ∙ sym (ap (λ r. ok (x ∷ r)) (take_nil n [] refl))
  read_down x xs (suc n) (suc k) h =
      down_more x xs _ n k h (read_down x xs n k (omega (arith, h)))
      ∙ sym (ap (λ r. ok (take (suc n) r)) (reverse-take-step (x ∷ xs) (suc k) x h))
