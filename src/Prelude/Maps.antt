-- ===== src/Prelude/Maps.antt =====
-- Go's maps with strings as keys, as lists of entries.
use mathlib.Core.Path.{◌∙◌, ◌≡◌, refl}
use mathlib.Core.Logic.{inl, inr}
use mathlib.Core.Bool.{false}
use mathlib.Core.Option.{Option, none, some}
use mathlib.Core.List.{List, [], ◌∷◌}
use go_ratchet.Prelude.Tests.{if◌then◌else◌, Bool-cases}
use go_ratchet.Prelude.Slices.{Bytes, bytes_eq, bytes_eq_refl, bytes_eq→eq}

abbrev pub Map : Type 0 → Type 0
Map V = List (Bytes × V)

bytes_eq-false_sym : (a b : Bytes) → bytes_eq a b ≡ false → bytes_eq b a ≡ false
bytes_eq-false_sym a b h = elim (Bool-cases (bytes_eq b a)) [
  | inl same ↦ absurd (cc (h, bytes_eq_refl a, bytes_eq→eq b a same))
  | inr apart ↦ apart
]

module _ {V : Type 0} where
  -- `m[k]`, which is missing where there is no entry
  unfoldable pub lookup : Bytes → Map V → Option V
  lookup k [] = none
  lookup k ((j, v) ∷ m) = let rest = lookup k m in if bytes_eq k j then some v else rest

  -- `m[k] = v`
  unfoldable pub assign : Bytes → V → Map V → Map V
  assign k v [] = (k, v) ∷ []
  assign k v ((j, w) ∷ m) =
      let rest = assign k v m in if bytes_eq k j then (k, v) ∷ m else (j, w) ∷ rest

  -- `delete(m, k)`
  unfoldable pub remove : Bytes → Map V → Map V
  remove k [] = []
  remove k ((j, v) ∷ m) = let rest = remove k m in if bytes_eq k j then rest else (j, v) ∷ rest

  -- A loop that assigns each entry.
  unfoldable pub assign_all : Map V → Map V → Map V
  assign_all [] m = m
  assign_all ((k, v) ∷ es) m = assign_all es (assign k v m)

  -- No key has two entries.
  abbrev pub IsDistinct : Map V → Type 0
  IsDistinct [] = Unit {0}
  IsDistinct ((k, v) ∷ m) = (lookup k m ≡ none) × IsDistinct m

  pub lookup_nil : (k : Bytes) → lookup k [] ≡ none
  unfolding lookup
  lookup_nil k = refl

  pub lookup-assign_self : (k : Bytes) (v : V) (m : Map V) → lookup k (assign k v m) ≡ some v
  unfolding lookup assign
  lookup-assign_self k v [] = rw (bytes_eq_refl k)
  lookup-assign_self k v ((j, w) ∷ m) = elim (Bool-cases (bytes_eq k j)) [
    | inl same ↦ rw (same, bytes_eq_refl k)
    | inr apart ↦ rw (apart) (rw (apart) (lookup-assign_self k v m))
  ]

  pub lookup-assign_other :
      (k j : Bytes) (v : V) (m : Map V)
      → bytes_eq k j ≡ false
      → lookup k (assign j v m) ≡ lookup k m
  unfolding lookup assign
  lookup-assign_other k j v [] h = rw (h)
  lookup-assign_other k j v ((i, w) ∷ m) h = elim (Bool-cases (bytes_eq j i)) [
    | inl same ↦ let e : j ≡ i = bytes_eq→eq j i same in rw (same, ← e) (rw h)
    | inr apart ↦ rw (apart) (rw (lookup-assign_other k j v m h))
  ]

  pub lookup-remove_self : (k : Bytes) (m : Map V) → lookup k (remove k m) ≡ none
  unfolding lookup remove
  lookup-remove_self k [] = refl
  lookup-remove_self k ((j, v) ∷ m) = elim (Bool-cases (bytes_eq k j)) [
    | inl same ↦ rw (same) (lookup-remove_self k m)
    | inr apart ↦ rw (apart) (rw (apart) (lookup-remove_self k m))
  ]

  pub lookup-remove_other :
      (k j : Bytes) (m : Map V) → bytes_eq k j ≡ false → lookup k (remove j m) ≡ lookup k m
  unfolding lookup remove
  lookup-remove_other k j [] h = refl
  lookup-remove_other k j ((i, w) ∷ m) h = elim (Bool-cases (bytes_eq j i)) [
    | inl same ↦
        let e : j ≡ i = bytes_eq→eq j i same in rw (same, ← e) (rw h (lookup-remove_other k j m h))
    | inr apart ↦ rw (apart) (rw (lookup-remove_other k j m h))
  ]

  -- The first of two entries that is there.
  abbrev pub or_else : Option V → Option V → Option V
  or_else none o = o
  or_else (some v) o = some v

  pub lookup-assign_all :
      (k : Bytes) (es m : Map V)
      → IsDistinct es
      → lookup k (assign_all es m) ≡ or_else (lookup k es) (lookup k m)
  unfolding lookup assign_all
  lookup-assign_all k [] m d = refl
  lookup-assign_all k ((j, v) ∷ es) m d = elim (Bool-cases (bytes_eq k j)) [
    | inl same ↦
        let e : k ≡ j = bytes_eq→eq k j same in
        rw same (rw (e, lookup-assign_all j es (assign j v m) d.1, d.0, lookup-assign_self j v m))
    | inr apart ↦
        rw apart (rw (lookup-assign_all k es (assign j v m) d.1, lookup-assign_other k j v m apart))
  ]

  pub assign-IsDistinct : (k : Bytes) (v : V) (m : Map V) → IsDistinct m → IsDistinct (assign k v m)
  unfolding lookup assign
  assign-IsDistinct k v [] d = (refl, tt)
  assign-IsDistinct k v ((j, w) ∷ m) d = elim (Bool-cases (bytes_eq k j)) [
    | inl same ↦ let e : k ≡ j = bytes_eq→eq k j same in rw same (rw e d)
    | inr apart ↦
        let back : bytes_eq j k ≡ false = bytes_eq-false_sym k j apart in
        rw apart (lookup-assign_other j k v m back ∙ d.0, assign-IsDistinct k v m d.1)
  ]

  pub remove-IsDistinct : (k : Bytes) (m : Map V) → IsDistinct m → IsDistinct (remove k m)
  unfolding lookup remove
  remove-IsDistinct k [] d = tt
  remove-IsDistinct k ((j, w) ∷ m) d = elim (Bool-cases (bytes_eq k j)) [
    | inl same ↦ rw same (remove-IsDistinct k m d.1)
    | inr apart ↦
        let back : bytes_eq j k ≡ false = bytes_eq-false_sym k j apart in
        rw apart (lookup-remove_other j k m back ∙ d.0, remove-IsDistinct k m d.1)
  ]

  pub assign_all-IsDistinct : (es m : Map V) → IsDistinct m → IsDistinct (assign_all es m)
  unfolding assign_all
  assign_all-IsDistinct [] m d = d
  assign_all-IsDistinct ((k, v) ∷ es) m d =
      assign_all-IsDistinct es (assign k v m) (assign-IsDistinct k v m d)
