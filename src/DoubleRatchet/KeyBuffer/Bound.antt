-- ===== src/DoubleRatchet/KeyBuffer/Bound.antt =====
-- The ring keeps its number of cells, and loses a chain only from its last cell.
use go_ratchet.Prelude.{
  ℕ, zero, suc, ◌<◌, ◌≡◌, refl, arith, Option, none, some, List, [], ◌∷◌, Bytes, length,
  Option-cases, inl, inr,
}
use go_ratchet.DoubleRatchet.KeyBuffer.{
  Element, KeyBuffer, element_find, drop_last, element_add, cell, find, write_cell, insert,
  new_key_buffer, max_skip_chains,
}
use go_ratchet.DoubleRatchet.KeyBuffer.Lookup.{find-cell, element_find-drop_last}

length-write_cell :
    (i n : ℕ) (k : Bytes) (kb : KeyBuffer) → length (write_cell i n k kb) ≡ length kb
unfolding write_cell
length-write_cell i n k [] = refl
length-write_cell zero n k (none ∷ cs) = refl
length-write_cell zero n k (some e ∷ cs) = refl
length-write_cell (suc i) n k (c ∷ cs) = omega (arith, length-write_cell i n k cs)

length-drop_last :
    (c : Option Element) (kb : KeyBuffer) → suc (length (drop_last (c ∷ kb))) ≡ length (c ∷ kb)
unfolding drop_last
length-drop_last c [] = refl
length-drop_last c (d ∷ kb) = omega (arith, length-drop_last d kb)

-- An insertion keeps the number of cells.
pub length-insert :
    (p : Bytes) (n : ℕ) (k : Bytes) (kb : KeyBuffer)
    → 0 < length kb
    → length (insert p n k kb) ≡ length kb
unfolding insert element_add
length-insert p n k [] h = absurd (omega arith)
length-insert p n k (c ∷ kb) h = elim (Option-cases (element_find p (c ∷ kb))) [
  | inl e ↦
      rw (e, insert)
        (omega (arith, length-drop_last c kb, length-write_cell 0 n k (element_add p (c ∷ kb))))
  | inr (i, e) ↦ rw (e, insert) (length-write_cell i n k (c ∷ kb))
]

-- A history of insertions.
abbrev pub insert_all : List (Bytes × ℕ × Bytes) → KeyBuffer → KeyBuffer
insert_all [] kb = kb
insert_all ((p, n, k) ∷ ins) kb = insert_all ins (insert p n k kb)

length-insert_all :
    (ins : List (Bytes × ℕ × Bytes)) (kb : KeyBuffer)
    → 0 < length kb
    → length (insert_all ins kb) ≡ length kb
length-insert_all [] kb h = refl
length-insert_all ((p, n, k) ∷ ins) kb h =
    let e = length-insert p n k kb h in
    omega (arith, e, length-insert_all ins (insert p n k kb) (omega (arith, e)))

-- After any history of insertions the buffer has the eight cells that it began with.
pub length-insert_all_new :
    (ins : List (Bytes × ℕ × Bytes)) → length (insert_all ins new_key_buffer) ≡ max_skip_chains
length-insert_all_new ins = length-insert_all ins new_key_buffer (omega arith)

kept_later :
    (p : Bytes) (c d : Option Element) (cs : KeyBuffer) (i j : ℕ)
    → element_find p (d ∷ cs) ≡ some j
    → element_find p (c ∷ d ∷ cs) ≡ some i
    → suc i < length (c ∷ d ∷ cs)
    → (suc j < length (d ∷ cs) → element_find p (drop_last (d ∷ cs)) ≡ some j)
    → element_find p (c ∷ drop_last (d ∷ cs)) ≡ some i
unfolding element_find
kept_later p c d cs i j found e h ih = ground arith

element_find-kept :
    (p : Bytes) (kb : KeyBuffer) (i : ℕ)
    → element_find p kb ≡ some i
    → suc i < length kb
    → element_find p (drop_last kb) ≡ some i
unfolding element_find drop_last
element_find-kept p [] i e h = cc
element_find-kept p (c ∷ []) i e h = absurd (omega arith)
element_find-kept p (c ∷ d ∷ cs) i e h = elim (Option-cases (element_find p (d ∷ cs))) [
  | inl absent ↦ ground (arith, element_find-drop_last p (d ∷ cs) absent)
  | inr (j, found) ↦ kept_later p c d cs i j found e h (element_find-kept p (d ∷ cs) j found)
]

cell-drop_last : (kb : KeyBuffer) (i : ℕ) → suc i < length kb → cell i (drop_last kb) ≡ cell i kb
unfolding cell drop_last
cell-drop_last [] i h = absurd (omega arith)
cell-drop_last (c ∷ []) i h = absurd (omega arith)
cell-drop_last (c ∷ d ∷ cs) zero h = refl
cell-drop_last (c ∷ d ∷ cs) (suc i) h = cell-drop_last (d ∷ cs) i (omega arith)

-- If a chain is found in a cell that is not the last, then taking out the last cell leaves the
-- lookups for that chain as they were.
pub find-drop_last :
    (p : Bytes) (n : ℕ) (kb : KeyBuffer) (i : ℕ)
    → element_find p kb ≡ some i
    → suc i < length kb
    → find p n (drop_last kb) ≡ find p n kb
find-drop_last p n kb i e h = rw (
  find-cell p n (drop_last kb) i (element_find-kept p kb i e h),
  find-cell p n kb i e,
  cell-drop_last kb i h,
)
