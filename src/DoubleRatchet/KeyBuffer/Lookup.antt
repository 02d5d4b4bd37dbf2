-- ===== src/DoubleRatchet/KeyBuffer/Lookup.antt =====
-- A cached key is found again, until its chain is overwritten.
use go_ratchet.Prelude.{
  ℕ, zero, suc, ◌≡◌, ◌≢◌, refl, arith, Option, none, some, [], ◌∷◌, err, Bytes, Error, bytes_eq→eq,
  if◌then◌else◌, ◌==◌, Option-cases, inl, inr,
}
use go_ratchet.DoubleRatchet.KeyBuffer.{
  MsgKeys, get_key, set_key, Element, KeyBuffer, holds, element_find, drop_last, cell, find_number,
  find, write_cell,
}

pub get_key-set_key :
    (n i : ℕ) (k : Bytes) (m : MsgKeys)
    → get_key i (set_key n k m) ≡ (if n == i then some k else get_key i m)
unfolding get_key set_key
get_key-set_key n i k [] = ground arith
get_key-set_key n i k (x ∷ m) = ground (arith, get_key-set_key n i k m)

first_cell :
    (p : Bytes) (c : Option Element) (cs : KeyBuffer) (i : ℕ)
    → (if holds p c then some 0 else none) ≡ some i
    → (e : Element) × (cell i (c ∷ cs) ≡ some e) × (e.dh_pub ≡ p)
unfolding holds cell
first_cell p none cs i h = cc
first_cell p (some e) cs zero h = (e, refl, ground (arith, bytes_eq→eq p e.dh_pub))
first_cell p (some e) cs (suc i) h = ground arith

later_cell :
    (p : Bytes) (c : Option Element) (cs : KeyBuffer) (i j : ℕ)
    → ◌≡◌ {A = Option ℕ} (some (suc j)) (some i)
    → (e : Element) × (cell j cs ≡ some e) × (e.dh_pub ≡ p)
    → (e : Element) × (cell i (c ∷ cs) ≡ some e) × (e.dh_pub ≡ p)
unfolding cell
later_cell p c cs zero j h f = ground arith
later_cell p c cs (suc i) j h f = let same : j ≡ i = ground arith in (f.0, rw (← same) f.1, f.2)

-- Where an element is found, the cell bears that key.
pub element_find-holds :
    (p : Bytes) (kb : KeyBuffer) (i : ℕ)
    → element_find p kb ≡ some i
    → (e : Element) × (cell i kb ≡ some e) × (e.dh_pub ≡ p)
unfolding element_find
element_find-holds p [] i h = cc
element_find-holds p (c ∷ cs) i h = elim (Option-cases (element_find p cs)) [
  | inl e ↦ first_cell p c cs i (rw e at h)
  | inr (j, e) ↦ later_cell p c cs i j (rw e at h) (element_find-holds p cs j e)
]

-- Writing a key changes no chain's public key.
pub element_find-write_cell :
    (p : Bytes) (i n : ℕ) (k : Bytes) (kb : KeyBuffer)
    → element_find p (write_cell i n k kb) ≡ element_find p kb
unfolding element_find write_cell holds
element_find-write_cell p i n k [] = refl
element_find-write_cell p zero n k (none ∷ cs) = refl
element_find-write_cell p zero n k (some e ∷ cs) = refl
element_find-write_cell p (suc i) n k (c ∷ cs) = rw (element_find-write_cell p i n k cs)

pub cell-write_cell_self :
    (i n : ℕ) (k : Bytes) (kb : KeyBuffer) (e : Element)
    → cell i kb ≡ some e
    → cell i (write_cell i n k kb) ≡ some (record e { msg_keys = set_key n k e.msg_keys })
unfolding cell write_cell
cell-write_cell_self i n k [] e h = cc
cell-write_cell_self zero n k (none ∷ cs) e h = cc
cell-write_cell_self zero n k (some x ∷ cs) e h = ground arith
cell-write_cell_self (suc i) n k (c ∷ cs) e h = cell-write_cell_self i n k cs e h

pub cell-write_cell_ne :
    (i j n : ℕ) (k : Bytes) (kb : KeyBuffer) → i ≢ j → cell j (write_cell i n k kb) ≡ cell j kb
unfolding cell write_cell
cell-write_cell_ne i j n k [] h = refl
cell-write_cell_ne zero zero n k (c ∷ cs) h = absurd (h refl)
cell-write_cell_ne zero (suc j) n k (none ∷ cs) h = refl
cell-write_cell_ne zero (suc j) n k (some e ∷ cs) h = refl
cell-write_cell_ne (suc i) zero n k (c ∷ cs) h = refl
cell-write_cell_ne (suc i) (suc j) n k (c ∷ cs) h = cell-write_cell_ne i j n k cs (omega arith)

pub element_find-drop_last :
    (p : Bytes) (kb : KeyBuffer) → element_find p kb ≡ none → element_find p (drop_last kb) ≡ none
unfolding element_find drop_last
element_find-drop_last p [] h = refl
element_find-drop_last p (c ∷ []) h = refl
element_find-drop_last p (c ∷ d ∷ cs) h = ground (arith, element_find-drop_last p (d ∷ cs))

-- A lookup is decided by the cell that is found.
pub find-cell :
    (p : Bytes) (n : ℕ) (kb : KeyBuffer) (i : ℕ)
    → element_find p kb ≡ some i
    → find p n kb ≡ find_number n (cell i kb)
unfolding find
find-cell p n kb i h = rw (h, find)

pub find-absent :
    (p : Bytes) (n : ℕ) (kb : KeyBuffer)
    → element_find p kb ≡ none
    → find p n kb ≡ err Error.key_not_cached
unfolding find
find-absent p n kb h = rw (h, find)
