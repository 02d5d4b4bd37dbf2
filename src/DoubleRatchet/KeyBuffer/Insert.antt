-- ===== src/DoubleRatchet/KeyBuffer/Insert.antt =====
-- What an insertion into the ring does to later lookups.
use go_ratchet.Prelude.{
  ℕ, ◌≡◌, ◌≢◌, sym, ◌∙◌, arith, none, some, [], ◌∷◌, ok, err, Bytes, Error, bytes_eq, bytes_eq_refl,
  bytes_eq→eq, if◌then◌else◌, ◌==◌, ◌&&◌, Bool-cases, Option-cases, inl, inr,
}
use go_ratchet.DoubleRatchet.KeyBuffer.{
  get_key, set_key, Element, KeyBuffer, holds, element_find, drop_last, cell, find_number, find,
  write_cell, insert,
}
use go_ratchet.DoubleRatchet.KeyBuffer.Lookup.{
  get_key-set_key, element_find-holds, element_find-write_cell, cell-write_cell_self,
  cell-write_cell_ne, element_find-drop_last, find-cell, find-absent,
}

pub insert_cached :
    (p : Bytes) (n : ℕ) (k : Bytes) (kb : KeyBuffer) (i : ℕ)
    → element_find p kb ≡ some i
    → insert p n k kb ≡ write_cell i n k kb
unfolding insert
insert_cached p n k kb i h = rw (h, insert)

pub insert_new :
    (p : Bytes) (n : ℕ) (k : Bytes) (kb : KeyBuffer)
    → element_find p kb ≡ none
    → insert p n k kb ≡ some (record { dh_pub = p; msg_keys = (n, k) ∷ [] }) ∷ drop_last kb
unfolding insert set_key
insert_new p n k kb h = rw (h, insert)

find_number-set_key :
    (n m : ℕ) (k : Bytes) (e : Element)
    → find_number m (some (record e { msg_keys = set_key n k e.msg_keys }))
      ≡ (if n == m then ok k else find_number m (some e))
unfolding find_number
find_number-set_key n m k e = ground (arith, get_key-set_key n m k e.msg_keys)

same_chain :
    (p : Bytes) (n m : ℕ) (k : Bytes) (kb : KeyBuffer) (i : ℕ)
    → element_find p kb ≡ some i
    → find p m (write_cell i n k kb) ≡ (if n == m then ok k else find p m kb)
same_chain p n m k kb i h =
    let (e, at_i, _) = element_find-holds p kb i h in
    rw
      (
        find-cell p m (write_cell i n k kb) i (element_find-write_cell p i n k kb ∙ h),
        cell-write_cell_self i n k kb e at_i,
        find-cell p m kb i h,
        at_i,
      )
      (find_number-set_key n m k e)

other_chain :
    (p q : Bytes) (n m : ℕ) (k : Bytes) (kb : KeyBuffer) (i : ℕ)
    → element_find p kb ≡ some i
    → q ≢ p
    → find q m (write_cell i n k kb) ≡ find q m kb
other_chain p q n m k kb i h ne = elim (Option-cases (element_find q kb)) [
  | inl e ↦
      find-absent q m (write_cell i n k kb) (element_find-write_cell q i n k kb ∙ e)
      ∙ sym (find-absent q m kb e)
  | inr (j, e) ↦
      let (x, at_i, px) = element_find-holds p kb i h in
      let (y, at_j, qy) = element_find-holds q kb j e in
      let apart : i ≢ j = λ s. ne (cc) in
      rw (
        find-cell q m (write_cell i n k kb) j (element_find-write_cell q i n k kb ∙ e),
        cell-write_cell_ne i j n k kb apart,
        find-cell q m kb j e,
      )
]

-- If a chain is in the ring, then after inserting a key for it that key is found, and every other
-- lookup, for this chain or another, is as before.
pub find-insert_cached :
    (p q : Bytes) (n m : ℕ) (k : Bytes) (kb : KeyBuffer) (i : ℕ)
    → element_find p kb ≡ some i
    → find q m (insert p n k kb) ≡ (if bytes_eq q p && n == m then ok k else find q m kb)
find-insert_cached p q n m k kb i h =
    rw (insert_cached p n k kb i h) (elim (Bool-cases (bytes_eq q p)) [
      | inl same ↦ let e : q ≡ p = bytes_eq→eq q p same in rw (same, e) (same_chain p n m k kb i h)
      | inr apart ↦
          let ne : q ≢ p = λ e. ground (arith, bytes_eq_refl p) in
          rw apart (other_chain p q n m k kb i h ne)
    ])

front_cell :
    (p q : Bytes) (n m : ℕ) (k : Bytes) (kb : KeyBuffer)
    → element_find p kb ≡ none
    → find q m (some (record { dh_pub = p; msg_keys = (n, k) ∷ [] }) ∷ kb)
      ≡ (if bytes_eq q p then if n == m then ok k else err Error.number_not_cached else find q m kb)
unfolding find element_find holds cell find_number get_key
front_cell p q n m k kb h = ground (arith, bytes_eq→eq q p)

-- If a chain is not in the ring, then after inserting its first key that key is found, no other
-- number of the chain is, and a lookup for another chain is as if the oldest cell of the ring had
-- been taken out.
pub find-insert_new :
    (p q : Bytes) (n m : ℕ) (k : Bytes) (kb : KeyBuffer)
    → element_find p kb ≡ none
    → find q m (insert p n k kb) ≡ (
        if bytes_eq q p
        then if n == m then ok k else err Error.number_not_cached
        else find q m (drop_last kb))
find-insert_new p q n m k kb h =
    rw (insert_new p n k kb h) (front_cell p q n m k (drop_last kb) (element_find-drop_last p kb h))

-- Whatever the ring holds, an inserted key is found.
pub find-insert_self :
    (p : Bytes) (n : ℕ) (k : Bytes) (kb : KeyBuffer) → find p n (insert p n k kb) ≡ ok k
find-insert_self p n k kb = elim (Option-cases (element_find p kb)) [
  | inl e ↦ ground (arith, find-insert_new p p n n k kb e, bytes_eq_refl p)
  | inr (i, e) ↦ ground (arith, find-insert_cached p p n n k kb i e, bytes_eq_refl p)
]
