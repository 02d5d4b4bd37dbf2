-- ===== src/DoubleRatchet/KeyBuffer/Cache.antt =====
-- What the ring of message keys (doubleratchet/key_buff.go) is for its users: the newest chains,
-- each with its keys. A chain that is not among them comes to the front, and the oldest one is
-- forgotten.
use go_ratchet.Prelude.{
  ℕ, zero, suc, ◌+◌, ◌≡◌, refl, sym, ap, ◌∙◌, arith, Bool, true, false, ◌||◌, none, some, List, [],
  ◌∷◌, Result, err, Error, Bytes, bytes_eq, bytes_eq→eq, length, take, replicate, if◌then◌else◌,
  Bool-cases, Option-cases, inl, inr,
}
use go_ratchet.DoubleRatchet.KeyBuffer.{
  Element, KeyBuffer, set_key, holds, element_find, drop_last, cell, find_number, find, write_cell,
  insert, new_key_buffer, max_skip_chains,
}
use go_ratchet.DoubleRatchet.KeyBuffer.Lookup.{find-cell, find-absent}
use go_ratchet.DoubleRatchet.KeyBuffer.Insert.{insert_cached, insert_new}
use go_ratchet.DoubleRatchet.KeyBuffer.Bound.{insert_all}

-- The newest chain stands first.
abbrev pub Cache : Type 0
Cache = List Element

abbrev pub has_chain : Bytes → Cache → Bool
has_chain p [] = false
has_chain p (e ∷ es) = bytes_eq p e.dh_pub || has_chain p es

abbrev pub add_key : Bytes → ℕ → Bytes → Cache → Cache
add_key p n k [] = []
add_key p n k (e ∷ es) =
    if bytes_eq p e.dh_pub
    then record e { msg_keys = set_key n k e.msg_keys } ∷ es
    else e ∷ add_key p n k es

abbrev pub put : Bytes → ℕ → Bytes → Cache → Cache
put p n k es =
    if has_chain p es
    then add_key p n k es
    else record { dh_pub = p; msg_keys = (n, k) ∷ [] } ∷ take 7 es

abbrev pub put_all : List (Bytes × ℕ × Bytes) → Cache → Cache
put_all [] es = es
put_all ((p, n, k) ∷ ins) es = put_all ins (put p n k es)

abbrev pub cached : Bytes → ℕ → Cache → Result Bytes
cached p n [] = err Error.key_not_cached
cached p n (e ∷ es) = if bytes_eq p e.dh_pub then find_number n (some e) else cached p n es

-- No chain stands twice.
abbrev AreApart : Cache → Type 0
AreApart [] = Unit {0}
AreApart (e ∷ es) = (has_chain e.dh_pub es ≡ false) × AreApart es

-- The cells of a ring with these chains and `j` empty cells.
abbrev ring : Cache → ℕ → KeyBuffer
ring [] j = replicate j none
ring (e ∷ es) j = some e ∷ ring es j

empty_cells : (p : Bytes) (j : ℕ) → element_find p (replicate j none) ≡ none
unfolding element_find holds
empty_cells p zero = refl
empty_cells p (suc j) = rw (empty_cells p j) refl

not_found :
    (p : Bytes) (es : Cache) (j : ℕ) → has_chain p es ≡ false → element_find p (ring es j) ≡ none
unfolding element_find holds
not_found p [] j h = empty_cells p j
not_found p (e ∷ es) j h = ground (arith, not_found p es j)

-- Where a chain is found, and what writing there does.
found :
    (p : Bytes) (n : ℕ) (k : Bytes) (es : Cache) (j : ℕ)
    → AreApart es
    → has_chain p es ≡ true
    → (i : ℕ) × (element_find p (ring es j) ≡ some i)
      × (write_cell i n k (ring es j) ≡ ring (add_key p n k es) j)
unfolding element_find holds write_cell
found p n k [] j d h = cc
found p n k (e ∷ es) j (d, ds) h = elim (Bool-cases (bytes_eq p e.dh_pub)) [
  | inl same ↦
      let q : p ≡ e.dh_pub = bytes_eq→eq p e.dh_pub same in
      let none_left = not_found p es j (rw q d) in (0, rw (none_left, same) refl, rw same refl)
  | inr apart ↦
      let (i, at, writes) = found p n k es j ds (rw apart at h) in
      (suc i, rw at refl, rw (apart, writes) refl)
]

find-ring :
    (p : Bytes) (n : ℕ) (es : Cache) (j : ℕ) → AreApart es → find p n (ring es j) ≡ cached p n es
unfolding find element_find holds cell
find-ring p n [] j d = find-absent p n (replicate j none) (empty_cells p j)
find-ring p n (e ∷ es) j (d, ds) = elim (Bool-cases (bytes_eq p e.dh_pub)) [
  | inl same ↦
      let q : p ≡ e.dh_pub = bytes_eq→eq p e.dh_pub same in
      let none_left = not_found p es j (rw q d) in rw (none_left, same) refl
  | inr apart ↦ elim (Option-cases (element_find p (ring es j))) [
    | inl missing ↦
        let all : element_find p (ring (e ∷ es) j) ≡ none = rw (missing, apart) refl in
        find-absent p n (ring (e ∷ es) j) all
        ∙ sym (find-absent p n (ring es j) missing)
        ∙ find-ring p n es j ds
        ∙ rw apart refl
    | inr (i, there) ↦
        let all : element_find p (ring (e ∷ es) j) ≡ some (suc i) = rw there refl in
        find-cell p n (ring (e ∷ es) j) (suc i) all
        ∙ sym (find-cell p n (ring es j) i there)
        ∙ find-ring p n es j ds
        ∙ rw apart refl
  ]
]

has_chain-add_key :
    (q p : Bytes) (n : ℕ) (k : Bytes) (es : Cache) → has_chain q (add_key p n k es) ≡ has_chain q es
has_chain-add_key q p n k [] = refl
has_chain-add_key q p n k (e ∷ es) = ground (arith, has_chain-add_key q p n k es)

length-add_key :
    (p : Bytes) (n : ℕ) (k : Bytes) (es : Cache) → length (add_key p n k es) ≡ length es
length-add_key p n k [] = refl
length-add_key p n k (e ∷ es) = ground (arith, length-add_key p n k es)

add_key-AreApart :
    (p : Bytes) (n : ℕ) (k : Bytes) (es : Cache) → AreApart es → AreApart (add_key p n k es)
add_key-AreApart p n k [] d = tt
add_key-AreApart p n k (e ∷ es) (d, ds) = elim (Bool-cases (bytes_eq p e.dh_pub)) [
  | inl same ↦ rw same (d, ds)
  | inr apart ↦ rw apart (has_chain-add_key e.dh_pub p n k es ∙ d, add_key-AreApart p n k es ds)
]

has_chain-take :
    (p : Bytes) (n : ℕ) (es : Cache) → has_chain p es ≡ false → has_chain p (take n es) ≡ false
has_chain-take p zero es h = refl
has_chain-take p (suc n) [] h = refl
has_chain-take p (suc n) (e ∷ es) h = ground (arith, has_chain-take p n es)

take-AreApart : (n : ℕ) (es : Cache) → AreApart es → AreApart (take n es)
take-AreApart zero es d = tt
take-AreApart (suc n) [] d = tt
take-AreApart (suc n) (e ∷ es) (d, ds) = (has_chain-take e.dh_pub n es d, take-AreApart n es ds)

drop_last-empty : (j : ℕ) → drop_last (replicate (suc j) none) ≡ replicate j none
unfolding drop_last
drop_last-empty zero = refl
drop_last-empty (suc j) = ap (λ cs. none ∷ cs) (drop_last-empty j)

-- Taking out the last cell of a ring takes out an empty one, or else the oldest chain.
drop_last-ring :
    (n : ℕ) (es : Cache) (j : ℕ)
    → length es + j ≡ suc n
    → (i : ℕ) × (drop_last (ring es j) ≡ ring (take n es) i) × (length (take n es) + i ≡ n)
unfolding drop_last
drop_last-ring n [] zero h = absurd (omega arith)
drop_last-ring zero [] (suc j) h = let e : j ≡ 0 = omega arith in (0, rw e refl, refl)
drop_last-ring (suc n) [] (suc j) h = (j, drop_last-empty j, omega arith)
drop_last-ring zero (e ∷ []) zero h = (0, refl, refl)
drop_last-ring zero (e ∷ []) (suc j) h = absurd (omega arith)
drop_last-ring zero (e ∷ x ∷ es) j h = absurd (omega arith)
drop_last-ring (suc n) (e ∷ []) zero h = absurd (omega arith)
drop_last-ring (suc n) (e ∷ []) (suc j) h =
    let (i, same, fits) = drop_last-ring n [] (suc j) (omega arith) in
    (i, ap (λ cs. some e ∷ cs) same, omega (arith, fits))
drop_last-ring (suc n) (e ∷ x ∷ es) j h =
    let (i, same, fits) = drop_last-ring n (x ∷ es) j (omega arith) in
    (i, ap (λ cs. some e ∷ cs) same, omega (arith, fits))

-- The ring of eight cells holds these chains.
record Holds (kb : KeyBuffer) (es : Cache) : Type 0 where
  empty : ℕ
  cells : kb ≡ ring es empty
  eight : length es + empty ≡ max_skip_chains
  apart : AreApart es

insert-Holds :
    (p : Bytes) (n : ℕ) (k : Bytes) (kb : KeyBuffer) (es : Cache)
    → Holds kb es
    → Holds (insert p n k kb) (put p n k es)
insert-Holds p n k kb es h = elim (Bool-cases (has_chain p es)) [
  | inl there ↦
      let (i, at, writes) = found p n k es h.empty h.apart there in
      rw (h.cells, insert_cached p n k (ring es h.empty) i at, there)
        (record {
          empty = h.empty;
          cells = writes;
          eight = ap (λ m. m + h.empty) (length-add_key p n k es) ∙ h.eight;
          apart = add_key-AreApart p n k es h.apart;
        })
  | inr new ↦
      let (i, same, fits) = drop_last-ring 7 es h.empty h.eight in
      rw (h.cells, insert_new p n k (ring es h.empty) (not_found p es h.empty new), new)
        (record {
          empty = i;
          cells = ap (λ cs. some (record { dh_pub = p; msg_keys = (n, k) ∷ [] }) ∷ cs) same;
          eight = omega (arith, fits);
          apart = (has_chain-take p 7 es new, take-AreApart 7 es h.apart);
        })
]

insert_all-Holds :
    (ins : List (Bytes × ℕ × Bytes)) (kb : KeyBuffer) (es : Cache)
    → Holds kb es
    → Holds (insert_all ins kb) (put_all ins es)
insert_all-Holds [] kb es h = h
insert_all-Holds ((p, n, k) ∷ ins) kb es h =
    insert_all-Holds ins (insert p n k kb) (put p n k es) (insert-Holds p n k kb es h)

-- After any history of insertions into a new buffer, each lookup finds what it finds in a cache
-- that went through the same history: at most eight chains, each with the keys since it came in,
-- the last for each number. A key for a chain of the cache is added to it in its place; a new chain
-- comes to the front, and of the others only the first seven stay.
pub find-cached :
    (ins : List (Bytes × ℕ × Bytes)) (p : Bytes) (n : ℕ)
    → find p n (insert_all ins new_key_buffer) ≡ cached p n (put_all ins [])
find-cached ins p n =
    let new : Holds new_key_buffer [] = record {
      empty = 8;
      cells = refl;
      eight = refl;
      apart = tt;
    } in
    let h = insert_all-Holds ins new_key_buffer [] new in
    ap (find p n) h.cells ∙ find-ring p n (put_all ins []) h.empty h.apart
