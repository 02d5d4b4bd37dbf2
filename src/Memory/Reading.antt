-- ===== src/Memory/Reading.antt =====
-- What `ReadLog` returns (session/mem/mem-session.go).
use go_ratchet.Prelude.{
  ◌==◌, ◌||◌, ◌&&◌, ltb, leb, panic, if◌then◌else◌, ℕ, zero, suc, ◌-◌, ◌<◌, ◌≤◌, ◌≡◌, refl, sym, ap,
  ◌∙◌, arith, Bool, true, false, List, [], ◌∷◌, ok, Bytes, length, take, drop, Bool-cases, inl, inr,
}
use mathlib.Core.List.{reverse}
use go_ratchet.Prelude.Maps.{Map}
use go_ratchet.Disk.{ℤ, negsuc}
use go_ratchet.Memory.{Page, stream_of, abs, is_positive, read_entries, read_stream, read_log}
use go_ratchet.Memory.Entries.{before, take_nil, drop_all, none_wanted, read_up, read_down}

nonzero : (k : ℕ) → (suc k == 0) ≡ false
nonzero k = ground arith

-- What the interactive mode relies on, which reads a log with -1 and -20 and in no other way: asked
-- for 20 entries back from the end of a log that has some, `PagerBox` starts at one of them or
-- wants none.
abbrev pub ReadsBack : (ℕ → ℕ → ℤ → ℤ → Page) → Type 0
ReadsBack pager_box =
    (last : ℕ)
    → 0 < last
    → let page = pager_box 1 last (negsuc 0) (negsuc 19) in
      0 < abs page.count → (0 < page.start) × (page.start ≤ last)

-- Whether a page of a log with this many entries can be read: where entries are wanted, its start
-- is the number of one.
abbrev pub can_read : ℕ → Page → Bool
can_read last page = last == 0 || abs page.count == 0 || (ltb 0 page.start && leb page.start last)

module _ {A : Type 0} where
  -- The entries that a page selects: from its start on, or back from its start.
  abbrev pub selected : List A → Page → List A
  selected s page =
      if is_positive page.count
      then take (abs page.count) (drop (page.start - 1) s)
      else take (abs page.count) (reverse (take page.start s))

  read_entries_lem :
      (x : A) (xs : List A) (up : Bool) (n start : ℕ)
      → 0 < start
      → start ≤ length (x ∷ xs)
      → read_entries (x ∷ xs) up n start
        ≡ ok (
            if up
            then take n (drop (start - 1) (x ∷ xs))
            else take n (reverse (take start (x ∷ xs))))
  read_entries_lem x xs up n zero l u = absurd (omega (arith, l))
  read_entries_lem x xs true n (suc k) l u =
      read_up x xs n k (omega (arith, u)) ∙ ap (λ j. ok (take n (drop j (x ∷ xs)))) (sym (before k))
  read_entries_lem x xs false n (suc k) l u = read_down x xs n k (omega (arith, u))

  page_lem :
      (x : A) (xs : List A) (up : Bool) (n start : ℕ)
      → (0 < n → (0 < start) × (start ≤ length (x ∷ xs)))
      → read_entries (x ∷ xs) up n start
        ≡ ok (
            if up
            then take n (drop (start - 1) (x ∷ xs))
            else take n (reverse (take start (x ∷ xs))))
  page_lem x xs true zero start inside = none_wanted x xs true start
  page_lem x xs false zero start inside = none_wanted x xs false start
  page_lem x xs up (suc n) start inside =
      let (low, high) = inside (omega arith) in read_entries_lem x xs up (suc n) start low high

  selected_nil : (page : Page) → selected [] page ≡ []
  selected_nil page = elim (Bool-cases (is_positive page.count)) [
    | inl up ↦ rw up (
        take_nil (abs page.count) (drop (page.start - 1) [])
          (drop_all [] (page.start - 1) (omega arith)))
    | inr down ↦ rw down (take_nil (abs page.count) _ (ap reverse (take_nil page.start [] refl)))
  ]

  -- The first index that is out of range ends the loop with a panic.
  read_outside :
      (x : A) (xs : List A) (up : Bool) (n start : ℕ)
      → (ltb 0 start && leb start (length (x ∷ xs))) ≡ false
      → read_entries (x ∷ xs) up (suc n) start ≡ panic
  unfolding read_entries
  read_outside x xs up n start h =
      let out : (ltb start 1 || ltb (length (x ∷ xs)) start) ≡ true = ground arith in rw out refl

  page_cases :
      (x : A) (xs : List A) (up : Bool) (n start : ℕ)
      → read_entries (x ∷ xs) up n start ≡ (
          if n == 0 || (ltb 0 start && leb start (length (x ∷ xs)))
          then ok (
              if up
              then take n (drop (start - 1) (x ∷ xs))
              else take n (reverse (take start (x ∷ xs))))
          else panic)
  page_cases x xs up zero start = page_lem x xs up zero start (λ h. absurd (omega (arith, h)))
  page_cases x xs up (suc n) start =
      elim (Bool-cases (ltb 0 start && leb start (length (x ∷ xs)))) [
        | inl fits ↦
            let inside : (0 < start) × (start ≤ length (x ∷ xs)) = (ground arith, ground arith) in
            rw (nonzero n, fits) (read_entries_lem x xs up (suc n) start inside.0 inside.1)
        | inr out ↦ rw (nonzero n, out) (read_outside x xs up n start out)
      ]

  read_stream_cases :
      (pager_box : ℕ → ℕ → ℤ → ℤ → Page) (s : List A) (after count : ℤ)
      → let page = pager_box 1 (length s) after count in
        read_stream pager_box s after count
        ≡ (if can_read (length s) page then ok (selected s page) else panic)
  unfolding read_stream
  read_stream_cases pager_box [] after count =
      ap ok (sym (selected_nil (pager_box 1 0 after count)))
  read_stream_cases pager_box (x ∷ xs) after count =
      let page = pager_box 1 (length (x ∷ xs)) after count in
      rw (nonzero (length xs))
        (page_cases x xs (is_positive page.count) (abs page.count) page.start)

  -- `ReadLog` on all branches, whatever `PagerBox` gives. A log without entries has nothing to
  -- read. Of any other log it returns the entries that the page selects, in their order or
  -- backwards, if the page wants none or starts at the number of an entry; otherwise an index is
  -- out of range and it panics.
  pub read_log-selected :
      (pager_box : ℕ → ℕ → ℤ → ℤ → Page) (logs : Map (List A)) (name : Bytes) (after count : ℤ)
      → let s = stream_of name logs in
        let page = pager_box 1 (length s) after count in
        read_log pager_box logs name after count
        ≡ (if can_read (length s) page then ok (selected s page) else panic)
  unfolding read_log
  read_log-selected pager_box logs name after count =
      read_stream_cases pager_box (stream_of name logs) after count

  -- The last entries of a log, which "/log" and "/chat" show.
  pub read_log-back :
      (pager_box : ℕ → ℕ → ℤ → ℤ → Page) (logs : Map (List A)) (name : Bytes)
      → ReadsBack pager_box
      → read_log pager_box logs name (negsuc 0) (negsuc 19)
        ≡ ok (
            selected
              (stream_of name logs)
              (pager_box 1 (length (stream_of name logs)) (negsuc 0) (negsuc 19)))
  read_log-back pager_box logs name back =
      let s = stream_of name logs in
      let page = pager_box 1 (length s) (negsuc 0) (negsuc 19) in
      let fits : can_read (length s) page ≡ true = ground (arith, back (length s)) in
      read_log-selected pager_box logs name (negsuc 0) (negsuc 19) ∙ rw fits refl
