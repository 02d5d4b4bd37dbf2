-- ===== src/Tests/KeyBuffers.antt =====
-- The ring of message keys.
use go_ratchet.Prelude.{ℕ, ◌≡◌, List, [], ◌∷◌, ok, Bytes, bytes_eq}
use go_ratchet.DoubleRatchet.KeyBuffer.{find, find_number, get_key, set_key, new_key_buffer}
use go_ratchet.DoubleRatchet.KeyBuffer.Bound.{insert_all}
use go_ratchet.DoubleRatchet.KeyBuffer.Cache.{find-cached}

-- Two keys of one chain and then eight other chains, of which the last pushes out the first one.
abbrev history : List (Bytes × ℕ × Bytes)
history =
    (1 ∷ [], 5, 7 ∷ [])
    ∷ (1 ∷ [], 6, 9 ∷ [])
    ∷ (2 ∷ [], 1, 8 ∷ [])
    ∷ (3 ∷ [], 1, 8 ∷ [])
    ∷ (4 ∷ [], 1, 8 ∷ [])
    ∷ (5 ∷ [], 1, 8 ∷ [])
    ∷ (6 ∷ [], 1, 8 ∷ [])
    ∷ (7 ∷ [], 1, 8 ∷ [])
    ∷ (8 ∷ [], 1, 8 ∷ [])
    ∷ (2 ∷ [], 4, 3 ∷ [])
    ∷ (9 ∷ [], 1, 8 ∷ [])
    ∷ []

find-cached_example : find (2 ∷ []) 4 (insert_all history new_key_buffer) ≡ ok (3 ∷ [])
unfolding find_number get_key set_key bytes_eq
find-cached_example = find-cached history (2 ∷ []) 4
