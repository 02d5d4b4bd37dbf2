-- ===== src/Tests/Memories.antt =====
-- Logs of events.
use go_ratchet.Prelude.{ℕ, ◌≡◌, arith, bytes_eq, List, [], ◌∷◌, ok, Bytes}
use go_ratchet.Prelude.Maps.{Map, lookup}
use go_ratchet.Disk.{ℤ, negsuc}
use go_ratchet.Memory.{Page, read_log}
use go_ratchet.Memory.Reading.{ReadsBack, read_log-selected}

-- Every page starts at the last entry.
abbrev pub from_last : ℕ → ℕ → ℤ → ℤ → Page
from_last first last after count = record { start = last; count = count }

pub from_last-ReadsBack : ReadsBack from_last
from_last-ReadsBack last h k = (h, omega arith)

abbrev numbers : Map (List ℕ)
numbers = (7 ∷ [], 1 ∷ 2 ∷ 3 ∷ []) ∷ []

read_log-selected_example :
    read_log from_last numbers (7 ∷ []) (negsuc 0) (negsuc 1) ≡ ok (3 ∷ 2 ∷ [])
unfolding lookup bytes_eq
read_log-selected_example = read_log-selected from_last numbers (7 ∷ []) (negsuc 0) (negsuc 1)

abbrev pub nick : Bytes → Bytes
nick text = text
