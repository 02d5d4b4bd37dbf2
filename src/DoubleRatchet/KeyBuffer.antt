-- ===== src/DoubleRatchet/KeyBuffer.antt =====
-- doubleratchet/key_buff.go: the message keys of skipped messages, in a ring of eight chains.
-- A `*ring.Ring` is the list of its cells from the current one on (`none` is a nil value), so a
-- pointer into the ring is an index, and `Prev` moves the last cell to the front.
pub mod Lookup
pub mod Insert
pub mod Bound
pub mod Cache
use go_ratchet.Prelude.{
  Bool, true, false, ℕ, zero, suc, ◌==◌, if◌then◌else◌, Option, none, some, List, [], ◌∷◌, Error,
  Result, ok, err, Bytes, bytes_eq, replicate,
}

abbrev pub max_skip_chains : ℕ
max_skip_chains = 8

abbrev pub max_skip_elements : ℕ
max_skip_elements = 32

-- `map[int][]byte`
abbrev pub MsgKeys : Type 0
MsgKeys = List (ℕ × Bytes)

unfoldable pub get_key : ℕ → MsgKeys → Option Bytes
get_key n [] = none
get_key n ((i, k) ∷ m) = if i == n then some k else get_key n m

unfoldable pub set_key : ℕ → Bytes → MsgKeys → MsgKeys
set_key n key [] = (n, key) ∷ []
set_key n key ((i, k) ∷ m) = if i == n then (n, key) ∷ m else (i, k) ∷ set_key n key m

pub record Element : Type 0 where
  pub dh_pub : Bytes
  pub msg_keys : MsgKeys

abbrev pub KeyBuffer : Type 0
KeyBuffer = List (Option Element)

abbrev pub new_key_buffer : KeyBuffer
new_key_buffer = replicate max_skip_chains none

unfoldable pub holds : Bytes → Option Element → Bool
unfolding bytes_eq
holds dh_pub none = false
holds dh_pub (some e) = bytes_eq dh_pub e.dh_pub

-- The cell that `Do` leaves in `kbe`: the last one that matches.
unfoldable pub element_find : Bytes → KeyBuffer → Option ℕ
element_find dh_pub [] = none
element_find dh_pub (c ∷ cs) = elim (element_find dh_pub cs) [
  | some i ↦ some (suc i)
  | none ↦ if holds dh_pub c then some 0 else none
]

-- `Prev`, then a new value in the current cell: the oldest chain is overwritten.
unfoldable pub drop_last : KeyBuffer → KeyBuffer
drop_last [] = []
drop_last (c ∷ []) = []
drop_last (c ∷ d ∷ cs) = c ∷ drop_last (d ∷ cs)

unfoldable pub element_add : Bytes → KeyBuffer → KeyBuffer
element_add dh_pub kb = some (record { dh_pub = dh_pub; msg_keys = [] }) ∷ drop_last kb

unfoldable pub cell : ℕ → KeyBuffer → Option Element
cell i [] = none
cell zero (c ∷ cs) = c
cell (suc i) (c ∷ cs) = cell i cs

unfoldable pub find_number : ℕ → Option Element → Result Bytes
find_number n none = err Error.key_not_cached
find_number n (some e) = elim (get_key n e.msg_keys) [
  | none ↦ err Error.number_not_cached
  | some k ↦ ok k
]

unfoldable pub find : Bytes → ℕ → KeyBuffer → Result Bytes
unfolding find_number
find dh_pub msg_no kb = elim (element_find dh_pub kb) [
  | none ↦ err Error.key_not_cached
  | some i ↦ find_number msg_no (cell i kb)
]

-- `kbe.msgKeys[msgNo] = msgKey`, through the pointer to the i-th cell
unfoldable pub write_cell : ℕ → ℕ → Bytes → KeyBuffer → KeyBuffer
write_cell i n key [] = []
write_cell zero n key (none ∷ cs) = none ∷ cs
write_cell zero n key (some e ∷ cs) = some (record e { msg_keys = set_key n key e.msg_keys }) ∷ cs
write_cell (suc i) n key (c ∷ cs) = c ∷ write_cell i n key cs

unfoldable pub insert : Bytes → ℕ → Bytes → KeyBuffer → KeyBuffer
unfolding element_add write_cell
insert dh_pub msg_no msg_key kb = elim (element_find dh_pub kb) [
  | none ↦ write_cell 0 msg_no msg_key (element_add dh_pub kb)
  | some i ↦ write_cell i msg_no msg_key kb
]
