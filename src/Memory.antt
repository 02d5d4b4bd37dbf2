-- ===== src/Memory.antt =====
-- session/mem/mem-session.go: the log of events that is kept for each peer. `PagerBox` of
-- go.sour.is/pkg/math is a parameter.
pub mod Entries
pub mod Reading
pub mod Updating
pub mod Conversations
use go_ratchet.Prelude.{
  ℕ, zero, suc, ◌+◌, ◌-◌, ltb, ◌||◌, if◌then◌else◌, Bool, false, Option, none, some, List, [], ◌∷◌,
  ◌++◌, Result, ok, err, panic, Bytes, length, get_or,
}
use go_ratchet.Prelude.Maps.{Map, lookup, assign}
use go_ratchet.Disk.{ℤ, pos, negsuc}
use go_ratchet.Client.{
  Event, offer_sent, offer_received, session_started, session_closed, message_received,
  event_received, message_sent, close_sent, salty_text_received, salty_event_received, salty_sent,
  received, failed,
}

-- Where a log is read: the number of the first entry, from 1 on, and how many entries are wanted,
-- backwards if this is negative.
pub record Page : Type 0 where
  pub start : ℕ
  pub count : ℤ

-- A log that is missing is nil.
abbrev pub entries : {A : Type 0} → Option (List A) → List A
entries none = []
entries (some lis) = lis

-- `l[streamID]`
abbrev pub stream_of : {A : Type 0} → Bytes → Map (List A) → List A
stream_of name logs = entries (lookup name logs)

-- "user:" and a name
abbrev pub user_stream : Bytes → Bytes
user_stream name = b'u' ∷ b's' ∷ b'e' ∷ b'r' ∷ b':' ∷ name

-- "system"
abbrev pub system_stream : Bytes
system_stream = b's' ∷ b'y' ∷ b's' ∷ b't' ∷ b'e' ∷ b'm' ∷ []

-- `math.Abs`
abbrev pub abs : ℤ → ℕ
abs (pos n) = n
abs (negsuc n) = suc n

abbrev pub is_positive : ℤ → Bool
is_positive (pos n) = ltb 0 n
is_positive (negsuc n) = false

module _ {A : Type 0} where
  -- The loop of `ReadLog` over the entries that are left to fill: an index out of range panics, and
  -- the loop ends where the next number is out of range.
  unfoldable pub read_entries : List A → Bool → ℕ → ℕ → Result (List A)
  read_entries stream up zero start = ok []
  read_entries [] up (suc n) start = panic
  read_entries (x ∷ xs) up (suc n) start =
      let following = if up then start + 1 else start - 1 in
      let rest = read_entries (x ∷ xs) up n following in
      if ltb start 1 || ltb (length (x ∷ xs)) start
      then panic
      else if ltb following 1 || ltb (length (x ∷ xs)) following
      then ok (get_or (x ∷ xs) (start - 1) x ∷ [])
      else elim rest [
        | ok lis ↦ ok (get_or (x ∷ xs) (start - 1) x ∷ lis)
        | err e ↦ err e
        | panic ↦ panic
      ]

  -- `ReadLog` behind the lookup, with what `PagerBox` gives for the first and the last number.
  unfoldable pub read_stream : (ℕ → ℕ → ℤ → ℤ → Page) → List A → ℤ → ℤ → Result (List A)
  read_stream pager_box [] after count = ok []
  read_stream pager_box (x ∷ xs) after count =
      let page = pager_box 1 (length (x ∷ xs)) after count in
      read_entries (x ∷ xs) (is_positive page.count) (abs page.count) page.start

  unfoldable pub read_log : (ℕ → ℕ → ℤ → ℤ → Page) → Map (List A) → Bytes → ℤ → ℤ → Result (List A)
  read_log pager_box logs name after count = read_stream pager_box (stream_of name logs) after count

-- `log = append(log, msg); l[name] = log`
unfoldable pub append_to :
    {Text Ev : Type 0}
    → Option Bytes
    → Event Text Ev
    → Map (List (Event Text Ev))
    → Map (List (Event Text Ev))
append_to none e logs = logs
append_to (some name) e logs = assign name (stream_of name logs ++ (e ∷ [])) logs

module _ {Text Ev : Type 0} (nick : Text → Bytes) where
  -- The stream that an event is appended to, if any. No handler is registered for the last three.
  unfoldable pub logged_in : Event Text Ev → Option Bytes
  logged_in (session_started uid them) = some (user_stream them)
  logged_in (session_closed uid them) = some (user_stream them)
  logged_in (message_received uid them raw msg) = some (user_stream them)
  logged_in (message_sent uid them raw msg text) = some (user_stream them)
  logged_in (salty_sent them addr msg raw) = some (user_stream them)
  logged_in (salty_text_received key msg) = some (user_stream (nick msg))
  logged_in (received raw) = none
  logged_in (offer_sent uid them raw) = some system_stream
  logged_in (offer_received uid them answer) = some system_stream
  logged_in (salty_event_received key e) = some system_stream
  logged_in (event_received uid them raw msg) = none
  logged_in (close_sent uid them text) = none
  logged_in (failed e) = none

  -- `Update`
  unfoldable pub update : Event Text Ev → Map (List (Event Text Ev)) → Map (List (Event Text Ev))
  update e logs = append_to (logged_in e) e logs
