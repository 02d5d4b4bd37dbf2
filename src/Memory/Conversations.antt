-- ===== src/Memory/Conversations.antt =====
-- What belongs in which log, by what an event is about (session/mem/mem-session.go).
use go_ratchet.Prelude.{
  ◌≡◌, refl, Bool, true, false, if◌then◌else◌, List, [], ◌∷◌, Result, ok, panic, Bytes, bytes_eq,
  length, ℕ,
}
use go_ratchet.Prelude.Maps.{Map}
use go_ratchet.Disk.{ℤ}
use go_ratchet.Client.{
  Event, offer_sent, offer_received, session_started, session_closed, message_received,
  event_received, message_sent, close_sent, salty_text_received, salty_event_received, salty_sent,
  received, failed,
}
use go_ratchet.Memory.{Page, stream_of, user_stream, system_stream, logged_in, read_log}
use go_ratchet.Memory.Reading.{can_read, selected, read_log-selected}
use go_ratchet.Memory.Updating.{is_for, events_for}

-- The elements that pass a test, in their order.
abbrev pub kept : {A : Type 0} → (A → Bool) → List A → List A
kept p [] = []
kept p (x ∷ xs) = let rest = kept p xs in if p x then x ∷ rest else rest

-- A result is a page of a list, or a panic where the page starts at no entry.
abbrev pub Pages : {A : Type 0} → Result (List A) → List A → (ℕ → Page) → Type 0
Pages r s page =
    r ≡ (if can_read (length s) (page (length s)) then ok (selected s (page (length s))) else panic)

pub Pages-read_log :
    {A : Type 0} (pager_box : ℕ → ℕ → ℤ → ℤ → Page) (logs : Map (List A)) (name : Bytes)
    (after count : ℤ) (s : List A)
    → stream_of name logs ≡ s
    → Pages (read_log pager_box logs name after count) s (λ n. pager_box 1 n after count)
Pages-read_log pager_box logs name after count s e =
    rw (← e) (read_log-selected pager_box logs name after count)

module _ {Text Ev : Type 0} where
  -- The conversation with a peer. A salty text is of the peer whose nick it bears.
  abbrev pub is_with : (Text → Bytes) → Bytes → Event Text Ev → Bool
  is_with nick peer (session_started uid them) = bytes_eq peer them
  is_with nick peer (session_closed uid them) = bytes_eq peer them
  is_with nick peer (message_sent uid them raw msg text) = bytes_eq peer them
  is_with nick peer (message_received uid them raw msg) = bytes_eq peer them
  is_with nick peer (salty_sent them addr msg raw) = bytes_eq peer them
  is_with nick peer (salty_text_received key msg) = bytes_eq peer (nick msg)
  is_with nick peer e = false

  -- Offers and salty events.
  abbrev pub is_for_system : Event Text Ev → Bool
  is_for_system (offer_sent uid them raw) = true
  is_for_system (offer_received uid them answer) = true
  is_for_system (salty_event_received key e) = true
  is_for_system e = false

  module _ (nick : Text → Bytes) where
    is_for-peer :
        (peer : Bytes) (e : Event Text Ev)
        → is_for (user_stream peer) (logged_in nick e) ≡ is_with nick peer e
    unfolding logged_in bytes_eq
    is_for-peer peer (session_started uid them) = refl
    is_for-peer peer (session_closed uid them) = refl
    is_for-peer peer (message_received uid them raw msg) = refl
    is_for-peer peer (message_sent uid them raw msg text) = refl
    is_for-peer peer (salty_sent them addr msg raw) = refl
    is_for-peer peer (salty_text_received key msg) = refl
    is_for-peer peer (received raw) = refl
    is_for-peer peer (offer_sent uid them raw) = refl
    is_for-peer peer (offer_received uid them answer) = refl
    is_for-peer peer (salty_event_received key e) = refl
    is_for-peer peer (event_received uid them raw msg) = refl
    is_for-peer peer (close_sent uid them text) = refl
    is_for-peer peer (failed e) = refl

    is_for-system : (e : Event Text Ev) → is_for system_stream (logged_in nick e) ≡ is_for_system e
    unfolding logged_in bytes_eq
    is_for-system (session_started uid them) = refl
    is_for-system (session_closed uid them) = refl
    is_for-system (message_received uid them raw msg) = refl
    is_for-system (message_sent uid them raw msg text) = refl
    is_for-system (salty_sent them addr msg raw) = refl
    is_for-system (salty_text_received key msg) = refl
    is_for-system (received raw) = refl
    is_for-system (offer_sent uid them raw) = refl
    is_for-system (offer_received uid them answer) = refl
    is_for-system (salty_event_received key e) = refl
    is_for-system (event_received uid them raw msg) = refl
    is_for-system (close_sent uid them text) = refl
    is_for-system (failed e) = refl

    pub events_for_peer :
        (peer : Bytes) (es : List (Event Text Ev))
        → events_for nick (user_stream peer) es ≡ kept (is_with nick peer) es
    events_for_peer peer [] = refl
    events_for_peer peer (e ∷ es) = rw (is_for-peer peer e, events_for_peer peer es)

    pub events_for_system :
        (es : List (Event Text Ev)) → events_for nick system_stream es ≡ kept is_for_system es
    events_for_system [] = refl
    events_for_system (e ∷ es) = rw (is_for-system e, events_for_system es)
