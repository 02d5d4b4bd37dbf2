-- ===== src/Memory/Updating.antt =====
-- The logs after any number of events (session/mem/mem-session.go).
use go_ratchet.Prelude.{
  ◌≡◌, sym, ap, ◌∙◌, Bool, true, false, if◌then◌else◌, Option, some, none, List, [], ◌∷◌, ◌++◌,
  Bytes, bytes_eq, bytes_eq→eq, Bool-cases, inl, inr,
}
use mathlib.Core.List.{append_assoc, append-nil}
use go_ratchet.Prelude.Maps.{Map, lookup-assign_self, lookup-assign_other}
use go_ratchet.Client.{Event}
use go_ratchet.Memory.{entries, stream_of, logged_in, append_to, update}

abbrev pub is_for : Bytes → Option Bytes → Bool
is_for name none = false
is_for name (some stream) = bytes_eq name stream

joined :
    {A : Type 0} (b : Bool) (e : A) (s rest : List A)
    → (s ++ (if b then e ∷ [] else [])) ++ rest ≡ s ++ (if b then e ∷ rest else rest)
joined true e s rest = append_assoc s (e ∷ []) rest
joined false e s rest = append_assoc s [] rest

module _ {Text Ev : Type 0} (nick : Text → Bytes) where
  -- The events in the order in which they are dispatched.
  abbrev pub update_all :
      List (Event Text Ev) → Map (List (Event Text Ev)) → Map (List (Event Text Ev))
  update_all [] logs = logs
  update_all (e ∷ es) logs = update_all es (update nick e logs)

  -- The events that are for one stream.
  abbrev pub events_for : Bytes → List (Event Text Ev) → List (Event Text Ev)
  events_for name [] = []
  events_for name (e ∷ es) =
      let rest = events_for name es in if is_for name (logged_in nick e) then e ∷ rest else rest

  append_to-stream :
      (name : Bytes) (stream : Option Bytes) (e : Event Text Ev) (logs : Map (List (Event Text Ev)))
      → stream_of name (append_to stream e logs)
        ≡ stream_of name logs ++ (if is_for name stream then e ∷ [] else [])
  unfolding append_to
  append_to-stream name none e logs = sym (append-nil (stream_of name logs))
  append_to-stream name (some stream) e logs = elim (Bool-cases (bytes_eq name stream)) [
    | inl same ↦
        let k : name ≡ stream = bytes_eq→eq name stream same in
        let added : List (Event Text Ev) = stream_of stream logs ++ (e ∷ []) in
        rw (same, k) (ap entries (lookup-assign_self stream added logs))
    | inr apart ↦
        let added : List (Event Text Ev) = stream_of stream logs ++ (e ∷ []) in
        rw apart (
          ap entries (lookup-assign_other name stream added logs apart)
          ∙ sym (append-nil (stream_of name logs)))
  ]

  -- After any sequence of events, each stream has what it had, and then those of the events that
  -- are logged in it, in their order.
  pub stream_of-update_all :
      (name : Bytes) (es : List (Event Text Ev)) (logs : Map (List (Event Text Ev)))
      → stream_of name (update_all es logs) ≡ stream_of name logs ++ events_for name es
  unfolding update
  stream_of-update_all name [] logs = sym (append-nil (stream_of name logs))
  stream_of-update_all name (e ∷ es) logs =
      let one = append_to-stream name (logged_in nick e) e logs in
      let rest = stream_of-update_all name es (update nick e logs) in
      rest
      ∙ ap (λ s. s ++ events_for name es) one
      ∙ joined (is_for name (logged_in nick e)) e (stream_of name logs) (events_for name es)
