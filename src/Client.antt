-- ===== src/Client.antt =====
-- client/client.go: the client, over a manager of sessions. Its state is the manager, the texts
-- that were posted and the events that were dispatched. What an operation reads from outside (the
-- clock, crypto/rand, whether a post fails) is an argument.
pub mod Interface
pub mod Operations
pub mod Inputs
pub mod Sent
pub mod Sending
pub mod Answering
pub mod OnDisk
pub mod Kept
pub mod Managing
pub mod Growing
pub mod Running
pub mod Handlers
pub mod Receiving
pub mod Delivery
use go_ratchet.Prelude.{
  ℕ, if◌then◌else◌, Bool, true, false, Option, none, some, List, [], ◌∷◌, ◌++◌, Error, Result, ok,
  err, panic, Bytes, fit,
}
use go_ratchet.Prelude.Methods.{Action, ◌>>=◌, ◌>>◌, and_then, lift, get, modify}
use go_ratchet.Prelude.Errors.{fail_if}
use go_ratchet.Disk.{ℤ, Addr, DiskSession, DiskCall}
use go_ratchet.Client.Interface.{SessionManager}

-- The events that are dispatched to the handlers; `failed` is an error.
pub data Event (Text Ev : Type 0) : Type 0 where
  offer_sent : Bytes → Bytes → Bytes → Event Text Ev
  offer_received : Bytes → Bytes → Bytes → Event Text Ev
  session_started : Bytes → Bytes → Event Text Ev
  message_received : Bytes → Bytes → Bytes → Text → Event Text Ev
  event_received : Bytes → Bytes → Bytes → Ev → Event Text Ev
  message_sent : Bytes → Bytes → Bytes → Text → Bytes → Event Text Ev
  close_sent : Bytes → Bytes → Bytes → Event Text Ev
  session_closed : Bytes → Bytes → Event Text Ev
  salty_text_received : Bytes → Text → Event Text Ev
  salty_event_received : Bytes → Ev → Event Text Ev
  salty_sent : Bytes → Addr → Text → Bytes → Event Text Ev
  received : Bytes → Event Text Ev
  failed : Error → Event Text Ev

-- `Client`, without the registered handlers: each handler of an event of the client's own returns
-- no error. `posted` has the endpoint and the text of each post that did not fail.
pub record Client (M Text Ev : Type 0) : Type 0 where
  pub sm : M
  pub addr : Addr
  pub posted : List (Bytes × Bytes)
  pub events : List (Event Text Ev)

-- `OnInput`
pub record Input : Type 0 where
  pub position : ℤ
  pub payload : Bytes

-- What go.yarn.social/lextwt parses.
pub data Parsed (Text Ev : Type 0) : Type 0 where
  parsed_text : Text → Parsed Text Ev
  parsed_event : Ev → Parsed Text Ev
  parsed_other : Parsed Text Ev

-- go.yarn.social/lextwt and go.mills.io/salty. A new text has a time, a user, a domain, its words
-- and its events; `none` is an error.
pub record Salty (Text Ev : Type 0) : Type 0 where
  pub new_salty_text : ℕ → Bytes → Bytes → Bytes → List Ev → Text
  pub literal : Text → Bytes
  pub parse_salty : Bytes → Option (Parsed Text Ev)
  pub ulid_time : Bytes → ℕ
  pub encrypt_salty : Bytes → Bytes → Bytes → Option Bytes
  pub decrypt_salty : Bytes → Bytes → Option (Bytes × Bytes)

-- The error of a value that may be missing.
abbrev pub present_or : {A : Type 0} → Error → Option A → Result A
present_or e none = err e
present_or e (some a) = ok a

-- A call whose error is looked at: the error becomes a value.
abbrev pub attempted : {S A : Type 0} → Result A × S → Result (Result A) × S
attempted (ok a, s) = (ok (ok a), s)
attempted (err e, s) = (ok (err e), s)
attempted (panic, s) = (panic, s)

abbrev pub attempt : {S A : Type 0} → Action S A → Action S (Result A)
attempt m s = attempted (m s)

-- A method of a session that is a local variable: the session afterwards is part of the result.
abbrev pub ran : {A : Type 0} → Result A × DiskSession → Result (A × DiskSession)
ran (ok a, s) = ok (a, s)
ran (err e, s) = err e
ran (panic, s) = panic

abbrev pub run_on : {S A : Type 0} → DiskSession → DiskCall A → Action S (A × DiskSession)
run_on s m = lift (ran (m s))

module _ {M Text Ev : Type 0} where
  -- A method of the manager, inside `Use`.
  abbrev pub on_manager : {A : Type 0} → Action M A → Action (Client M Text Ev) A
  on_manager m c = let (r, sm) = m c.sm in (r, record c { sm = sm })

  -- `dispatch`
  unfoldable pub dispatch : Event Text Ev → Action (Client M Text Ev) (Unit {0})
  dispatch e = modify λ c. record c { events = c.events ++ (e ∷ []) }

  -- A post to an endpoint. `sendMsg` does not look at the response.
  unfoldable pub post : Bool → Bytes → Bytes → Action (Client M Text Ev) (Unit {0})
  post post_failed endpoint text = do
    lift (fail_if post_failed Error.post_failed)
    modify (λ c. record c { posted = c.posted ++ ((endpoint, text) ∷ []) })

  unfoldable pub send_msg : Bool → DiskSession → Bytes → Action (Client M Text Ev) (Unit {0})
  send_msg post_failed s text = post post_failed s.endpoint text

  -- `if err != nil { dispatch(ctx, c, err) }`
  unfoldable pub reported :
      Action (Client M Text Ev) (Unit {0}) → Action (Client M Text Ev) (Unit {0})
  reported m = do
    r ← attempt m
    elim r [ ok done ↦ lift (ok tt) | err e ↦ dispatch (failed e) | panic ↦ lift panic ]
