-- ===== src/Driver.antt =====
-- client/driver-msgbus/msgbus.go: the handler of a message bus, which gives each message of a
-- stream to the client. The bus, and the order in which it delivers, are outside: what arrives is a
-- list.
pub mod Position
pub mod Resuming
use go_ratchet.Prelude.{List, [], ◌∷◌, Result, ok, err, panic, Bytes}
use go_ratchet.Prelude.Methods.{Action, ◌>>=◌, ◌>>◌, lift}
use go_ratchet.Crypto.{Crypto, Sample}
use go_ratchet.Xochimilco.Session.{OfferSamples}
use go_ratchet.Disk.{ℤ, Libraries}
use go_ratchet.Client.Interface.{SessionManager}
use go_ratchet.Client.{Client, Salty, attempt}
use go_ratchet.Client.Inputs.{input}

-- The fields of a `msgbus.Message` that are read.
pub record Message : Type 0 where
  pub id : ℤ
  pub payload : Bytes

-- A message, and what handling it reads from outside.
pub record Arrival (M : Type 0) : Type 0 where
  pub message : Message
  pub manager : SessionManager M
  pub offers : OfferSamples
  pub other : Sample

module _ {M Text Ev : Type 0} (c : Crypto) (l : Libraries) (y : Salty Text Ev) where
  -- `hdlr(c.Input)`, which drops the error.
  unfoldable pub handler : Arrival M → Action (Client M Text Ev) (Unit {0})
  handler a = do
    r ← attempt (
        input c l a.manager y (record { position = a.message.id; payload = a.message.payload })
          a.offers a.other)
    elim r [ ok done ↦ lift (ok tt) | err e ↦ lift (ok tt) | panic ↦ lift panic ]

  unfoldable pub deliver_all : List (Arrival M) → Action (Client M Text Ev) (Unit {0})
  deliver_all [] = lift (ok tt)
  deliver_all (a ∷ more) = handler a >> deliver_all more
