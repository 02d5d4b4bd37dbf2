-- ===== src/Xochimilco/Session/Accepted.antt =====
-- Whose keys a session accepts before it becomes active (xochimilco/session.go).
use go_ratchet.Prelude.{◌≡◌, ◌⊎◌, false, Bool, List, [], ◌∷◌, Bytes, ℕ}
use go_ratchet.Prelude.Keeps.{Keeps}
use go_ratchet.Crypto.{Crypto, Sample}
use go_ratchet.Xochimilco.Session.{
  Session, OfferSamples, active, make_offer, make_offer_sealed, acknowledge, receive, send,
  close_session,
}
use go_ratchet.Xochimilco.Session.Guards.{ReadsAccepted}

abbrev pub SomeAccepted : (Bytes → Bool) → List Bytes → Type 0
SomeAccepted verify [] = ⊥
SomeAccepted verify (text ∷ texts) = ReadsAccepted verify text ⊎ SomeAccepted verify texts

-- A session that is not active becomes active only by a message with a key that it accepts.
module _ (c : Crypto) where
  abbrev IsIdle : Session → Type 0
  IsIdle sess = active sess ≡ false

  -- The calls of a session, with the texts that came in since it was made or closed, the last one
  -- first. A call may fail.
  pub data Life (start : Session) : List Bytes → Session → Type 0 where
    begins : Life start [] start
    offers :
        {texts : List Bytes} {s : Session}
        → Life start texts s
        → (x : Sample) → Life start texts (make_offer c x s).1
    offers_sealed :
        {texts : List Bytes} {s : Session}
        → Life start texts s
        → (key : Bytes) (x y : Sample) → Life start texts (make_offer_sealed c key x y s).1
    acknowledges :
        {texts : List Bytes} {s : Session}
        → Life start texts s
        → (text : Bytes) (o : OfferSamples) → Life start (text ∷ texts) (acknowledge c text o s).1
    receives :
        {texts : List Bytes} {s : Session}
        → Life start texts s
        → (text : Bytes) (o : OfferSamples) (t : Sample)
        → Life start (text ∷ texts) (receive c text o t s).1
    sends :
        {texts : List Bytes} {s : Session}
        → Life start texts s
        → (now : ℕ) (text : Bytes) (x : Sample) → Life start texts (send c now text x s).1
    closes :
        {texts : List Bytes} {s : Session}
        → Life start texts s
        → Life start [] (close_session c s).1
