-- ===== src/DoubleRatchet/Ratchet/Talk.antt =====
-- Conversations of any length in which each message arrives before the next one is sent.
use go_ratchet.Prelude.{ap, ◌∙◌, sym, ◌≡◌, ◌≢◌, List, [], ◌∷◌, Result, ok, Bytes}
use go_ratchet.Crypto.{Crypto, CryptoLaws, Sample}
use go_ratchet.DoubleRatchet.Header.Laws.{IsSendable}
use go_ratchet.DoubleRatchet.DhRatchet.Agreement.{IsFresh}
use go_ratchet.DoubleRatchet.Ratchet.{DoubleRatchet, encrypt_message, decrypt_message}
use go_ratchet.DoubleRatchet.Ratchet.Messages.{next_header}
use go_ratchet.DoubleRatchet.Ratchet.Conversing.{Conversing, Heard, heard_again, heard_answer}

-- What was received is what was said.
abbrev pub AllReceived : List (Bytes × Result Bytes) → Type 0
AllReceived [] = Unit {0}
AllReceived ((text, got) ∷ log) = (got ≡ ok text) × AllReceived log

module _ (c : Crypto) where
  -- One party encrypts a text and the other decrypts what comes of it, whatever the result.
  pub record Exchange (text : Bytes) (got : Result Bytes) (a b a' b' : DoubleRatchet) : Type 0 where
    pub sample : Sample
    pub other_sample : Sample
    pub ct : Bytes
    pub encrypted : encrypt_message c sample text a ≡ (ok ct, a')
    pub decrypted : decrypt_message c other_sample ct b ≡ (got, b')

  -- A text in a conversation of a party that has listened and one that has spoken. The number of
  -- the message has room in a header. Where the party that has listened answers, its public key is
  -- not the one that the other knows, and the recipient's sample is fresh for it.
  pub data Said (text : Bytes) (got : Result Bytes) (lead other lead' other' : DoubleRatchet)
      : Type 0 where
    again :
        IsSendable (next_header other)
        → Exchange text got other lead other' lead'
        → Said text got lead other lead' other'
    answer :
        IsSendable (next_header lead)
        → lead.dhr.dh_pub ≢ other.peer_dh_pub
        → (x : Exchange text got lead other other' lead') → IsFresh c x.other_sample lead.dhr.dh_pub
        → Said text got lead other lead' other'

  -- The texts of a conversation with what was received, the last one first.
  pub data Talk (lead other : DoubleRatchet)
      : List (Bytes × Result Bytes) → DoubleRatchet → DoubleRatchet → Type 0 where
    start : Talk lead other [] lead other
    say :
        {text : Bytes} {got : Result Bytes} {log : List (Bytes × Result Bytes)}
        {l o l' o' : DoubleRatchet}
        → Talk lead other log l o
        → Said text got l o l' o'
        → Talk lead other ((text, got) ∷ log) l' o'

  -- What was encrypted and decrypted is determined by the states and the samples.
  exchanged :
      (text : Bytes) (got : Result Bytes) (a b a' b' : DoubleRatchet)
      (x : Exchange text got a b a' b')
      → Heard c text x.sample x.other_sample a b
      → (got ≡ ok text) × Conversing c b' a'
  exchanged text got a b a' b' x h =
      let sent = sym x.encrypted ∙ h.encrypted in
      let same_ct : x.ct ≡ h.ct = cc (ap (λ p. p.0) sent) in
      let read =
        sym x.decrypted
        ∙ ap (λ b''. decrypt_message c x.other_sample b'' b) same_ct
        ∙ h.decrypted in
      (ap (λ p. p.0) read, rw (ap (λ p. p.1) sent, ap (λ p. p.1) read) h.conversing)

  module _ (laws : CryptoLaws c) where
    Said-Conversing :
        (text : Bytes) (got : Result Bytes) (l o l' o' : DoubleRatchet)
        → Conversing c l o
        → Said text got l o l' o'
        → (got ≡ ok text) × Conversing c l' o'
    Said-Conversing text got l o l' o' w (again v x) =
        exchanged text got o l o' l' x (heard_again c laws l o text x.sample x.other_sample w v)
    Said-Conversing text got l o l' o' w (answer v apart x fresh) =
        exchanged text got l o o' l' x
          (heard_answer c laws l o text x.sample x.other_sample w v apart fresh)

    -- Suppose that two parties are in a conversation and go on with any number of messages, of
    -- which each arrives before the next one is sent; that each header has a key of 32 bytes and
    -- numbers below 2 ^ 16, so that no chain has more than 65536 messages; and that where a party
    -- answers, its public key is not the one that the other party knows, and crypto/rand gives the
    -- other party 32 bytes with which X25519 succeeds, for the base point and for the public key of
    -- the first party. Then every text is received as it was sent, and the parties are in a
    -- conversation again.
    pub Talk-AllReceived :
        (lead other : DoubleRatchet) {log : List (Bytes × Result Bytes)} {l o : DoubleRatchet}
        → Conversing c lead other
        → Talk lead other log l o
        → AllReceived log × Conversing c l o
    Talk-AllReceived lead other w start = (tt, w)
    Talk-AllReceived lead other w (say talk said) =
        let (all, conversing) = Talk-AllReceived lead other w talk in
        let (received, next) = Said-Conversing _ _ _ _ _ _ conversing said in
        ((received, all), next)
