-- ===== src/DoubleRatchet/Ratchet/Conversing.antt =====
-- Two parties in the middle of a conversation. The invariant holds after each message that has
-- arrived, whoever sent it.
use go_ratchet.Prelude.{
  ◌++◌, ◌≤◌, ◌+◌, ◌≡◌, ◌≢◌, inr, refl, sym, ap, ◌∙◌, arith, suc, some, ok, Bytes, length,
}
use go_ratchet.Crypto.{Crypto, CryptoLaws, Sample}
use go_ratchet.DoubleRatchet.Header.Laws.{IsSendable, encoded}
use go_ratchet.DoubleRatchet.DhRatchet.Agreement.{Leads, IsFresh, length-key}
use go_ratchet.DoubleRatchet.Ratchet.{DoubleRatchet, encrypt_message, decrypt_message}
use go_ratchet.DoubleRatchet.Ratchet.Chain.{chain_key}
use go_ratchet.DoubleRatchet.Ratchet.Messages.{next_header}
use go_ratchet.DoubleRatchet.Ratchet.Delivery.{Sends, Follows, sent, advanced, caught_up, received}
use go_ratchet.DoubleRatchet.Ratchet.Turn.{CanSkip, HasTurned, turn_lem}

module _ (c : Crypto) where
  -- The first party has received the last message: it is a step ahead and has not sent on its own
  -- new chain. The second party has sent the last message, and goes on with its chain.
  pub record Conversing (lead other : DoubleRatchet) : Type 0 where
    pub key : Bytes
    pub chain : Bytes
    pub lead_chain : lead.chain_key_send ≡ some key
    pub lead_unsent : lead.send_no ≡ 0
    pub ahead : Leads c lead.dhr key other.dhr
    pub length_chain : length chain ≡ 32
    pub other_sending : other.chain_key_send ≡ some (chain_key c chain other.send_no)
    pub lead_receiving : lead.chain_key_recv ≡ some (chain_key c chain lead.recv_no)
    pub same_place : lead.recv_no ≡ other.send_no
    pub known : other.dhr.dh_pub ≡ lead.peer_dh_pub
    pub associated : lead.associated_data ≡ other.associated_data
    pub all_received : lead.prev_send_no ≤ other.recv_no
    pub can_skip : CanSkip c other

  -- A message that was sent and received, with the states that it leaves.
  pub record Heard (plain : Bytes) (s t : Sample) (a b : DoubleRatchet) : Type 0 where
    pub ct : Bytes
    pub sender : DoubleRatchet
    pub recipient : DoubleRatchet
    pub encrypted : encrypt_message c s plain a ≡ (ok ct, sender)
    pub decrypted : decrypt_message c t ct b ≡ (ok plain, recipient)
    pub conversing : Conversing recipient sender

  module _ (laws : CryptoLaws c) where
    lead-Sends :
        (lead other : DoubleRatchet) (w : Conversing lead other)
        → IsSendable (next_header lead)
        → Sends c lead w.key
    lead-Sends lead other w v = record {
      length_chain = length-key c lead.dhr other.dhr w.key w.ahead;
      sending = w.lead_chain ∙ rw w.lead_unsent;
      sendable = v;
    }

    -- The party that spoke last goes on.
    pub heard_again :
        (lead other : DoubleRatchet) (plain : Bytes) (s t : Sample)
        → Conversing lead other
        → IsSendable (next_header other)
        → Heard plain s t other lead
    heard_again lead other plain s t w v =
        let sends : Sends c other w.chain = record {
          length_chain = w.length_chain;
          sending = w.other_sending;
          sendable = v;
        } in
        let follows : Follows c lead other w.chain = record {
          receiving = w.lead_receiving;
          peer = w.known;
          associated = sym w.associated;
        } in
        let (body, made, opened, long) = sent c laws other w.chain plain s sends in
        let next : suc other.send_no ≡ other.send_no + 1 = omega arith in
        record {
          ct = encoded (next_header other) ++ body;
          sender = advanced c other w.chain;
          recipient = caught_up c laws w.chain other lead;
          encrypted = made;
          decrypted =
              received c laws other lead w.chain plain body t sends follows
                (omega (arith, w.same_place)) (omega (arith, w.same_place)) opened long;
          conversing = record {
            key = w.key;
            chain = w.chain;
            lead_chain = w.lead_chain;
            lead_unsent = w.lead_unsent;
            ahead = w.ahead;
            length_chain = w.length_chain;
            other_sending = ap (λ n. some (chain_key c w.chain n)) next;
            lead_receiving = ap (λ n. some (chain_key c w.chain n)) next;
            same_place = refl;
            known = w.known;
            associated = w.associated;
            all_received = w.all_received;
            can_skip = w.can_skip;
          };
        }

    turned-Conversing :
        (a b b' : DoubleRatchet) (ck : Bytes)
        → Sends c a ck
        → CanSkip c a
        → a.associated_data ≡ b.associated_data
        → b.send_no ≡ a.recv_no
        → HasTurned c a b b' ck
        → Conversing b' (advanced c a ck)
    turned-Conversing a b b' ck v can ad place w =
        let next : suc a.send_no ≡ a.send_no + 1 = omega arith in
        record {
          key = w.key;
          chain = ck;
          lead_chain = w.send_chain;
          lead_unsent = w.send_no;
          ahead = w.ahead;
          length_chain = v.length_chain;
          other_sending = ap (λ n. some (chain_key c ck n)) next;
          lead_receiving = w.recv_chain ∙ ap (λ n. some (chain_key c ck n)) (next ∙ sym w.recv_no);
          same_place = w.recv_no;
          known = sym w.peer;
          associated = w.associated ∙ sym ad;
          all_received = omega (arith, w.prev_send_no, place);
          can_skip = can;
        }

    -- A message of a new chain, from a party that is a step ahead.
    pub heard_turn :
        (a b : DoubleRatchet) (ck plain : Bytes) (s t : Sample)
        → Sends c a ck
        → Leads c a.dhr ck b.dhr
        → CanSkip c a
        → CanSkip c b
        → a.associated_data ≡ b.associated_data
        → a.dhr.dh_pub ≢ b.peer_dh_pub
        → a.send_no ≡ 0
        → a.prev_send_no ≤ b.recv_no
        → b.send_no ≡ a.recv_no
        → IsFresh c t a.dhr.dh_pub
        → Heard plain s t a b
    heard_turn a b ck plain s t v lead can can' ad other first all place fresh =
        let (ct, b', made, got, w) =
          turn_lem c laws a b ck plain s t v lead ad other (omega (arith, first))
            (omega (arith, all)) can' fresh in
        record {
          ct = ct;
          sender = advanced c a ck;
          recipient = b';
          encrypted = made;
          decrypted = got;
          conversing = turned-Conversing a b b' ck v can ad place w;
        }

    -- The party that has listened answers.
    pub heard_answer :
        (lead other : DoubleRatchet) (plain : Bytes) (s t : Sample)
        → Conversing lead other
        → IsSendable (next_header lead)
        → lead.dhr.dh_pub ≢ other.peer_dh_pub
        → IsFresh c t lead.dhr.dh_pub
        → Heard plain s t lead other
    heard_answer lead other plain s t w v apart fresh =
        heard_turn lead other w.key plain s t (lead-Sends lead other w v) w.ahead
          (inr (w.chain, w.length_chain, w.lead_receiving)) w.can_skip w.associated apart
          w.lead_unsent w.all_received (sym w.same_place) fresh

  -- What the next text of a conversation needs, from the party that spoke last or from the other
  -- one: its number has room in a header; and a party that answers has a public key that is not the
  -- one that the other knows, and the recipient's sample is fresh for it.
  pub data CanSay (from to : DoubleRatchet) (t : Sample) : Type 0 where
    goes_on : Conversing to from → IsSendable (next_header from) → CanSay from to t
    answers :
        Conversing from to
        → IsSendable (next_header from)
        → from.dhr.dh_pub ≢ to.peer_dh_pub
        → IsFresh c t from.dhr.dh_pub
        → CanSay from to t

  pub heard :
      CryptoLaws c
      → (from to : DoubleRatchet) (plain : Bytes) (s t : Sample) → CanSay from to t
      → Heard plain s t from to
  heard laws from to plain s t (goes_on w v) = heard_again laws to from plain s t w v
  heard laws from to plain s t (answers w v apart fresh) =
      heard_answer laws from to plain s t w v apart fresh
