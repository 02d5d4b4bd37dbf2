-- ===== src/DoubleRatchet/Persist/Reloaded.antt =====
-- A conversation between two Double Ratchets goes on after they were saved and loaded
-- (doubleratchet/marshal.go).
use go_ratchet.Prelude.{[], ◌∷◌, ◌∷◌, ◌≡◌, arith, some, ok, Bytes, Option, length, inl, inr, List}
use go_ratchet.Crypto.{Crypto, CryptoLaws}
use go_ratchet.DoubleRatchet.KeyBuffer.{Element}
use go_ratchet.DoubleRatchet.DhRatchet.Agreement.{length-key}
use go_ratchet.DoubleRatchet.Ratchet.{DoubleRatchet}
use go_ratchet.DoubleRatchet.Ratchet.Chain.{length-chain_key}
use go_ratchet.DoubleRatchet.Ratchet.Turn.{CanSkip}
use go_ratchet.DoubleRatchet.Ratchet.Conversing.{Conversing}
use go_ratchet.DoubleRatchet.Persist.{Gob, GobLaws, marshal_ratchet, unmarshal_ratchet}
use go_ratchet.DoubleRatchet.Persist.Loading.{IsKey, loaded, load_saved}

long-IsKey : (k : Bytes) → length k ≡ 32 → IsKey (some k)
long-IsKey [] h = absurd (omega (arith, h))
long-IsKey (x ∷ k) h = tt

is-IsKey : (k : Option Bytes) (ck : Bytes) → length ck ≡ 32 → k ≡ some ck → IsKey k
is-IsKey k ck l e = rw e (long-IsKey ck l)

module _ (c : Crypto) (laws : CryptoLaws c) where
  CanSkip-IsKey : (b : DoubleRatchet) → CanSkip c b → IsKey b.chain_key_recv
  CanSkip-IsKey b (inl e) = rw e tt
  CanSkip-IsKey b (inr (ck, l, e)) =
      is-IsKey b.chain_key_recv _ (length-chain_key c laws ck b.recv_no l) e

  -- What a party keeps of its ratchet when it is loaded suffices for the conversation.
  loaded-Conversing :
      (lead other old old' : DoubleRatchet) (fs fs' : List Element)
      → old.prev_send_no ≡ 0
      → Conversing c lead other
      → Conversing c (loaded lead old fs) (loaded other old' fs')
  loaded-Conversing lead other old old' fs fs' new w = record {
    key = w.key;
    chain = w.chain;
    lead_chain = w.lead_chain;
    lead_unsent = w.lead_unsent;
    ahead = w.ahead;
    length_chain = w.length_chain;
    other_sending = w.other_sending;
    lead_receiving = w.lead_receiving;
    same_place = w.same_place;
    known = w.known;
    associated = w.associated;
    all_received = omega (arith, new);
    can_skip = w.can_skip;
  }

  module _ (g : Gob) (gob_laws : GobLaws g) where
    -- If two Double Ratchets are in a conversation and both are saved, then both are loaded again,
    -- each into a ratchet that has no previous sending chain, and are in a conversation.
    pub reloaded-Conversing :
        (lead other old old' : DoubleRatchet) (b b' : Bytes)
        → Conversing c lead other
        → old.prev_send_no ≡ 0
        → marshal_ratchet g lead ≡ ok b
        → marshal_ratchet g other ≡ ok b'
        → (l : DoubleRatchet) × (o : DoubleRatchet) × (unmarshal_ratchet g b old ≡ (ok tt, l))
          × (unmarshal_ratchet g b' old' ≡ (ok tt, o))
          × Conversing c l o
    reloaded-Conversing lead other old old' b b' w new h h' =
        let lead_key = length-key c lead.dhr other.dhr w.key w.ahead in
        let recv_key = length-chain_key c laws w.chain lead.recv_no w.length_chain in
        let send_key = length-chain_key c laws w.chain other.send_no w.length_chain in
        let (fs, same, read) =
          load_saved g gob_laws lead old b (is-IsKey _ _ lead_key w.lead_chain)
            (is-IsKey _ _ recv_key w.lead_receiving) h in
        let (fs', same', read') =
          load_saved g gob_laws other old' b' (is-IsKey _ _ send_key w.other_sending)
            (CanSkip-IsKey other w.can_skip) h' in
        (
          loaded lead old fs,
          loaded other old' fs',
          read,
          read',
          loaded-Conversing lead other old old' fs fs' new w,
        )
