-- ===== src/DoubleRatchet/Persist/Loading.antt =====
-- What a saved state is loaded as, and what is lost.
use go_ratchet.Prelude.{
  ℕ, ◌≡◌, ◌≢◌, ◌<◌, ne→bytes_eq, false, ◌==◌, refl, arith, Option, none, some, List, [], ◌∷◌, ◌++◌,
  Error, ok, err, Bytes, length,
}
use go_ratchet.Prelude.Errors.{>>=-eq-ok}
use go_ratchet.DoubleRatchet.KeyBuffer.{
  KeyBuffer, Element, find, element_find, holds, get_key, new_key_buffer,
}
use go_ratchet.DoubleRatchet.DhRatchet.{DhRatchet}
use go_ratchet.DoubleRatchet.Ratchet.{DoubleRatchet, key_bytes}
use go_ratchet.DoubleRatchet.Persist.{
  Saved, Gob, GobLaws, encoded_or_err, nil_if_empty, chains, set_current, restore,
  marshal_dh_ratchet, unmarshal_dh_ratchet, marshal_element, unmarshal_element, marshal_elements,
  unmarshal_elements, marshal_key_buffer, decode_elements, unmarshal_key_buffer, marshal_ratchet,
  assign_fields, load_dh_ratchet, load_key_buffer, load_ratchet, unmarshal_ratchet,
}

-- The same chain, up to the order of its keys.
pub record SameKeys (e f : Element) : Type 0 where
  pub same_dh_pub : e.dh_pub ≡ f.dh_pub
  pub same_key : (n : ℕ) → get_key n e.msg_keys ≡ get_key n f.msg_keys

abbrev pub AllSame : List Element → List Element → Type 0
AllSame [] [] = Unit {0}
AllSame [] (f ∷ fs) = ⊥
AllSame (e ∷ es) [] = ⊥
AllSame (e ∷ es) (f ∷ fs) = SameKeys e f × AllSame es fs

pub encoded-inv : (o : Option Bytes) (b : Bytes) → encoded_or_err o ≡ ok b → o ≡ some b
encoded-inv none b h = cc
encoded-inv (some x) b h = cc

-- A chain key is nil or has bytes.
abbrev pub IsKey : Option Bytes → Type 0
IsKey none = Unit {0}
IsKey (some []) = ⊥
IsKey (some (x ∷ xs)) = Unit {0}

nil_if_empty-key_bytes : (k : Option Bytes) → IsKey k → nil_if_empty (key_bytes k) ≡ k
nil_if_empty-key_bytes none h = refl
nil_if_empty-key_bytes (some []) h = absurd h
nil_if_empty-key_bytes (some (x ∷ xs)) h = refl

-- The structure that a Double Ratchet is saved as, with its parts already encoded.
abbrev saved : DoubleRatchet → Bytes → Bytes → Saved
saved dr dhr mkb = record {
  associated_data = dr.associated_data;
  dhr = dhr;
  peer_dh_pub = dr.peer_dh_pub;
  chain_key_send = key_bytes dr.chain_key_send;
  chain_key_recv = key_bytes dr.chain_key_recv;
  send_no = dr.send_no;
  recv_no = dr.recv_no;
  prev_send_no = dr.prev_send_no;
  msg_key_buffer = mkb;
}

-- A saved ratchet as it is loaded into another one.
abbrev pub loaded : DoubleRatchet → DoubleRatchet → List Element → DoubleRatchet
loaded dr old fs = record dr {
  prev_send_no = old.prev_send_no;
  msg_key_buffer = restore fs new_key_buffer;
}

restore-append :
    (es : List Element) (e : Element) (kb : KeyBuffer)
    → restore (es ++ (e ∷ [])) kb ≡ set_current e kb
unfolding restore set_current
restore-append [] e kb = refl
restore-append (f ∷ es) e [] = restore-append es e []
restore-append (f ∷ es) e (c ∷ kb) = restore-append es e (some f ∷ kb)

only_chain :
    (e : Element) (p : Bytes) (n : ℕ)
    → p ≢ e.dh_pub
    → find p n (set_current e new_key_buffer) ≡ err Error.key_not_cached
unfolding find element_find holds set_current
only_chain e p n apart = ground (arith, ne→bytes_eq p e.dh_pub apart)

-- After a new ring was filled from a list of chains, no key of any chain but the last one is found.
pub lost_chains :
    (es : List Element) (last : Element) (p : Bytes) (n : ℕ)
    → p ≢ last.dh_pub
    → find p n (restore (es ++ (last ∷ [])) new_key_buffer) ≡ err Error.key_not_cached
lost_chains es last p n apart =
    rw (restore-append es last new_key_buffer) (only_chain last p n apart)

pub not_empty : (b : Bytes) → 0 < length b → (length b == 0) ≡ false
not_empty b h = ground arith

module _ (g : Gob) (laws : GobLaws g) where
  unmarshal-marshal_element :
      (e : Element) (b : Bytes)
      → marshal_element g e ≡ ok b
      → (f : Element) × (unmarshal_element g b ≡ ok f) × SameKeys f e
  unfolding marshal_element unmarshal_element
  unmarshal-marshal_element e b h =
      let made = encoded-inv (g.element.encode e) b h in
      (
        (g.element.decode b).value,
        rw (laws.element_fine e b made),
        record {
          same_dh_pub = laws.element_dh_pub e b made;
          same_key = λ n. laws.element_keys e b n made;
        },
      )

  unmarshal-marshal_elements :
      (es : List Element) (bs : List Bytes)
      → marshal_elements g es ≡ ok bs
      → (fs : List Element) × (unmarshal_elements g bs ≡ ok fs) × AllSame fs es
  unfolding marshal_elements unmarshal_elements
  unmarshal-marshal_elements [] bs h = let e : [] ≡ bs = cc h in ([], rw (← e), tt)
  unmarshal-marshal_elements (e ∷ es) bs h =
      let (b, first, h1) = >>=-eq-ok (marshal_element g e) _ h in
      let (cs, rest, h2) = >>=-eq-ok (marshal_elements g es) _ h1 in
      let same : b ∷ cs ≡ bs = cc h2 in
      let (f, read, one) = unmarshal-marshal_element e b first in
      let (fs, reads, all) = unmarshal-marshal_elements es cs rest in
      (f ∷ fs, rw (← same, read) (rw reads), (one, all))

  load_dh_ratchet_lem :
      (r : DhRatchet) (b : Bytes) (dr : DoubleRatchet)
      → marshal_dh_ratchet g r ≡ ok b
      → load_dh_ratchet g b dr ≡ (ok tt, record dr { dhr = r })
  unfolding marshal_dh_ratchet load_dh_ratchet unmarshal_dh_ratchet
  load_dh_ratchet_lem r b dr h =
      let l = laws.dh_ratchet-IsLossless r b (encoded-inv (g.dh_ratchet.encode r) b h) in
      rw (not_empty b l.nonempty, l.fine, l.same)

  load_key_buffer_lem :
      (kb : KeyBuffer) (b : Bytes) (dr : DoubleRatchet)
      → marshal_key_buffer g kb ≡ ok b
      → (fs : List Element) × AllSame fs (chains kb)
        × (load_key_buffer g b dr
            ≡ (ok tt, record dr { msg_key_buffer = restore fs new_key_buffer }))
  unfolding marshal_key_buffer load_key_buffer unmarshal_key_buffer decode_elements
  load_key_buffer_lem kb b dr h =
      let (bs, made, h1) = >>=-eq-ok (marshal_elements g (chains kb)) _ h in
      let l = laws.elements-IsLossless bs b (encoded-inv (g.elements.encode bs) b h1) in
      let (fs, read, all) = unmarshal-marshal_elements (chains kb) bs made in
      (fs, all, rw (not_empty b l.nonempty, l.fine, l.same) (rw read))

  load_ratchet_lem :
      (dr old : DoubleRatchet) (dhr mkb : Bytes)
      → IsKey dr.chain_key_send
      → IsKey dr.chain_key_recv
      → marshal_dh_ratchet g dr.dhr ≡ ok dhr
      → marshal_key_buffer g dr.msg_key_buffer ≡ ok mkb
      → (fs : List Element) × AllSame fs (chains dr.msg_key_buffer)
        × (load_ratchet g (saved dr dhr mkb) old ≡ (ok tt, loaded dr old fs))
  unfolding load_ratchet
  load_ratchet_lem dr old dhr mkb ks kr h k =
      let start = assign_fields g (saved dr dhr mkb) old in
      let (fs, all, buffer) =
        load_key_buffer_lem dr.msg_key_buffer mkb (record start { dhr = dr.dhr }) k in
      (
        fs,
        all,
        rw (load_dh_ratchet_lem dr.dhr dhr start h) (
            rw buffer (
              rw (
                nil_if_empty-key_bytes dr.chain_key_send ks,
                nil_if_empty-key_bytes dr.chain_key_recv kr,
              ))),
      )

  -- If a Double Ratchet is saved, its chain keys being nil or not empty, then loading succeeds. The
  -- loaded ratchet has the fields of the saved one, but for the length of the previous sending
  -- chain, which is that of the ratchet that is loaded into, and for the buffer, which is a new
  -- ring filled from the saved chains.
  pub load_saved :
      (dr old : DoubleRatchet) (b : Bytes)
      → IsKey dr.chain_key_send
      → IsKey dr.chain_key_recv
      → marshal_ratchet g dr ≡ ok b
      → (fs : List Element) × AllSame fs (chains dr.msg_key_buffer)
        × (unmarshal_ratchet g b old ≡ (ok tt, loaded dr old fs))
  unfolding marshal_ratchet unmarshal_ratchet
  load_saved dr old b ks kr h =
      let (dhr, h1, rest) = >>=-eq-ok (marshal_dh_ratchet g dr.dhr) _ h in
      let (mkb, h2, h3) = >>=-eq-ok (marshal_key_buffer g dr.msg_key_buffer) _ rest in
      let all = saved dr dhr mkb in
      let l = laws.ratchet-IsLossless all b (encoded-inv (g.ratchet.encode all) b h3) in
      rw (not_empty b l.nonempty, l.fine, l.same) (load_ratchet_lem dr old dhr mkb ks kr h1 h2)
