-- ===== src/DoubleRatchet/Persist.antt =====
-- doubleratchet/marshal.go: saving and loading the state of a Double Ratchet. encoding/gob is a
-- parameter, one codec for each type that the code encodes. A slice of elements is encoded through
-- the elements' own `MarshalBinary`, as a slice of byte slices.
pub mod Loading
pub mod Reloaded
use go_ratchet.Prelude.{
  ℕ, ◌≡◌, ◌==◌, ◌<◌, if◌then◌else◌, Bool, false, Option, none, some, List, [], ◌∷◌, Error, Result,
  ok, err, panic, Bytes, length,
}
use go_ratchet.Prelude.Methods.{Action, and_then}
use go_ratchet.Prelude.Errors.{◌>>=◌, fail_if}
use go_ratchet.DoubleRatchet.KeyBuffer.{KeyBuffer, Element, get_key, new_key_buffer}
use go_ratchet.DoubleRatchet.DhRatchet.{DhRatchet}
use go_ratchet.DoubleRatchet.Ratchet.{DoubleRatchet, Method, create, key_bytes}

-- What a decoder leaves in the value, and whether it failed.
pub record Decoded (A : Type 0) : Type 0 where
  pub value : A
  pub failed : Bool

-- `gob.NewEncoder(…).Encode` and `gob.NewDecoder(…).Decode` at one type; `none` is an error.
pub record Codec (A : Type 0) : Type 0 where
  pub encode : A → Option Bytes
  pub decode : Bytes → Decoded A

-- The anonymous structure that holds a Double Ratchet.
pub record Saved : Type 0 where
  pub associated_data : Bytes
  pub dhr : Bytes
  pub peer_dh_pub : Bytes
  pub chain_key_send : Bytes
  pub chain_key_recv : Bytes
  pub send_no : ℕ
  pub recv_no : ℕ
  pub prev_send_no : ℕ
  pub msg_key_buffer : Bytes

-- The codecs of the four types; those of a ratchet and of an element have their fields.
pub record Gob : Type 0 where
  pub dh_ratchet : Codec DhRatchet
  pub element : Codec Element
  pub elements : Codec (List Bytes)
  pub ratchet : Codec Saved

-- What is encoded is not empty and is decoded to the same value.
pub record IsLossless {A : Type 0} (c : Codec A) (x : A) (b : Bytes) : Type 0 where
  pub nonempty : 0 < length b
  pub fine : (c.decode b).failed ≡ false
  pub same : (c.decode b).value ≡ x

-- encoding/gob is lossless on these types, but for the order of a map's entries.
pub record GobLaws (g : Gob) : Type 0 where
  pub dh_ratchet-IsLossless :
      (r : DhRatchet) (b : Bytes) → g.dh_ratchet.encode r ≡ some b → IsLossless g.dh_ratchet r b
  pub elements-IsLossless :
      (es : List Bytes) (b : Bytes) → g.elements.encode es ≡ some b → IsLossless g.elements es b
  pub ratchet-IsLossless :
      (s : Saved) (b : Bytes) → g.ratchet.encode s ≡ some b → IsLossless g.ratchet s b
  pub element_fine :
      (e : Element) (b : Bytes) → g.element.encode e ≡ some b → (g.element.decode b).failed ≡ false
  pub element_dh_pub :
      (e : Element) (b : Bytes)
      → g.element.encode e ≡ some b
      → (g.element.decode b).value.dh_pub ≡ e.dh_pub
  pub element_keys :
      (e : Element) (b : Bytes) (n : ℕ)
      → g.element.encode e ≡ some b
      → get_key n (g.element.decode b).value.msg_keys ≡ get_key n e.msg_keys

abbrev pub encoded_or_err : Option Bytes → Result Bytes
encoded_or_err none = err Error.gob_failed
encoded_or_err (some b) = ok b

-- A slice of a decoded structure, which is nil where it is empty.
abbrev pub nil_if_empty : Bytes → Option Bytes
nil_if_empty [] = none
nil_if_empty (x ∷ xs) = some (x ∷ xs)

-- `lis[:i]`: the chains of the ring, from the current cell on.
unfoldable pub chains : KeyBuffer → List Element
chains [] = []
chains (none ∷ kb) = chains kb
chains (some e ∷ kb) = e ∷ chains kb

-- `kb.buff.Value = kbe`
unfoldable pub set_current : Element → KeyBuffer → KeyBuffer
set_current e [] = []
set_current e (c ∷ kb) = some e ∷ kb

-- The loop that fills the ring. Its call of `Prev` has no effect, since the result is dropped.
unfoldable pub restore : List Element → KeyBuffer → KeyBuffer
restore [] kb = kb
restore (e ∷ es) kb = restore es (set_current e kb)

-- `&dhRatchet{}`
abbrev pub zero_dh_ratchet : DhRatchet
zero_dh_ratchet = record {
  root_key = [];
  dh_pub = [];
  dh_priv = [];
  peer_dh_pub = [];
  is_active = false;
  is_initialized = false;
}

-- `&DoubleRatchet{}`. Its nil pointer to a Diffie-Hellman ratchet is replaced before the ratchet
-- is used, unless loading fails.
abbrev pub zero_ratchet : DoubleRatchet
zero_ratchet = record (create [] zero_dh_ratchet []) { msg_key_buffer = [] }

module _ (g : Gob) where
  unfoldable pub marshal_dh_ratchet : DhRatchet → Result Bytes
  marshal_dh_ratchet r = encoded_or_err (g.dh_ratchet.encode r)

  unfoldable pub unmarshal_dh_ratchet : Bytes → Action DhRatchet (Unit {0})
  unmarshal_dh_ratchet b r =
      if length b == 0
      then (ok tt, r)
      else let o = g.dh_ratchet.decode b in (fail_if o.failed Error.gob_failed, o.value)

  unfoldable pub marshal_element : Element → Result Bytes
  marshal_element e = encoded_or_err (g.element.encode e)

  unfoldable pub unmarshal_element : Bytes → Result Element
  unmarshal_element b =
      let o = g.element.decode b in if o.failed then err Error.gob_failed else ok o.value

  unfoldable pub marshal_elements : List Element → Result (List Bytes)
  marshal_elements [] = ok []
  marshal_elements (e ∷ es) =
      let rest = marshal_elements es in do b ← marshal_element e; bs ← rest; ok (b ∷ bs)

  unfoldable pub unmarshal_elements : List Bytes → Result (List Element)
  unmarshal_elements [] = ok []
  unmarshal_elements (b ∷ bs) =
      let rest = unmarshal_elements bs in do e ← unmarshal_element b; es ← rest; ok (e ∷ es)

  unfoldable pub marshal_key_buffer : KeyBuffer → Result Bytes
  marshal_key_buffer kb = do
    bs ← marshal_elements (chains kb)
    encoded_or_err (g.elements.encode bs)

  -- The decoded elements, or an error before the ring is touched.
  unfoldable pub decode_elements : Bytes → Result (List Element)
  decode_elements b =
      let o = g.elements.decode b in
      if o.failed then err Error.gob_failed else unmarshal_elements o.value

  unfoldable pub unmarshal_key_buffer : Bytes → Action KeyBuffer (Unit {0})
  unmarshal_key_buffer b kb = if length b == 0 then (ok tt, kb) else elim (decode_elements b) [
    | ok es ↦ (ok tt, restore es kb)
    | err e ↦ (err e, kb)
    | panic ↦ (panic, kb)
  ]

  unfoldable pub marshal_ratchet : DoubleRatchet → Result Bytes
  marshal_ratchet dr = do
    dhr ← marshal_dh_ratchet dr.dhr
    mkb ← marshal_key_buffer dr.msg_key_buffer
    encoded_or_err (
        g.ratchet.encode (record {
          associated_data = dr.associated_data;
          dhr = dhr;
          peer_dh_pub = dr.peer_dh_pub;
          chain_key_send = key_bytes dr.chain_key_send;
          chain_key_recv = key_bytes dr.chain_key_recv;
          send_no = dr.send_no;
          recv_no = dr.recv_no;
          prev_send_no = dr.prev_send_no;
          msg_key_buffer = mkb;
        }))

  -- The fields that are assigned from the structure; `prevSendNo` is not among them.
  abbrev pub assign_fields : Saved → DoubleRatchet → DoubleRatchet
  assign_fields o dr = record dr {
    associated_data = o.associated_data;
    peer_dh_pub = o.peer_dh_pub;
    chain_key_send = nil_if_empty o.chain_key_send;
    chain_key_recv = nil_if_empty o.chain_key_recv;
    send_no = o.send_no;
    recv_no = o.recv_no;
  }

  unfoldable pub load_dh_ratchet : Bytes → Method (Unit {0})
  load_dh_ratchet b dr =
      let (r, dhr) = unmarshal_dh_ratchet b zero_dh_ratchet in (r, record dr { dhr = dhr })

  unfoldable pub load_key_buffer : Bytes → Method (Unit {0})
  load_key_buffer b dr =
      let (r, kb) = unmarshal_key_buffer b new_key_buffer in (r, record dr { msg_key_buffer = kb })

  unfoldable pub load_ratchet : Saved → Method (Unit {0})
  load_ratchet o dr =
      and_then (load_dh_ratchet o.dhr (assign_fields o dr)) λ _. load_key_buffer o.msg_key_buffer

  unfoldable pub unmarshal_ratchet : Bytes → Method (Unit {0})
  unmarshal_ratchet b dr =
      if length b == 0
      then (ok tt, dr)
      else let o = g.ratchet.decode b in
        if o.failed then (err Error.gob_failed, dr) else load_ratchet o.value dr
