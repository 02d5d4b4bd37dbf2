-- ===== src/Tests/Saving.antt =====
-- Saving and loading a Double Ratchet, with a codec that joins lists of slices.
use go_ratchet.Prelude.{
  ℕ, zero, suc, ◌<◌, ◌≡◌, refl, sym, ap, ◌∙◌, arith, Bool, true, false, some, List, [], ◌∷◌, ◌++◌,
  Error, ok, err, Bytes, length, replicate,
}
use mathlib.Core.Path.{subst}
use go_ratchet.DoubleRatchet.KeyBuffer.{Element, MsgKeys, find, get_key, new_key_buffer}
use go_ratchet.DoubleRatchet.DhRatchet.{DhRatchet}
use go_ratchet.DoubleRatchet.Ratchet.{DoubleRatchet, create}
use go_ratchet.DoubleRatchet.Persist.{
  Codec, Saved, Gob, GobLaws, IsLossless, chains, restore, marshal_ratchet, unmarshal_ratchet,
  marshal_dh_ratchet, marshal_element, marshal_elements, marshal_key_buffer,
}
use go_ratchet.DoubleRatchet.Persist.Loading.{AllSame, loaded, load_saved, lost_chains}

-- Each slice ends with 1, each of its bytes follows a 2, and 0 is the end.
abbrev put : Bytes → Bytes → Bytes
put [] rest = 1 ∷ rest
put (x ∷ xs) rest = 2 ∷ x ∷ put xs rest

abbrev pub join : List Bytes → Bytes
join [] = 0 ∷ []
join (xs ∷ xss) = put xs (join xss)

abbrev cons_first : ℕ → List Bytes → List Bytes
cons_first x [] = (x ∷ []) ∷ []
cons_first x (ys ∷ yss) = (x ∷ ys) ∷ yss

abbrev split : Bytes → List Bytes
split [] = []
split (zero ∷ src) = []
split (suc zero ∷ src) = [] ∷ split src
split (suc (suc n) ∷ []) = []
split (suc (suc n) ∷ x ∷ src) = cons_first x (split src)

split-put : (xs rest : Bytes) → split (put xs rest) ≡ xs ∷ split rest
split-put [] rest = refl
split-put (x ∷ xs) rest = rw (split-put xs rest)

split-join : (xss : List Bytes) → split (join xss) ≡ xss
split-join [] = refl
split-join (xs ∷ xss) = split-put xs (join xss) ∙ ap (λ r. xs ∷ r) (split-join xss)

put-long : (xs rest : Bytes) → 0 < length (put xs rest)
put-long [] rest = omega arith
put-long (x ∷ xs) rest = omega arith

join-long : (xss : List Bytes) → 0 < length (join xss)
join-long [] = omega arith
join-long (xs ∷ xss) = put-long xs (join xss)

abbrev pub codec : {A : Type 0} → (A → List Bytes) → (List Bytes → A) → Codec A
codec to from = record {
  encode = λ x. some (join (to x));
  decode = λ b. record { value = from (split b); failed = false };
}

some-inj : {x y : Bytes} → some x ≡ some y → x ≡ y
some-inj h = cc

pub codec-IsLossless :
    {A : Type 0} (to : A → List Bytes) (from : List Bytes → A) (x : A) (b : Bytes)
    → from (to x) ≡ x
    → some (join (to x)) ≡ some b
    → IsLossless (codec to from) x b
codec-IsLossless to from x b back h =
    let e = some-inj h in
    record {
      nonempty = subst (λ y. 0 < length y) e (join-long (to x));
      fine = refl;
      same = ap (λ y. from (split y)) (sym e) ∙ ap from (split-join (to x)) ∙ back;
    }

abbrev of_bool : Bool → Bytes
of_bool false = []
of_bool true = 1 ∷ []

abbrev to_bool : Bytes → Bool
to_bool [] = false
to_bool (x ∷ xs) = true

abbrev pub to_number : Bytes → ℕ
to_number [] = 0
to_number (n ∷ xs) = n

abbrev pub part : ℕ → List Bytes → Bytes
part n [] = []
part zero (xs ∷ xss) = xs
part (suc n) (xs ∷ xss) = part n xss

abbrev of_ratchet : DhRatchet → List Bytes
of_ratchet r =
    r.root_key
    ∷ r.dh_pub
    ∷ r.dh_priv
    ∷ r.peer_dh_pub
    ∷ of_bool r.is_active
    ∷ of_bool r.is_initialized
    ∷ []

abbrev to_ratchet : List Bytes → DhRatchet
to_ratchet p = record {
  root_key = part 0 p;
  dh_pub = part 1 p;
  dh_priv = part 2 p;
  peer_dh_pub = part 3 p;
  is_active = to_bool (part 4 p);
  is_initialized = to_bool (part 5 p);
}

to_bool-of_bool : (b : Bool) → to_bool (of_bool b) ≡ b
to_bool-of_bool true = refl
to_bool-of_bool false = refl

to_ratchet-of_ratchet : (r : DhRatchet) → to_ratchet (of_ratchet r) ≡ r
to_ratchet-of_ratchet r = rw (to_bool-of_bool r.is_active, to_bool-of_bool r.is_initialized)

abbrev of_saved : Saved → List Bytes
of_saved s =
    s.associated_data
    ∷ s.dhr
    ∷ s.peer_dh_pub
    ∷ s.chain_key_send
    ∷ s.chain_key_recv
    ∷ (s.send_no ∷ [])
    ∷ (s.recv_no ∷ [])
    ∷ (s.prev_send_no ∷ [])
    ∷ s.msg_key_buffer
    ∷ []

abbrev to_saved : List Bytes → Saved
to_saved p = record {
  associated_data = part 0 p;
  dhr = part 1 p;
  peer_dh_pub = part 2 p;
  chain_key_send = part 3 p;
  chain_key_recv = part 4 p;
  send_no = to_number (part 5 p);
  recv_no = to_number (part 6 p);
  prev_send_no = to_number (part 7 p);
  msg_key_buffer = part 8 p;
}

abbrev of_keys : MsgKeys → List Bytes
of_keys [] = []
of_keys ((n, k) ∷ m) = (n ∷ k) ∷ of_keys m

abbrev to_keys : List Bytes → MsgKeys
to_keys [] = []
to_keys ([] ∷ p) = to_keys p
to_keys ((n ∷ k) ∷ p) = (n, k) ∷ to_keys p

to_keys-of_keys : (m : MsgKeys) → to_keys (of_keys m) ≡ m
to_keys-of_keys [] = refl
to_keys-of_keys ((n, k) ∷ m) = ap (λ r. (n, k) ∷ r) (to_keys-of_keys m)

abbrev of_element : Element → List Bytes
of_element e = e.dh_pub ∷ of_keys e.msg_keys

abbrev to_element : List Bytes → Element
to_element [] = record { dh_pub = []; msg_keys = [] }
to_element (p ∷ ps) = record { dh_pub = p; msg_keys = to_keys ps }

to_element-of_element : (e : Element) → to_element (of_element e) ≡ e
to_element-of_element e = rw (to_keys-of_keys e.msg_keys)

abbrev pub toy_gob : Gob
toy_gob = record {
  dh_ratchet = codec of_ratchet to_ratchet;
  element = codec of_element to_element;
  elements = codec (λ p. p) (λ p. p);
  ratchet = codec of_saved to_saved;
}

element_same :
    (e : Element) (b : Bytes) → some (join (of_element e)) ≡ some b → to_element (split b) ≡ e
element_same e b h =
    let l = codec-IsLossless of_element to_element e b (to_element-of_element e) h in l.same

pub toy_gob_laws : GobLaws toy_gob
toy_gob_laws = record {
  dh_ratchet-IsLossless =
      λ r b. codec-IsLossless of_ratchet to_ratchet r b (to_ratchet-of_ratchet r);
  elements-IsLossless = λ es b. codec-IsLossless (λ p. p) (λ p. p) es b refl;
  ratchet-IsLossless = λ s b. codec-IsLossless of_saved to_saved s b refl;
  element_fine = λ e b h. refl;
  element_dh_pub = λ e b h. ap (λ (x : Element). x.dh_pub) (element_same e b h);
  element_keys = λ e b n h. ap (λ (x : Element). get_key n x.msg_keys) (element_same e b h);
}

abbrev dhr : DhRatchet
dhr = record {
  root_key = replicate 32 1;
  dh_pub = replicate 32 3;
  dh_priv = replicate 32 3;
  peer_dh_pub = replicate 32 4;
  is_active = true;
  is_initialized = true;
}

abbrev first_chain : Element
first_chain = record { dh_pub = 1 ∷ []; msg_keys = (0, 8 ∷ []) ∷ [] }

abbrev last_chain : Element
last_chain = record { dh_pub = 2 ∷ []; msg_keys = (5, 7 ∷ []) ∷ [] }

abbrev blank : DoubleRatchet
blank = create [] dhr []

abbrev pub state : DoubleRatchet
state = record (create (9 ∷ []) dhr (4 ∷ [])) {
  chain_key_send = some (6 ∷ []);
  send_no = 3;
  prev_send_no = 2;
  msg_key_buffer = some first_chain ∷ some last_chain ∷ [];
}

abbrev pub state_bytes : Bytes
state_bytes = join (
    of_saved (record {
      associated_data = 9 ∷ [];
      dhr = join (of_ratchet dhr);
      peer_dh_pub = 4 ∷ [];
      chain_key_send = 6 ∷ [];
      chain_key_recv = [];
      send_no = 3;
      recv_no = 0;
      prev_send_no = 2;
      msg_key_buffer = join (join (of_element first_chain) ∷ join (of_element last_chain) ∷ []);
    }))

load_saved_example :
    (fs : List Element) × AllSame fs (chains state.msg_key_buffer)
    × (unmarshal_ratchet toy_gob state_bytes blank ≡ (ok tt, loaded state blank fs))
unfolding marshal_ratchet marshal_dh_ratchet marshal_element marshal_elements marshal_key_buffer
    chains
load_saved_example = load_saved toy_gob toy_gob_laws state blank state_bytes tt tt refl

lost_chains_example :
    find (1 ∷ []) 0 (restore ((first_chain ∷ []) ++ (last_chain ∷ [])) new_key_buffer)
    ≡ err Error.key_not_cached
lost_chains_example = lost_chains (first_chain ∷ []) last_chain (1 ∷ []) 0 (λ e. cc)
