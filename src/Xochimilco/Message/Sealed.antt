-- ===== src/Xochimilco/Message/Sealed.antt =====
-- Sealing a message to a public key, and opening it.
use go_ratchet.Prelude.{
  ℕ, ◌≡◌, refl, ◌∙◌, arith, none, some, [], ◌∷◌, ok, panic, Bytes, Option-cases, inl, inr,
}
use go_ratchet.Crypto.{Crypto, Sample}
use go_ratchet.Xochimilco.Message.Fields.{IsWellFormed, unmarshal-marshal_binary}
use go_ratchet.Xochimilco.Message.{
  Msg, offer, ack, payload, close, sealed, type_of, marshal_binary, unmarshal_binary, container,
  index, type_byte, sealed_type, seal, opened, unseal,
}

-- A message of one of the four kinds that can be sealed.
abbrev pub IsSealable : Msg → Type 0
IsSealable (sealed b) = ⊥
IsSealable m = Unit {0}

-- The byte in front of a sealed message is the one that names its type.
sealed_type_lem :
    (m : Msg)
    → IsSealable m
    → (t : ℕ) × (sealed_type m ≡ ok t) × (container (type_byte t) ≡ ok (type_of m))
unfolding sealed_type container
sealed_type_lem (offer m) s = (b'1', refl, refl)
sealed_type_lem (ack m) s = (b'2', refl, refl)
sealed_type_lem (payload m) s = (b'3', refl, refl)
sealed_type_lem (close m) s = (b'4', refl, refl)
sealed_type_lem (sealed b) s = absurd s

index-first : (ch : ℕ) (raw : Bytes) → index (ch ∷ raw) 0 ≡ ok ch
unfolding index
index-first ch raw = ground arith

module _ (c : Crypto) where
  -- A box that is sealed to a public key opens with the key pair.
  abbrev pub Opens : Bytes → Bytes → Type 0
  Opens priv pub_key =
      (text box : Bytes) (s : Sample)
      → c.seal_anonymous text pub_key s ≡ some box
      → c.open_anonymous box pub_key priv ≡ some text

  sealed-ne-ok :
      (m : Msg) (pub_key box : Bytes) (s : Sample) (t : ℕ)
      → sealed_type m ≡ ok t
      → c.seal_anonymous (t ∷ marshal_binary m) pub_key s ≡ none
      → seal c m pub_key s ≡ ok box
      → ⊥
  unfolding seal
  sealed-ne-ok m pub_key box s t e f h = ground arith

  sealed-eq :
      (m : Msg) (pub_key box b : Bytes) (s : Sample) (t : ℕ)
      → sealed_type m ≡ ok t
      → c.seal_anonymous (t ∷ marshal_binary m) pub_key s ≡ some b
      → seal c m pub_key s ≡ ok box
      → b ≡ box
  unfolding seal
  sealed-eq m pub_key box b s t e f h = ground arith

  unseal-opened :
      (box priv pub_key raw : Bytes) (ch : ℕ) (m : Msg)
      → c.open_anonymous box pub_key priv ≡ some (ch ∷ raw)
      → container (type_byte ch) ≡ ok (type_of m)
      → unseal c box priv pub_key ≡ unmarshal_binary (type_of m) raw
  unfolding unseal opened
  unseal-opened box priv pub_key raw ch m o e = rw (o, index-first ch raw) (rw e)

  -- If boxes that are sealed to the public key open with the key pair, then a sealed message, other
  -- than one that is sealed already, whose fields have the sizes of the wire format is read back.
  pub unseal-seal :
      (m : Msg) (priv pub_key box : Bytes) (s : Sample)
      → Opens priv pub_key
      → IsSealable m
      → IsWellFormed m
      → seal c m pub_key s ≡ ok box
      → unseal c box priv pub_key ≡ ok m
  unseal-seal m priv pub_key box s open_law can v h =
      let (t, typed, back) = sealed_type_lem m can in
      let text : Bytes = t ∷ marshal_binary m in
      elim (Option-cases (c.seal_anonymous text pub_key s)) [
        | inl failed ↦ absurd (sealed-ne-ok m pub_key box s t typed failed h)
        | inr (b, made) ↦
            let same : b ≡ box = sealed-eq m pub_key box b s t typed made h in
            rw (← same) (
              unseal-opened b priv pub_key (marshal_binary m) t m (open_law text b s made) back
              ∙ unmarshal-marshal_binary m v)
      ]

  -- If boxes that are sealed to the public key open with the key pair, then unsealing the box that
  -- was sealed from the empty text is a run-time panic.
  pub unseal_empty :
      (box priv pub_key : Bytes) (s : Sample)
      → Opens priv pub_key
      → c.seal_anonymous [] pub_key s ≡ some box
      → unseal c box priv pub_key ≡ panic
  unfolding unseal opened index
  unseal_empty box priv pub_key s law h = rw (law [] box s h)
