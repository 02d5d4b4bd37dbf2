-- ===== src/Client/Handlers.antt =====
-- Which handler an input goes to (client/client.go).
use go_ratchet.Prelude.Methods.{and_then, lift}
use go_ratchet.Prelude.{
  drop, if◌then◌else◌, Result, arith, bytes_eq, ◌==◌, ℕ, ◌≡◌, refl, Bool, true, false, ◌&&◌, [],
  ◌∷◌, ◌++◌, Error, ok, err, panic, Bytes, Bool-cases, inl, inr,
}
use go_ratchet.Crypto.{Crypto, Sample}
use go_ratchet.Xochimilco.Message.{
  Msg, MessageType, has_prefix, has_suffix, prefix, suffix, unmarshal_message,
}
use go_ratchet.Xochimilco.Session.{OfferSamples}
use go_ratchet.Disk.{Libraries}
use go_ratchet.Client.Interface.{SessionManager}
use go_ratchet.Client.{Client, Input, received, Salty, dispatch}
use go_ratchet.Client.Inputs.{
  is_ratchet, is_salt_pack, salt_prefix, handle_ratchet, handle_salt_pack, handle_other, input,
}

unprefixed : (b : Bytes) → has_prefix b prefix ≡ false → unmarshal_message b ≡ err Error.bad_affixes
unfolding unmarshal_message
unprefixed b h = rw h

unaffixed :
    (b : Bytes)
    → has_prefix b prefix ≡ true
    → has_suffix b suffix ≡ false
    → unmarshal_message b ≡ err Error.bad_affixes
unfolding unmarshal_message
unaffixed b h k = rw (h, k)

-- What is parsed has the affixes of a ratchet's messages.
pub affixes :
    (b : Bytes) (t : MessageType) (m : Msg) → unmarshal_message b ≡ ok (t, m) → is_ratchet b ≡ true
affixes b t m h = elim (Bool-cases (has_prefix b prefix)) [
  | inl p ↦ elim (Bool-cases (has_suffix b suffix)) [
    | inl q ↦ rw (p, q)
    | inr q ↦ absurd (cc (h, unaffixed b p q))
  ]
  | inr p ↦ absurd (cc (h, unprefixed b p))
]

-- No message has the beginnings of both kinds.
abbrev starts : ℕ → Bytes → Bool
starts x [] = false
starts x (b ∷ bs) = x == b

head_of : (b : Bytes) (x : ℕ) (p : Bytes) → has_prefix b (x ∷ p) ≡ true → starts x b ≡ true
unfolding bytes_eq
head_of [] x p h = cc
head_of (b ∷ bs) x p h = ground arith

one_start : (b : Bytes) → starts b'!' b ≡ true → starts b'B' b ≡ true → ⊥
one_start [] h k = cc
one_start (x ∷ b) h k = ground arith

first_true : (a b : Bool) → (a && b) ≡ true → a ≡ true
first_true true b h = refl
first_true false b h = cc

pub ratchet-salt_pack : (b : Bytes) → is_ratchet b ≡ true → is_salt_pack b ≡ false
ratchet-salt_pack b h = elim (Bool-cases (is_salt_pack b)) [
  | inl q ↦ absurd (
      one_start b (head_of b b'!' (drop 1 prefix) (first_true _ _ h))
        (head_of b b'B' (drop 1 salt_prefix) q))
  | inr q ↦ q
]

module _ {M Text Ev : Type 0} (c : Crypto) (l : Libraries) (w : SessionManager M)
    (y : Salty Text Ev) where
  -- A handler of the client returns no error, and what follows it changes nothing.
  then_nothing : (r : Result (Unit {0}) × Client M Text Ev) → and_then r (λ done. lift (ok tt)) ≡ r
  then_nothing (ok done, s) = refl
  then_nothing (err e, s) = refl
  then_nothing (panic, s) = refl

  -- Of the three handlers that an input goes to, at most one does anything: the one for ratchet
  -- messages if it has their affixes, the one for saltpack messages if it begins as they do, and
  -- otherwise the one that dispatches it as it is. So it does not matter in which order they run.
  pub input_one_handler :
      (i : Input) (o : OfferSamples) (t : Sample) (me : Client M Text Ev)
      → input c l w y i o t me ≡ (
          if is_ratchet i.payload
          then handle_ratchet c l w y i o t me
          else if is_salt_pack i.payload
          then handle_salt_pack c l w y i me
          else (ok tt, record me { events = me.events ++ (received i.payload ∷ []) }))
  unfolding input handle_salt_pack handle_ratchet handle_other dispatch
  input_one_handler i o t me = elim (Bool-cases (is_ratchet i.payload)) [
    | inl r ↦ rw (r, ratchet-salt_pack i.payload r) (then_nothing _)
    | inr r ↦ elim (Bool-cases (is_salt_pack i.payload)) [
      | inl q ↦ rw (r, q) (then_nothing _)
      | inr q ↦ rw (r, q)
    ]
  ]
