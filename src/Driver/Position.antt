-- ===== src/Driver/Position.antt =====
-- Where a stream of messages is taken up again (client/driver-msgbus/msgbus.go, client/client.go).
use go_ratchet.Prelude.{
  ◌≡◌, refl, sym, ap, ◌∙◌, Bool, true, false, Bool-cases, inl, inr, List, [], ◌∷◌, map, ◌⊎◌, Result,
  ok, err, panic, Bytes, if◌then◌else◌,
}
use go_ratchet.Prelude.Methods.{Action, ◌>>=◌, and_then, lift}
use go_ratchet.Crypto.{Crypto, Sample}
use go_ratchet.Xochimilco.Message.{Msg, parse}
use go_ratchet.Xochimilco.Session.{OfferSamples}
use go_ratchet.Disk.{ℤ, Libraries}
use go_ratchet.Client.Interface.{SessionManager}
use go_ratchet.Client.{Client, Input, Salty, attempted, reported, dispatch}
use go_ratchet.Client.Inputs.{
  next, move_on, is_ratchet, is_salt_pack, read_salt_pack, handle_salt_pack, receive_ratchet,
  read_ratchet, handle_ratchet, input,
}
use go_ratchet.Client.Handlers.{input_one_handler}
use go_ratchet.Client.Receiving.{moved_on}
use go_ratchet.Client.Managing.{ManagerKeeps, managed-ClientKeeps}
use go_ratchet.Client.Kept.{ClientKeeps}
use go_ratchet.Client.Kept.Inputs.{handle_salt_pack-Keeps, handle_ratchet-Keeps}
use go_ratchet.Driver.{Message, Arrival, handler, deliver_all}

abbrev pub is_read : Result Msg → Bool
is_read (ok m) = true
is_read (err e) = false
is_read panic = false

-- The messages that move the position: those of a ratchet that can be read, and saltpack messages.
abbrev pub moves : Bytes → Bool
moves b = if is_ratchet b then is_read (parse b) else is_salt_pack b

-- The position behind the last of the messages that move it.
abbrev pub resume_at : ℤ → List Message → ℤ
resume_at p [] = p
resume_at p (m ∷ ms) = resume_at (if moves m.payload then next m.id else p) ms

-- A manager with a position: only `SetPosition` changes it.
pub record HasPosition {M : Type 0} (w : SessionManager M) (position : M → ℤ) : Type 0 where
  pub keeps : (p : ℤ) → ManagerKeeps w (λ sm. position sm ≡ p)
  pub position-set : (p : ℤ) (sm : M) → position (w.set_position p sm) ≡ p
  pub set_twice : (p : ℤ) (sm : M) → w.set_position p (w.set_position p sm) ≡ w.set_position p sm

module _ {M Text Ev : Type 0} (c : Crypto) (l : Libraries) (y : Salty Text Ev)
    (position : M → ℤ) where
  module _ (w : SessionManager M) (k : HasPosition w position) (i : Input) where
    -- Setting the position first makes no difference to what sets it anyway.
    salt_moved :
        (me : Client M Text Ev)
        → is_salt_pack i.payload ≡ true
        → handle_salt_pack c l w y i me ≡ handle_salt_pack c l w y i (moved_on c l w y i me)
    unfolding handle_salt_pack read_salt_pack move_on reported
    salt_moved me q = rw (q, k.set_twice) refl

    ratchet_moved :
        (o : OfferSamples) (t : Sample) (m : Msg) (me : Client M Text Ev)
        → is_ratchet i.payload ≡ true
        → parse i.payload ≡ ok m
        → handle_ratchet c l w y i o t me ≡ handle_ratchet c l w y i o t (moved_on c l w y i me)
    unfolding handle_ratchet read_ratchet receive_ratchet move_on reported
    ratchet_moved o t m me r e = rw (r, e, k.set_twice) refl

    abbrev AtNext : Client M Text Ev → Type 0
    AtNext me = position me.sm ≡ next i.position

    sets : (me : Client M Text Ev) → AtNext (moved_on c l w y i me)
    sets me = k.position-set (next i.position) me.sm

    client_keeps : ClientKeeps w AtNext
    client_keeps =
        managed-ClientKeeps (λ sm. position sm ≡ next i.position) w (k.keeps (next i.position))

    salt-AtNext :
        (me : Client M Text Ev)
        → is_salt_pack i.payload ≡ true
        → AtNext (handle_salt_pack c l w y i me).1
    salt-AtNext me q =
        rw (salt_moved me q)
          ((handle_salt_pack-Keeps c l w y AtNext client_keeps i (λ s h. sets s)).after _ (sets me))

    read-AtNext :
        (o : OfferSamples) (t : Sample) (m : Msg) (me : Client M Text Ev)
        → is_ratchet i.payload ≡ true
        → parse i.payload ≡ ok m
        → AtNext (handle_ratchet c l w y i o t me).1
    read-AtNext o t m me r e =
        rw (ratchet_moved o t m me r e) (
          (handle_ratchet-Keeps c l w y AtNext client_keeps i (λ s h. sets s) o t).after _
            (sets me))

    unread_lem :
        (o : OfferSamples) (t : Sample) (me : Client M Text Ev) (r : Result Msg)
        → is_read r ≡ false
        → (reported (lift r >>= λ m. receive_ratchet c l w y i m o t) me).1.sm ≡ me.sm
    unfolding reported dispatch
    unread_lem o t me (ok m) e = cc
    unread_lem o t me (err e) u = refl
    unread_lem o t me panic e = refl

    -- A message of a ratchet that cannot be read leaves the manager alone.
    unread_alone :
        (o : OfferSamples) (t : Sample) (me : Client M Text Ev)
        → is_ratchet i.payload ≡ true
        → is_read (parse i.payload) ≡ false
        → (handle_ratchet c l w y i o t me).1.sm ≡ me.sm
    unfolding handle_ratchet read_ratchet
    unread_alone o t me r e = rw r (unread_lem o t me (parse i.payload) e)

    reads_or : (r : Result Msg) → ((m : Msg) × (r ≡ ok m)) ⊎ (is_read r ≡ false)
    reads_or (ok m) = inl (m, refl)
    reads_or (err e) = inr refl
    reads_or panic = inr refl

    ratchet_position :
        (o : OfferSamples) (t : Sample) (me : Client M Text Ev)
        → is_ratchet i.payload ≡ true
        → position (handle_ratchet c l w y i o t me).1.sm
          ≡ (if is_read (parse i.payload) then next i.position else position me.sm)
    ratchet_position o t me r = elim (reads_or (parse i.payload)) [
      | inl (m, e) ↦ read-AtNext o t m me r e ∙ rw e refl
      | inr u ↦ ap position (unread_alone o t me r u) ∙ rw u refl
    ]

    input_position :
        (o : OfferSamples) (t : Sample) (me : Client M Text Ev)
        → position (input c l w y i o t me).1.sm
          ≡ (if moves i.payload then next i.position else position me.sm)
    input_position o t me =
        rw (input_one_handler c l w y i o t me) (elim (Bool-cases (is_ratchet i.payload)) [
          | inl r ↦ rw r (ratchet_position o t me r)
          | inr r ↦ elim (Bool-cases (is_salt_pack i.payload)) [
            | inl q ↦ rw (r, q) (salt-AtNext me q)
            | inr q ↦ rw (r, q) refl
          ]
        ])

  abbrev heard :
      Result (Result (Unit {0})) × Client M Text Ev → Result (Unit {0}) × Client M Text Ev
  heard x = and_then x λ r. elim r as (λ _. Action (Client M Text Ev) (Unit {0})) [
    | ok done ↦ lift (ok tt)
    | err e ↦ lift (ok tt)
    | panic ↦ lift panic
  ]

  -- The driver leaves the client as `Input` does.
  heard_lem : (x : Result (Unit {0}) × Client M Text Ev) → (heard (attempted x)).1 ≡ x.1
  heard_lem (ok done, s) = refl
  heard_lem (err e, s) = refl
  heard_lem (panic, s) = refl

  handler_position :
      (a : Arrival M) (me : Client M Text Ev)
      → HasPosition a.manager position
      → position (handler c l y a me).1.sm
        ≡ (if moves a.message.payload then next a.message.id else position me.sm)
  unfolding handler
  handler_position a me k =
      let i : Input = record { position = a.message.id; payload = a.message.payload } in
      ap (λ (s : Client M Text Ev). position s.sm)
        (heard_lem (input c l a.manager y i a.offers a.other me))
      ∙ input_position a.manager k i a.offers a.other me

  -- Every manager that is used on the way has a position.
  abbrev pub HavePositions : List (Arrival M) → Type 0
  HavePositions [] = Unit {0}
  HavePositions (a ∷ more) = HasPosition a.manager position × HavePositions more

  goes_on :
      (x : Result (Unit {0}) × Client M Text Ev)
      (k : Unit {0} → Action (Client M Text Ev) (Unit {0}))
      → (and_then x k).0 ≡ ok tt
      → and_then x k ≡ k tt x.1
  goes_on (ok done, s) k h = refl
  goes_on (err e, s) k h = cc
  goes_on (panic, s) k h = cc

  pub deliver_all_position :
      (arrivals : List (Arrival M)) (me : Client M Text Ev)
      → HavePositions arrivals
      → (deliver_all c l y arrivals me).0 ≡ ok tt
      → position (deliver_all c l y arrivals me).1.sm
        ≡ resume_at (position me.sm) (map (λ a. a.message) arrivals)
  unfolding deliver_all
  deliver_all_position [] me ks h = refl
  deliver_all_position (a ∷ more) me (k, ks) h =
      let s : Client M Text Ev = (handler c l y a me).1 in
      let split = goes_on (handler c l y a me) (λ _. deliver_all c l y more) h in
      ap (λ (x : Result (Unit {0}) × Client M Text Ev). position x.1.sm) split
      ∙ deliver_all_position more s ks
          (sym (ap (λ (x : Result (Unit {0}) × Client M Text Ev). x.0) split) ∙ h)
      ∙ ap (λ p. resume_at p (map (λ (b : Arrival M). b.message) more)) (handler_position a me k)
