-- ===== src/Cli/Conversation.antt =====
-- `ratchet send` on one machine and `ratchet recv` on another (cli/basic.go), from the keys and the
-- sessions in the files of both to what is printed.
use go_ratchet.Prelude.{
  ◌≡◌, refl, sym, ap, ◌∙◌, Bool, false, some, List, [], ◌∷◌, ◌++◌, Result, ok, err, panic, Bytes,
}
use mathlib.Core.Path.{subst}
use go_ratchet.Prelude.Methods.{Action}
use go_ratchet.Crypto.{Crypto, CryptoLaws}
use go_ratchet.Disk.{pos, Libraries, Addr}
use go_ratchet.Disk.Manager.{DiskSessionManager, load_manager, new_session_manager}
use go_ratchet.Client.{Client, Event, Salty}
use go_ratchet.Client.Operations.{send_text}
use go_ratchet.Client.Inputs.{input}
use go_ratchet.Client.Sending.{text_of}
use go_ratchet.Client.Delivery.{CanReach, input-send}
use go_ratchet.Cli.{
  Machine, Identity, Conditions, print_all, shown_sent, shown_received, call_client, deferred,
  with_loaded, with_client, read_salty_identity, manager, cli_send, cli_recv,
}
use go_ratchet.Cli.Sending.{send_prints}

last_eq : {A : Type 0} (xs : List A) (a b : A) → xs ++ (a ∷ []) ≡ xs ++ (b ∷ []) → a ≡ b
last_eq [] a b h = cc
last_eq (x ∷ xs) a b h = last_eq xs a b (cc)

-- The key file has an identity, the manager loads, and the own address is found.
pub record CanCall (l : Libraries) (q : Conditions) (keyfile state : Bytes) (m : Machine)
    : Type 0 where
  pub who : Identity
  pub sm : DiskSessionManager
  pub addr : Addr
  pub reads : read_salty_identity q keyfile m ≡ (ok who, m)
  pub loads :
      load_manager l q.loading (new_session_manager state who.name who.key m.files) ≡ (ok tt, sm)
  pub found : q.find_addr who.name ≡ some addr

-- The client that a command makes.
abbrev pub client_of :
    {Text Ev : Type 0} (l : Libraries) (q : Conditions) (keyfile state : Bytes) (m : Machine)
    → CanCall l q keyfile state m
    → Client DiskSessionManager Text Ev
client_of l q keyfile state m h = record {
  sm = h.sm;
  addr = h.addr;
  posted = m.posted;
  events = [];
}

module _ {Text Ev : Type 0} (c : Crypto) (l : Libraries) (y : Salty Text Ev) (q : Conditions) where
  finished_lem :
      (r : Result (Unit {0})) (sm : DiskSessionManager) (m : Machine)
      → r ≡ ok tt
      → let (r', m') = deferred {Text = Text} {Ev = Ev} c l y q r sm m in
        (r' ≡ ok tt) × (m'.posted ≡ m.posted) × (m'.printed ≡ m.printed)
  unfolding deferred
  finished_lem (ok done) sm m e = (refl, refl, refl)
  finished_lem (err why) sm m e = cc
  finished_lem panic sm m e = cc

  -- A call that succeeds makes the command succeed, which prints what is shown of the events.
  with_client_lem :
      (keyfile state : Bytes) (shown : Event Text Ev → List Bytes)
      (call : Bytes → Action (Client DiskSessionManager Text Ev) (Unit {0})) (m : Machine)
      (h : CanCall l q keyfile state m)
      → (call h.who.name (client_of l q keyfile state m h)).0 ≡ ok tt
      → let me = (call h.who.name (client_of l q keyfile state m h)).1 in
        let (r, m') = with_client c l y q keyfile state shown call m in
        (r ≡ ok tt)
        × (m'.posted ≡ me.posted)
        × (m'.printed ≡ m.printed ++ print_all shown me.events)
  unfolding with_client with_loaded call_client deferred
  with_client_lem keyfile state shown call m h fine =
      rw (h.reads, h.loads, h.found) (finished_lem _ _ _ fine)

module _ {Text Ev : Type 0} (c : Crypto) (laws : CryptoLaws c) (l k : Libraries) (y : Salty Text Ev)
    (q p : Conditions) where
  -- Suppose that on each of two machines the key file has an identity, the manager loads and the
  -- own address is found, and that the first machine's client can reach the second one's with a
  -- text. If the post does not fail, then `ratchet send` succeeds on the first machine and prints
  -- one line; and `ratchet recv` of this line succeeds on the second machine and prints one line,
  -- the text.
  pub send_recv :
      (keyfile state their_keyfile their_state them text : Bytes) (m n : Machine)
      (a : CanCall l q keyfile state m) (b : CanCall k p their_keyfile their_state n)
      → (h : CanReach c laws l k
          (manager {Text = Text} {Ev = Ev} c l y q)
          (manager {Text = Text} {Ev = Ev} c k y p)
          y
          (client_of l q keyfile state m a)
          (client_of k p their_keyfile their_state n b)
          (pos 1)
          them
          text
          []
          q.outside.now
          q.outside.later
          q.outside.offer_sample
          p.outside.other_sample)
      → q.outside.post_failed ≡ false
      → let msg =
          text_of c l
            (manager {Text = Text} {Ev = Ev} c l y q)
            y
            (client_of l q keyfile state m a)
            q.outside.now
            h.x
            text
            [] in
        let (r, m') = cli_send c l y q keyfile state them text m in
        (sealed : Bytes) × (r ≡ ok tt)
        × (m'.printed ≡ m.printed ++ (sealed ∷ []))
        × let (r', n') = cli_recv c k y p their_keyfile their_state sealed n in
          (r' ≡ ok tt) × (n'.printed ≡ n.printed ++ (y.literal msg ∷ []))
  unfolding cli_send cli_recv print_all shown_received
  send_recv keyfile state their_keyfile their_state them text m n a b h fine =
      let w = manager {Text = Text} {Ev = Ev} c l y q in
      let v = manager {Text = Text} {Ev = Ev} c k y p in
      let o = q.outside in
      let mine : Client DiskSessionManager Text Ev = client_of l q keyfile state m a in
      let theirs : Client DiskSessionManager Text Ev =
        client_of k p their_keyfile their_state n b in
      let msg = text_of c l w y mine o.now h.x text [] in
      let way =
        input-send c laws l k w v y mine theirs (pos 1) them text [] o.now o.later o.offer_sample
          p.outside.other_sample p.samples h in
      let wire = way.0 in
      let sends = λ (failed : Bool).
        send_text c l w y o.now o.later o.offer_sample failed them text [] mine in
      let sent : (sends o.post_failed).0 ≡ ok tt =
        subst (λ f. (sends f).0 ≡ ok tt) (sym fine) way.1 in
      let posts : (sends o.post_failed).1.posted ≡ m.posted ++ ((h.s.endpoint, wire) ∷ []) =
        subst (λ f. (sends f).1.posted ≡ m.posted ++ ((h.s.endpoint, wire) ∷ [])) (sym fine)
          way.2 in
      let done =
        with_client_lem c l y q keyfile state shown_sent
          (λ name. send_text c l w y o.now o.later o.offer_sample o.post_failed them text []) m a
          sent in
      let (endpoint, sealed, posted, printed) =
        send_prints c l y q keyfile state them text m done.0 in
      let same : wire ≡ sealed =
        ap (λ (e : Bytes × Bytes). e.1)
          (last_eq m.posted (h.s.endpoint, wire) (endpoint, sealed)
            (sym posts ∙ sym done.1 ∙ posted)) in
      let got =
        with_client_lem c k y p their_keyfile their_state (shown_received y.literal)
          (λ name.
            input c k v y (record { position = pos 1; payload = wire }) p.samples
              p.outside.other_sample)
          n b way.3.0 in
      (
        wire,
        done.0,
        printed ∙ ap (λ (t : Bytes). m.printed ++ (t ∷ [])) (sym same),
        (got.0, got.2 ∙ ap (λ es. n.printed ++ print_all (shown_received y.literal) es) way.3.1),
      )
