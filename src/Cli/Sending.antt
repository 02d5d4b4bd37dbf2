-- ===== src/Cli/Sending.antt =====
-- What `ratchet send` prints is what it posted (cli/basic.go, client/client.go).
use go_ratchet.Prelude.{
  ◌∷◌, ◌≡◌, refl, ap, ◌∙◌, Option, none, some, List, [], ◌++◌, Result, ok, err, panic, Bytes,
}
use go_ratchet.Prelude.Methods.{Action}
use go_ratchet.Prelude.Keeps.{Keeps, keeps_rules}
use go_ratchet.Prelude.Yields.{Yields-get, Yields-bind, Keeps-Yields, Yields}
use go_ratchet.Crypto.{Crypto}
use go_ratchet.Disk.{Libraries, Addr}
use go_ratchet.Disk.Manager.{DiskSessionManager, load_manager, new_session_manager}
use go_ratchet.Client.{Client, Event, Salty}
use go_ratchet.Client.Sent.{send_text-Yields, SentOne, Posts}
use go_ratchet.Cli.{
  send_text, manager, cli_send, shown_sent, read_salty_identity, with_client, Machine, Conditions,
  print_all, call_client, deferred, with_loaded,
}

abbrev Says : List (Bytes × Bytes) → List Bytes → Machine → Type 0
Says posted printed m = (m.posted ≡ posted) × (m.printed ≡ printed)

read_salty_identity-Keeps :
    (q : Conditions) (posted : List (Bytes × Bytes)) (printed : List Bytes) (keyfile : Bytes)
    → Keeps (Says posted printed) (read_salty_identity q keyfile)
unfolding read_salty_identity
read_salty_identity-Keeps q posted printed keyfile = search keeps_rules depth 20

module _ {Text Ev : Type 0} (c : Crypto) (l : Libraries) (y : Salty Text Ev) (q : Conditions) where
  -- A command that succeeds has a call that succeeded.
  finished :
      (r : Result (Unit {0})) (sm : DiskSessionManager) (m : Machine) (a : Unit {0})
      → (deferred {Text = Text} {Ev = Ev} c l y q r sm m).0 ≡ ok a
      → let m' = (deferred {Text = Text} {Ev = Ev} c l y q r sm m).1 in
        (r ≡ ok tt) × (m'.posted ≡ m.posted) × (m'.printed ≡ m.printed)
  unfolding deferred
  finished (ok done) sm m a e = (refl, refl, refl)
  finished (err why) sm m a e = cc
  finished panic sm m a e = cc

  module _ (shown : Event Text Ev → List Bytes)
      (call : Action (Client DiskSessionManager Text Ev) (Unit {0}))
      (R : List (Bytes × Bytes) → Client DiskSessionManager Text Ev → Type 0)
      (yields : (posted : List (Bytes × Bytes)) → Yields (Posts posted []) call (λ _. R posted))
      (posted : List (Bytes × Bytes)) (printed : List Bytes) where
    -- What a command leaves if it succeeds: what its call of the client leaves.
    abbrev Left : Machine → Type 0
    Left m =
        (me : Client DiskSessionManager Text Ev) × R posted me
        × (m.posted ≡ me.posted)
        × (m.printed ≡ printed ++ print_all shown me.events)

    call_client-Left :
        (o : Option Addr) (sm : DiskSessionManager) (m : Machine)
        → Says posted printed m
        → let (r, sm', m') = call_client c l y q o shown call sm m in r ≡ ok tt → Left m'
    unfolding call_client
    call_client-Left none sm m h e = cc
    call_client-Left (some addr) sm m h e =
        let start : Client DiskSessionManager Text Ev = record {
          sm = sm;
          addr = addr;
          posted = m.posted;
          events = [];
        } in
        (
          (call start).1,
          (yields posted).after start (h.0, refl) tt e,
          refl,
          ap (λ (p : List Bytes). p ++ print_all shown (call start).1.events) h.1,
        )

    with_loaded-Yields :
        (name : Bytes) (loaded : Result (Unit {0}) × DiskSessionManager)
        → Yields (Says posted printed) (with_loaded c l y q name shown call loaded) (λ _. Left)
    unfolding with_loaded
    with_loaded-Yields name (ok done, sm) = record {
      after = λ m h a e.
          let called = call_client c l y q (q.find_addr name) shown call sm m in
          let f = finished called.0 called.1 called.2 a e in
          let (me, left, same, shown_all) = call_client-Left (q.find_addr name) sm m h f.0 in
          (me, left, f.1 ∙ same, f.2 ∙ shown_all);
    }
    with_loaded-Yields name (err why, sm) = record { after = λ m h a e. cc }
    with_loaded-Yields name (panic, sm) = record { after = λ m h a e. cc }

    with_client-Yields :
        (keyfile state : Bytes)
        → Yields
            (Says posted printed)
            (with_client c l y q keyfile state shown (λ name. call))
            (λ _. Left)
    unfolding with_client
    with_client-Yields keyfile state =
        Yields-bind _ _
          (Keeps-Yields (read_salty_identity q keyfile)
            (read_salty_identity-Keeps q posted printed keyfile))
          λ who. Yields-bind _ _ Yields-get λ m.
            with_loaded-Yields who.name
              (load_manager l q.loading (new_session_manager state who.name who.key m.files))

  -- If `ratchet send` succeeds, then it has posted exactly one message, and it has printed exactly
  -- one line, which is the text that was posted.
  pub send_prints :
      (keyfile state them text : Bytes) (m : Machine)
      → let (r, m') = cli_send c l y q keyfile state them text m in
        r ≡ ok tt
        → (endpoint : Bytes) × (sealed : Bytes) × (m'.posted
            ≡ m.posted ++ ((endpoint, sealed) ∷ []))
          × (m'.printed ≡ m.printed ++ (sealed ∷ []))
  unfolding cli_send print_all shown_sent
  send_prints keyfile state them text m e =
      let w = manager {Text = Text} {Ev = Ev} c l y q in
      let o = q.outside in
      let call = send_text c l w y o.now o.later o.offer_sample o.post_failed them text [] in
      let (me, (endpoint, sealed, uid, raw, msg, posted, events), same, printed) =
        (with_client-Yields shown_sent call (λ posted. SentOne c l w y them posted [])
            (λ posted.
              send_text-Yields c l w y o.now o.later o.offer_sample o.post_failed them text []
                posted [])
            m.posted m.printed keyfile state).after
          m (refl, refl) tt e in
      (
        endpoint,
        sealed,
        same ∙ posted,
        printed ∙ ap (λ es. m.printed ++ print_all shown_sent es) events,
      )
