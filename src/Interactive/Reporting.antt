-- ===== src/Interactive/Reporting.antt =====
-- What the interactive mode reports, and what it does not (interactive/interactive.go).
use go_ratchet.Prelude.{
  ◌≡◌, refl, false, List, [], ◌∷◌, ◌++◌, map, ℕ, Error, ok, err, Bytes, bytes_eq, bytes_eq_refl,
  length, drop,
}
use go_ratchet.Crypto.{Crypto}
use go_ratchet.Disk.{ℤ, negsuc, Libraries}
use go_ratchet.Client.Interface.{SessionManager}
use go_ratchet.Client.{Client, Event, session_closed, Salty}
use go_ratchet.Client.Operations.{chat}
use go_ratchet.Memory.{Page, read_log, user_stream}
use go_ratchet.Interactive.{
  Service, Strings, Outside, event_line, prompt_of, prompt_after, react, react_all, on_client, show,
  set_prompt, recent, chat_to,
}

module _ {M Text Ev : Type 0} (nick : Text → Bytes) (me : Bytes) where
  react_all-them :
      (es : List (Event Text Ev)) (svc : Service M Text Ev)
      → (react_all nick me es svc).them ≡ svc.them
  unfolding react_all react
  react_all-them [] svc = refl
  react_all-them (e ∷ es) svc = react_all-them es (react nick me e svc)

  -- Once the session with the current peer is closed by that peer, the prompt names no peer; but
  -- the peer stays the current one, to whom the next line is sent.
  pub closed_by_peer :
      (uid : Bytes) (svc : Service M Text Ev)
      → let svc' = react nick me (session_closed uid svc.them) svc in
        (svc'.prompt ≡ prompt_of me []) × (svc'.them ≡ svc.them)
  unfolding react prompt_after
  closed_by_peer uid svc = (rw (bytes_eq_refl svc.them), refl)

module _ {M Text Ev : Type 0} (c : Crypto) (l : Libraries) (w : SessionManager M)
    (y : Salty Text Ev) (pager_box : ℕ → ℕ → ℤ → ℤ → Page) (str : Strings) (nick : Text → Bytes)
    (me : Bytes) where
  abbrev ready : Bytes → List (Event Text Ev) → Service M Text Ev → Service M Text Ev
  ready them log svc = record svc {
    them = them;
    shown = svc.shown ++ map (λ e. event_line e) log;
    prompt = prompt_of me them;
  }

  chatted :
      (o : Outside) (them : Bytes) (why : Error) (client : Client M Text Ev)
      (svc : Service M Text Ev)
      → chat c l w o.offer_sample o.other_sample o.post_failed them svc.client ≡ (err why, client)
      → on_client nick me (chat c l w o.offer_sample o.other_sample o.post_failed them) svc ≡ (
        err why,
        react_all nick me
            (drop (length svc.client.events) client.events)
            (record svc { client = client }),
      )
  unfolding on_client
  chatted o them why client svc h = rw h

  -- If the log of another peer is read and `Chat` with that peer fails, then the command returns no
  -- error, and the peer is the current one all the same.
  pub chat_failure :
      (o : Outside) (them : Bytes) (why : Error) (log : List (Event Text Ev))
      (client : Client M Text Ev) (svc : Service M Text Ev)
      → bytes_eq me them ≡ false
      → read_log pager_box svc.logs (user_stream them) (negsuc 0) (negsuc 19) ≡ ok log
      → chat c l w o.offer_sample o.other_sample o.post_failed them svc.client ≡ (err why, client)
      → let (r, svc') = chat_to c l w y pager_box str nick me o them svc in
        (r ≡ ok tt) × (svc'.them ≡ them)
  unfolding chat_to recent show set_prompt
  chat_failure o them why log client svc apart read fails =
      rw (apart, read)
        (rw (chatted o them why client (ready them log svc) fails)
          (refl, react_all-them nick me _ _))
