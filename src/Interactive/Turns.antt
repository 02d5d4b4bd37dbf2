-- ===== src/Interactive/Turns.antt =====
-- The turns of the interactive mode (interactive/interactive.go): lines that are typed while the
-- loop runs, and inputs that arrive, in any order.
use go_ratchet.Prelude.{◌≡◌, ℕ, false, Bytes}
use go_ratchet.Crypto.{Crypto, Sample}
use go_ratchet.Xochimilco.Session.{OfferSamples}
use go_ratchet.Disk.{ℤ, Libraries}
use go_ratchet.Client.Interface.{SessionManager}
use go_ratchet.Client.{Input, Salty}
use go_ratchet.Client.Inputs.{input}
use go_ratchet.Memory.{Page}
use go_ratchet.Interactive.{Service, Strings, Outside, on_client, run_line, begin}

module _ {M Text Ev : Type 0} (c : Crypto) (l : Libraries) (y : Salty Text Ev)
    (pager_box : ℕ → ℕ → ℤ → ℤ → Page) (str : Strings) (nick : Text → Bytes) (me : Bytes) where
  -- One turn. The manager, and what is read from outside, may be another at each turn. An input may
  -- still arrive after the loop was left.
  pub data Turn : Service M Text Ev → Service M Text Ev → Type 0 where
    types :
        (svc : Service M Text Ev) (w : SessionManager M) (o : Outside) (line : Bytes)
        → svc.stopped ≡ false
        → Turn svc (run_line c l w y pager_box str nick me o line svc).1
    gets :
        (svc : Service M Text Ev) (w : SessionManager M) (i : Input) (o : OfferSamples) (t : Sample)
        → Turn svc (on_client nick me (input c l w y i o t) svc).1

  -- What can become of the interactive mode that begins with a peer, or with none.
  pub data Reaches (svc : Service M Text Ev) (them : Bytes) : Service M Text Ev → Type 0 where
    begins :
        (w : SessionManager M) (o : Outside)
        → Reaches svc them (begin c l w y pager_box str nick me o them svc).1
    turns : {s t : Service M Text Ev} → Reaches svc them s → Turn s t → Reaches svc them t
