-- ===== src/Main/Refusing.antt =====
-- No command (main.go, cli/basic.go) goes on with a key file that others can read or write.
use go_ratchet.Prelude.{
  Bool-cases, inl, inr, arith, ◌≡◌, ℕ, Bool, true, false, ◌||◌, Option, some, List, Error, ok, err,
  Bytes,
}
use go_ratchet.Prelude.Maps.{lookup}
use go_ratchet.Crypto.{Crypto}
use go_ratchet.Disk.{ℤ, Libraries, Addr}
use go_ratchet.Disk.Manager.{File, DiskSessionManager, is_weak}
use go_ratchet.Client.{Client, Event, Salty}
use go_ratchet.Memory.{Page}
use go_ratchet.Interactive.{Strings, Outside}
use go_ratchet.Ui.{UiMsg, Widgets}
use go_ratchet.Prelude.Methods.{Action}
use go_ratchet.Cli.{
  Machine, Conditions, read_salty_identity, with_client, cli_offer, cli_send, cli_recv, cli_close,
}
use go_ratchet.Main.{Opts, Happening, read_input, run}

none_chosen :
    (b1 b2 b3 b4 b5 b6 : Bool)
    → b1 ≡ false
    → b2 ≡ false
    → b3 ≡ false
    → b4 ≡ false
    → b5 ≡ false
    → b6 ≡ false
    → ¬ ((b1 || b2 || b3 || b4 || b5 || b6) ≡ true)
none_chosen b1 b2 b3 b4 b5 b6 n1 n2 n3 n4 n5 n6 h = ground arith

module _ {Text Ev : Type 0} (c : Crypto) (l : Libraries) (y : Salty Text Ev) (q : Conditions) where
  weak_refused :
      (keyfile state : Bytes) (shown : Event Text Ev → List Bytes)
      (call : Bytes → Action (Client DiskSessionManager Text Ev) (Unit {0})) (m : Machine)
      (f : File)
      → q.reading.stat_failed ≡ false
      → lookup keyfile m.files ≡ some f
      → is_weak f.mode ≡ true
      → with_client c l y q keyfile state shown call m ≡ (err Error.weak_permissions, m)
  unfolding with_client read_salty_identity
  weak_refused keyfile state shown call m f fine there weak = rw (fine, there, weak)

  -- If the key file can be looked at and is open to others, then every command, once it has read
  -- its input, gives the error for that, and changes nothing, prints nothing and posts nothing.
  pub run_refused :
      (pager_box : ℕ → ℕ → ℤ → ℤ → Page) (str : Strings) (nick : Text → Bytes) (widgets : Widgets)
      (addr_string : Addr → Bytes) (open_failed : Bool) (stdin : Option Bytes) (o : Outside)
      (lines : List (Happening Bytes)) (msgs : List (Happening UiMsg)) (opts : Opts) (m : Machine)
      (f : File) (text : Bytes)
      → (opts.is_offer || opts.is_send || opts.is_recv || opts.is_close || opts.is_chat
          || opts.is_ui)
        ≡ true
      → read_input str open_failed stdin opts m ≡ (ok text, m)
      → q.reading.stat_failed ≡ false
      → lookup opts.key m.files ≡ some f
      → is_weak f.mode ≡ true
      → run c l y q pager_box str nick widgets addr_string open_failed stdin o lines msgs opts m
        ≡ (err Error.weak_permissions, m)
  unfolding run cli_offer cli_send cli_recv cli_close read_input
  run_refused pager_box str nick widgets addr_string open_failed stdin o lines msgs opts m f text
        chosen read fine there weak =
      let refused =
        λ (shown : Event Text Ev → List Bytes)
            (call : Bytes → Action (Client DiskSessionManager Text Ev) (Unit {0})).
          weak_refused opts.key opts.state shown call m f fine there weak in
      elim (Bool-cases opts.is_offer) [
        | inl h1 ↦ rw h1 (refused _ _)
        | inr n1 ↦ elim (Bool-cases opts.is_send) [
          | inl h2 ↦ rw (n1, h2, read) (refused _ _)
          | inr n2 ↦ elim (Bool-cases opts.is_recv) [
            | inl h3 ↦ rw (n1, n2, h3, read) (refused _ _)
            | inr n3 ↦ elim (Bool-cases opts.is_close) [
              | inl h4 ↦ rw (n1, n2, n3, h4) (refused _ _)
              | inr n4 ↦ elim (Bool-cases opts.is_chat) [
                | inl h5 ↦ rw (n1, n2, n3, n4, h5) (refused _ _)
                | inr n5 ↦ elim (Bool-cases opts.is_ui) [
                  | inl h6 ↦ rw (n1, n2, n3, n4, n5, h6) (refused _ _)
                  | inr n6 ↦ absurd (none_chosen _ _ _ _ _ _ n1 n2 n3 n4 n5 n6 chosen)
                ]
              ]
            ]
          ]
        ]
      ]
