-- ===== src/Client/Running.antt =====
-- Any run of the client (client/client.go): operations that the user asks for and inputs that
-- arrive, in any order. What is outside, the manager's own calls included, is chosen anew at each
-- step.
use mathlib.Core.Path.{subst}
use go_ratchet.Prelude.Maps.{Map}
use go_ratchet.Prelude.{◌≡◌, sym, ℕ, Bool, Option, List, Bytes}
use go_ratchet.Crypto.{Crypto, Sample}
use go_ratchet.Xochimilco.Session.{OfferSamples}
use go_ratchet.Disk.{ℤ, Libraries, Addr}
use go_ratchet.Disk.Manager.{
  DiskSessionManager, File, Faults, load_manager, close_manager, new_session_manager,
}
use go_ratchet.Disk.Manager.Strict.{AreStrict}
use go_ratchet.Disk.Manager.Sound.{
  IsSound, set_position-IsSound, close_manager-IsSound, started-IsSound, by_name-IsSound,
  new_of-IsSound, get_session-IsSound, put_session-IsSound, delete_session-IsSound,
}
use go_ratchet.Client.Interface.{SessionManager, disk_manager}
use go_ratchet.Client.{Client, Input, Salty}
use go_ratchet.Client.Operations.{chat, send_text, close_chat, send_salty}
use go_ratchet.Client.Inputs.{next, input}
use go_ratchet.Client.Managing.{Managed, managed-ClientKeeps, ManagerKeeps}
use go_ratchet.Client.Kept.{
  ClientKeeps, chat-Keeps, send_text-Keeps, close_chat-Keeps, send_salty-Keeps,
}
use go_ratchet.Client.Kept.Inputs.{input-Keeps}

module _ {M Text Ev : Type 0} (c : Crypto) (l : Libraries) (y : Salty Text Ev)
    (Allowed : SessionManager M → Type 0) where
  -- One operation, or one input, with a manager that is allowed. Its error, if any, is dropped.
  pub data Step : Client M Text Ev → Client M Text Ev → Type 0 where
    chats :
        (me : Client M Text Ev) (w : SessionManager M) (p t : Sample) (post_failed : Bool)
        (them : Bytes)
        → Allowed w
        → Step me (chat c l w p t post_failed them me).1
    sends :
        (me : Client M Text Ev) (w : SessionManager M) (now later : ℕ) (t : Sample)
        (post_failed : Bool) (them text : Bytes) (events : List Ev)
        → Allowed w
        → Step me (send_text c l w y now later t post_failed them text events me).1
    closes :
        (me : Client M Text Ev) (w : SessionManager M) (post_failed : Bool) (them : Bytes)
        → Allowed w
        → Step me (close_chat c l w post_failed them me).1
    sends_salty :
        (me : Client M Text Ev) (w : SessionManager M) (now : ℕ) (found : Option Addr)
        (post_failed : Bool) (them text : Bytes) (events : List Ev)
        → Allowed w
        → Step me (send_salty c l w y now found post_failed them text events me).1
    gets_input :
        (me : Client M Text Ev) (w : SessionManager M) (i : Input) (o : OfferSamples) (t : Sample)
        → Allowed w
        → Step me (input c l w y i o t me).1

  pub data Run (me : Client M Text Ev) : Client M Text Ev → Type 0 where
    begins : Run me me
    goes_on : {s t : Client M Text Ev} → Run me s → Step s t → Run me t

  module _ (Q : Client M Text Ev → Type 0)
      (keeps : (w : SessionManager M) → Allowed w → ClientKeeps w Q)
      (moves : (w : SessionManager M)
        → Allowed w
        → (p : ℤ) (me : Client M Text Ev) → Q me
        → Q (record me { sm = w.set_position p me.sm })) where
    step-keeps : {s t : Client M Text Ev} → Step s t → Q s → Q t
    step-keeps (chats me w p t post_failed them allowed) h =
        (chat-Keeps c l w y Q (keeps w allowed) p t post_failed them).after me h
    step-keeps (sends me w now later t post_failed them text events allowed) h =
        (send_text-Keeps c l w y Q (keeps w allowed) now later t post_failed them text events).after
          me h
    step-keeps (closes me w post_failed them allowed) h =
        (close_chat-Keeps c l w y Q (keeps w allowed) post_failed them).after me h
    step-keeps (sends_salty me w now found post_failed them text events allowed) h =
        (send_salty-Keeps c l w y Q (keeps w allowed) now found post_failed them text events).after
          me h
    step-keeps (gets_input me w i o t allowed) h =
        (input-Keeps c l w y Q (keeps w allowed) i (moves w allowed (next i.position)) o t).after me
          h

    -- If whatever the client's operations do with its state keeps a property, then any run of the
    -- client keeps it, whatever fails on the way.
    pub run-keeps : {s t : Client M Text Ev} → Run s t → Q s → Q t
    run-keeps begins h = h
    run-keeps (goes_on r st) h = step-keeps st (run-keeps r h)

-- A manager on a disk, whatever the operating system does, and whatever ULID it makes and addresses
-- it finds.
pub data OnDisk (l : Libraries) : SessionManager DiskSessionManager → Type 0 where
  on_disk :
      (faults : Faults) (fresh : Bytes) (find_addr : Bytes → Option Addr)
      → OnDisk l (disk_manager l faults fresh find_addr)

OnDisk-keeps :
    (l : Libraries) (me key path : Bytes) (w : SessionManager DiskSessionManager)
    → OnDisk l w
    → ManagerKeeps w (IsSound me key path)
OnDisk-keeps l me key path w (on_disk faults fresh find_addr) = record {
  by_name-Keeps = by_name-IsSound me key path fresh;
  new-Keeps = λ name. new_of-IsSound me key path fresh (find_addr name) name;
  get-Keeps = get_session-IsSound me key path l faults;
  put-Keeps = put_session-IsSound me key path l faults;
  delete-Keeps = delete_session-IsSound me key path l faults;
}

OnDisk-moves :
    {Text Ev : Type 0} (l : Libraries) (me key path : Bytes) (w : SessionManager DiskSessionManager)
    → OnDisk l w
    → (p : ℤ) (s : Client DiskSessionManager Text Ev) → IsSound me key path s.sm
    → IsSound me key path (w.set_position p s.sm)
OnDisk-moves l me key path w (on_disk faults fresh find_addr) p s =
    set_position-IsSound me key path p s.sm

-- Suppose that no file is open to others when the program makes a manager and loads it, which may
-- fail. After any run of a client with this manager, in which any call of the operating system may
-- fail at any step, and after a `Close` of the manager that may fail too, the manager has the name,
-- the key and the path that it was made with, no peer has two sessions, and no file is open to
-- others.
pub disk-Run-IsSound :
    {Text Ev : Type 0} (c : Crypto) (l : Libraries) (y : Salty Text Ev) (me key path : Bytes)
    (loading closing : Faults) (files : Map File) (s t : Client DiskSessionManager Text Ev)
    → AreStrict files
    → s.sm ≡ (load_manager l loading (new_session_manager path me key files)).1
    → Run c l y (OnDisk l) s t
    → IsSound me key path (close_manager l closing t.sm).1
disk-Run-IsSound c l y me key path loading closing files s t strict made r =
    let keeps = λ (w : SessionManager DiskSessionManager) (h : OnDisk l w).
      managed-ClientKeeps (IsSound me key path) w (OnDisk-keeps l me key path w h) in
    let started = started-IsSound me key path l loading files strict in
    (close_manager-IsSound me key path l closing).after t.sm (
      run-keeps c l y (OnDisk l) (Managed (IsSound me key path)) keeps (OnDisk-moves l me key path)
        r (subst (IsSound me key path) (sym made) started))
