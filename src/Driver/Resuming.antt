-- ===== src/Driver/Resuming.antt =====
-- A stream of messages over a restart of the program (client/driver-msgbus/msgbus.go,
-- session/disk-session.go).
use go_ratchet.Prelude.{◌≡◌, refl, ap, ◌∙◌, List, [], ◌∷◌, map, some, ok, Bytes}
use go_ratchet.Crypto.{Crypto}
use go_ratchet.DoubleRatchet.Persist.{IsLossless}
use go_ratchet.Disk.{Index, Libraries}
use go_ratchet.Disk.Manager.{
  DiskSessionManager, new_session_manager, load_manager, close_manager, set_position,
}
use go_ratchet.Disk.Manager.Stored.{no_faults}
use go_ratchet.Disk.Manager.Positioned.{
  by_name-IsAt, new_of-IsAt, get_session-IsAt, put_session-IsAt, delete_session-IsAt,
}
use go_ratchet.Disk.Manager.Indexed.{kept_position, reloaded_position}
use go_ratchet.Client.Interface.{SessionManager}
use go_ratchet.Client.{Client, Salty}
use go_ratchet.Client.Running.{OnDisk, on_disk}
use go_ratchet.Driver.{Arrival, deliver_all}
use go_ratchet.Driver.Position.{HasPosition, HavePositions, resume_at, deliver_all_position}

OnDisk-HasPosition :
    (l : Libraries) (w : SessionManager DiskSessionManager)
    → OnDisk l w
    → HasPosition w (λ sm. sm.position)
unfolding set_position
OnDisk-HasPosition l w (on_disk faults fresh find_addr) = record {
  keeps = λ p. record {
    by_name-Keeps = by_name-IsAt p fresh;
    new-Keeps = λ name. new_of-IsAt p fresh (find_addr name) name;
    get-Keeps = get_session-IsAt p l faults;
    put-Keeps = put_session-IsAt p l faults;
    delete-Keeps = delete_session-IsAt p l faults;
  };
  position-set = λ p sm. refl;
  set_twice = λ p sm. refl;
}

-- Each message is handled with a manager on a disk.
abbrev pub AreOnDisk : Libraries → List (Arrival DiskSessionManager) → Type 0
AreOnDisk l [] = Unit {0}
AreOnDisk l (a ∷ more) = OnDisk l a.manager × AreOnDisk l more

AreOnDisk-HavePositions :
    {Text Ev : Type 0} (c : Crypto) (l : Libraries) (y : Salty Text Ev)
    (arrivals : List (Arrival DiskSessionManager))
    → AreOnDisk l arrivals
    → HavePositions c l y (λ (sm : DiskSessionManager). sm.position) arrivals
AreOnDisk-HavePositions c l y [] h = tt
AreOnDisk-HavePositions c l y (a ∷ more) (h, hs) =
    (OnDisk-HasPosition l a.manager h, AreOnDisk-HavePositions c l y more hs)

-- Suppose that the driver delivers messages to a client with a manager on a disk, in which any call
-- of the operating system may fail, and that none of them stops the program. If then no call fails
-- and encoding/json encodes the manager's position and sessions and decodes them again, the manager
-- is closed, and a new one is loaded whose position is the one behind the last message that was a
-- saltpack message or a message of a ratchet that could be read, whether it was handled with
-- success or not. It is the position that the client began with if there was none; and it is -1 if
-- that position is not positive.
pub taken_up :
    {Text Ev : Type 0} (c : Crypto) (l : Libraries) (y : Salty Text Ev)
    (arrivals : List (Arrival DiskSessionManager)) (me : Client DiskSessionManager Text Ev)
    (b : Bytes)
    → AreOnDisk l arrivals
    → let (r, me') = deliver_all c l y arrivals me in
      let o : Index = record { position = me'.sm.position; sessions = me'.sm.sessions } in
      r ≡ ok tt
      → l.json.encode o ≡ some b
      → IsLossless l.json o b
      → let (closes, closed) = close_manager l no_faults me'.sm in
        let (loads, sm) =
          load_manager l no_faults
            (new_session_manager me'.sm.path me'.sm.me me'.sm.key closed.files) in
        (closes ≡ ok tt)
        × (loads ≡ ok tt)
        × (sm.position ≡ kept_position (resume_at me.sm.position (map (λ a. a.message) arrivals)))
taken_up c l y arrivals me b on_disks fine made lossless =
    let me' = (deliver_all c l y arrivals me).1 in
    let (closes, loads, same) = reloaded_position l me'.sm b made lossless in
    let have = AreOnDisk-HavePositions c l y arrivals on_disks in
    (
      closes,
      loads,
      same
          ∙ ap kept_position (
              deliver_all_position c l y (λ (sm : DiskSessionManager). sm.position) arrivals me have
                fine),
    )
