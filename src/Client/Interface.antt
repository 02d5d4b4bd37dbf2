-- ===== src/Client/Interface.antt =====
-- client/client.go: the interface of a manager of sessions, and how session/disk-session.go
-- implements it.
use go_ratchet.Prelude.{Bytes, Option}
use go_ratchet.Prelude.Maps.{Map}
use go_ratchet.Prelude.Methods.{Action}
use go_ratchet.Disk.{ℤ, Libraries, Addr, DiskSession}
use go_ratchet.Disk.Manager.{
  DiskSessionManager, Faults, by_name, new_of, get_session, put_session, delete_session,
  set_position,
}

-- The interface `SessionManager`, with the optional method `SetPosition`. `identity` gives the
-- private key.
pub record SessionManager (M : Type 0) : Type 0 where
  pub identity : M → Bytes
  pub by_name : Bytes → Action M Bytes
  pub new : Bytes → Action M DiskSession
  pub get : Bytes → Action M DiskSession
  pub put : DiskSession → Action M (Unit {0})
  pub delete : DiskSession → Action M (Unit {0})
  pub sessions : M → Map Bytes
  pub set_position : ℤ → M → M

-- The manager on a disk during one operation of the client: which calls of the operating system
-- fail, the ULID that is made, and the addresses that are found.
abbrev pub disk_manager :
    Libraries → Faults → Bytes → (Bytes → Option Addr) → SessionManager DiskSessionManager
disk_manager l faults fresh find_addr = record {
  identity = λ sm. sm.key;
  by_name = by_name fresh;
  new = λ them. new_of fresh (find_addr them) them;
  get = get_session l faults;
  put = put_session l faults;
  delete = delete_session l faults;
  sessions = λ sm. sm.sessions;
  set_position = set_position;
}
