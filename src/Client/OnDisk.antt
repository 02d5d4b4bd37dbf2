-- ===== src/Client/OnDisk.antt =====
-- The manager on a disk (session/disk-session.go) gives the client what it relies on when it sends
-- an answer (client/client.go).
use go_ratchet.Prelude.{◌≡◌, refl, ap, false, some, Option, [], ◌∷◌, ℕ, ok, Bytes, length}
use mathlib.Core.Path.{subst}
use go_ratchet.Prelude.Maps.{lookup}
use go_ratchet.Xochimilco.Session.{Session}
use go_ratchet.Xochimilco.Session.Persist.{HasKeys}
use go_ratchet.Disk.{Libraries, Addr, DiskSession}
use go_ratchet.Disk.Marshal.{marshal_disk_session}
use go_ratchet.Disk.Loading.{LibraryLaws, reloaded}
use go_ratchet.Disk.Manager.{
  DiskSessionManager, with_identity, is_weak, mode_of, to_ulid, file_of, get_session,
}
use go_ratchet.Disk.Manager.Stored.{no_faults, stored, put_session_lem, get-put}
use go_ratchet.Disk.Manager.Indexed.{by_name_known}
use go_ratchet.Client.Interface.{disk_manager}
use go_ratchet.Client.Answering.{HasAnswer}

-- If the manager knows the peer's session by a ULID with the entropy of the session's own, finds
-- the session there with an answer that is still to be sent, and can encode it without, then the
-- client can send the answer.
pub disk-HasAnswer :
    (l : Libraries) (fresh : Bytes) (find_addr : Bytes → Option Addr)
    → LibraryLaws l
    → (sm : DiskSessionManager) (them uid : Bytes) (s : DiskSession) (x : Session) (k b : Bytes)
      (first : ℕ) (rest : Bytes)
    → lookup them sm.sessions ≡ some uid
    → get_session l no_faults uid sm ≡ (ok s, sm)
    → s.session ≡ some x
    → s.peer_key ≡ some k
    → length k ≡ 32
    → HasKeys x.double_ratchet
    → s.pending_ack ≡ first ∷ rest
    → marshal_disk_session l (record s { pending_ack = [] }) ≡ ok b
    → is_weak (mode_of (lookup (file_of l sm (to_ulid x.local_uuid)) sm.files)) ≡ false
    → l.entropy uid ≡ l.entropy (to_ulid x.local_uuid)
    → HasAnswer
        (disk_manager l no_faults fresh find_addr)
        sm
        them
        s
        x
        first
        rest
        (record sm { files = stored (file_of l sm (to_ulid x.local_uuid)) b sm.files })
disk-HasAnswer l fresh find_addr laws sm them uid s x k b first rest known got inner peer size keys
      pending made strict same =
    let s' : DiskSession = record s { pending_ack = [] } in
    let after : DiskSessionManager = record sm {
      files = stored (file_of l sm (to_ulid x.local_uuid)) b sm.files;
    } in
    let put = put_session_lem l s' x b sm inner made in
    let (fine, o, restored, found) =
      get-put l laws sm s' x k b uid inner peer size keys made strict same in
    let kept : DiskSession = record s' { session = some (with_identity sm.key (reloaded x k o)) } in
    record {
      uid = uid;
      named = by_name_known fresh them uid sm known;
      got = got;
      inner = inner;
      pending = pending;
      put_back = put;
      named_after = by_name_known fresh them uid after known;
      kept = kept;
      got_after =
          subst (λ m. get_session l no_faults uid m ≡ (ok kept, m)) (ap (λ r. r.1) put) found;
      none_pending = refl;
    }
