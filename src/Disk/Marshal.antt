-- ===== src/Disk/Marshal.antt =====
-- session/disk-session.go: `MarshalBinary` of a session with a peer.
use go_ratchet.Prelude.{Result, Bytes}
use go_ratchet.Prelude.Errors.{◌>>=◌}
use go_ratchet.DoubleRatchet.Persist.{encoded_or_err}
use go_ratchet.Xochimilco.Session.Persist.{marshal_session}
use go_ratchet.Disk.{DiskSession, SavedDiskSession, Libraries, pointed}

abbrev pub saved_disk_session : DiskSession → Bytes → Bytes → SavedDiskSession
saved_disk_session s key b = record {
  name = s.name;
  key = key;
  endpoint = s.endpoint;
  pending_ack = s.pending_ack;
  session = b;
}

module _ (l : Libraries) where
  unfoldable pub marshal_disk_session : DiskSession → Result Bytes
  marshal_disk_session s = do
    sess ← pointed s.session
    b ← marshal_session l.gob l.session_codec sess
    key ← pointed s.peer_key
    encoded_or_err (l.disk_codec.encode (saved_disk_session s (l.key_string key) b))
