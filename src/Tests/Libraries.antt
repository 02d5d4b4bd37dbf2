-- ===== src/Tests/Libraries.antt =====
-- Small libraries that have the laws of the real ones.
use go_ratchet.Prelude.{refl, some, List, [], ◌∷◌, ◌++◌, Bytes, drop}
use go_ratchet.Prelude.Maps.{Map}
use go_ratchet.Xochimilco.Session.Persist.{SavedSession}
use go_ratchet.Disk.{ℤ, pos, negsuc, Index, Libraries, SavedDiskSession}
use go_ratchet.Disk.Loading.{LibraryLaws}
use go_ratchet.Tests.Saving.{codec, codec-IsLossless, part, toy_gob, toy_gob_laws}

abbrev pub of_session : SavedSession → List Bytes
of_session s = s.local_uuid ∷ s.remote_uuid ∷ s.me ∷ s.spk_pub ∷ s.spk_priv ∷ s.double_ratchet ∷ []

abbrev pub to_session : List Bytes → SavedSession
to_session p = record {
  local_uuid = part 0 p;
  remote_uuid = part 1 p;
  me = part 2 p;
  spk_pub = part 3 p;
  spk_priv = part 4 p;
  double_ratchet = part 5 p;
}

abbrev pub of_disk : SavedDiskSession → List Bytes
of_disk s = s.name ∷ s.key ∷ s.endpoint ∷ s.pending_ack ∷ s.session ∷ []

abbrev pub to_disk : List Bytes → SavedDiskSession
to_disk p = record {
  name = part 0 p;
  key = part 1 p;
  endpoint = part 2 p;
  pending_ack = part 3 p;
  session = part 4 p;
}

abbrev of_number : ℤ → Bytes
of_number (pos n) = n ∷ []
of_number (negsuc n) = n ∷ 1 ∷ []

abbrev to_whole : Bytes → ℤ
to_whole [] = pos 0
to_whole (n ∷ []) = pos n
to_whole (n ∷ x ∷ xs) = negsuc n

abbrev of_entries : Map Bytes → List Bytes
of_entries [] = []
of_entries ((k, v) ∷ m) = k ∷ v ∷ of_entries m

abbrev to_entries : List Bytes → Map Bytes
to_entries [] = []
to_entries (k ∷ []) = []
to_entries (k ∷ v ∷ p) = (k, v) ∷ to_entries p

abbrev pub of_index : Index → List Bytes
of_index o = of_number o.position ∷ of_entries o.sessions

abbrev pub to_index : List Bytes → Index
to_index [] = record { position = pos 0; sessions = [] }
to_index (n ∷ p) = record { position = to_whole n; sessions = to_entries p }

-- A key's text and its X25519 key are the key itself, a hash is what is hashed, and the entropy of
-- a ULID is what follows its first six bytes.
abbrev pub toy_libraries : Libraries
toy_libraries = record {
  key_string = λ k. k;
  parse_id = λ b. some b;
  key_from_id = λ b. some b;
  x25519_public = λ k. k;
  x25519_private = λ k. k;
  x25519_own_public = λ k. k;
  join = λ a b. a ++ (47 ∷ b);
  fnv128a = λ b. b;
  entropy = λ u. drop 6 u;
  gob = toy_gob;
  session_codec = codec of_session to_session;
  disk_codec = codec of_disk to_disk;
  json = codec of_index to_index;
}

pub toy_libraries_laws : LibraryLaws toy_libraries
toy_libraries_laws = record {
  gob_laws = toy_gob_laws;
  session-IsLossless = λ s b. codec-IsLossless of_session to_session s b refl;
  disk_session-IsLossless = λ s b. codec-IsLossless of_disk to_disk s b refl;
  parse_id-key_string = λ k h. (k, refl, refl);
}
