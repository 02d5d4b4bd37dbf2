-- ===== src/Disk/Manager/Indexed.antt =====
-- The manager's map of sessions, and how it is kept between two runs of the program
-- (session/disk-session.go).
use go_ratchet.Prelude.{
  arith, zero, suc, lt→ltb, ap, ◌≡◌, refl, ◌∙◌, false, none, some, Option, ok, Bytes, Option-cases,
  inl, inr, [],
}
use go_ratchet.Prelude.Maps.{
  assign, lookup_nil, assign-IsDistinct, assign_all-IsDistinct, or_else, IsDistinct, lookup,
  lookup-assign_self, lookup-assign_all,
}
use go_ratchet.DoubleRatchet.Persist.{IsLossless}
use go_ratchet.Disk.{ℤ, pos, negsuc, Index, Libraries}
use go_ratchet.Disk.Manager.{
  File, DiskSessionManager, index_name, position_of, with_index, new_session_manager, by_name,
  load_content, load_manager, close_manager,
}
use go_ratchet.Disk.Manager.Stored.{
  no_faults, stored, create_file_lem, write_file_lem, lookup-stored,
}

or_else-none : {V : Type 0} (o : Option V) → or_else o none ≡ o
or_else-none none = refl
or_else-none (some v) = refl

pub by_name_known :
    (fresh name u : Bytes) (sm : DiskSessionManager)
    → lookup name sm.sessions ≡ some u
    → by_name fresh name sm ≡ (ok u, sm)
unfolding by_name
by_name_known fresh name u sm h = rw (by_name, h) refl

by_name_new :
    (fresh name : Bytes) (sm : DiskSessionManager)
    → lookup name sm.sessions ≡ none
    → by_name fresh name sm ≡ (ok fresh, record sm { sessions = assign name fresh sm.sessions })
unfolding by_name
by_name_new fresh name sm h = rw (by_name, h) refl

-- `ByName` gives a name the ULID that it has, or the one that is made anew. Asked again, it gives
-- the same one, whatever would be made then, and changes nothing. If no peer had two sessions, none
-- has two afterwards.
pub by_name_again :
    (fresh later name : Bytes) (sm : DiskSessionManager)
    → IsDistinct sm.sessions
    → let (r, sm') = by_name fresh name sm in
      (u : Bytes) × (r ≡ ok u)
      × (some u ≡ or_else (lookup name sm.sessions) (some fresh))
      × (by_name later name sm' ≡ (ok u, sm'))
      × IsDistinct sm'.sessions
by_name_again fresh later name sm d = elim (Option-cases (lookup name sm.sessions)) [
  | inl missing ↦
      let added : DiskSessionManager = record sm { sessions = assign name fresh sm.sessions } in
      rw (by_name_new fresh name sm missing) (
        fresh,
        refl,
        rw missing,
        by_name_known later name fresh added (lookup-assign_self name fresh sm.sessions),
        assign-IsDistinct name fresh sm.sessions d,
      )
  | inr (u, there) ↦
      rw (by_name_known fresh name u sm there)
        (u, refl, rw there, by_name_known later name u sm there, d)
]

-- A position that survives a restart: one that is positive.
abbrev pub kept_position : ℤ → ℤ
kept_position (pos zero) = negsuc 0
kept_position (pos (suc n)) = pos (suc n)
kept_position (negsuc n) = negsuc 0

position_of-new : (p : ℤ) → position_of p (negsuc 0) ≡ kept_position p
position_of-new (pos zero) = refl
position_of-new (pos (suc n)) = rw (lt→ltb 0 (suc n) (omega arith))
position_of-new (negsuc n) = refl

module _ (l : Libraries) where
  close_manager_lem :
      (b : Bytes) (sm : DiskSessionManager)
      → l.json.encode (record { position = sm.position; sessions = sm.sessions }) ≡ some b
      → close_manager l no_faults sm
        ≡ (ok tt, record sm { files = stored (index_name l sm) b sm.files })
  unfolding close_manager
  close_manager_lem b sm h =
      rw (create_file_lem (index_name l sm) sm)
        (rw (h) (rw (write_file_lem (index_name l sm) b sm)))

  load_manager_lem :
      (file : File) (o : Index) (sm : DiskSessionManager)
      → lookup (index_name l sm) sm.files ≡ some file
      → (l.json.decode file.content).failed ≡ false
      → (l.json.decode file.content).value ≡ o
      → load_manager l no_faults sm ≡ (ok tt, with_index o sm)
  unfolding load_manager load_content
  load_manager_lem file o sm there fine same = rw there (rw (fine, same))

  -- Closing, and loading into a new manager of the same name, key, path and files.
  pub reload_lem :
      (sm : DiskSessionManager) (b : Bytes)
      → let o : Index = record { position = sm.position; sessions = sm.sessions } in
        l.json.encode o ≡ some b
        → IsLossless l.json o b
        → let (r, closed) = close_manager l no_faults sm in
          let new = new_session_manager sm.path sm.me sm.key closed.files in
          (r ≡ ok tt) × (load_manager l no_faults new ≡ (ok tt, with_index o new))
  unfolding new_session_manager
  reload_lem sm b made fine =
      let new = new_session_manager sm.path sm.me sm.key (stored (index_name l sm) b sm.files) in
      let there = lookup-stored (index_name l sm) b sm.files in
      rw (close_manager_lem b sm made) (refl, load_manager_lem _ _ new there fine.fine fine.same)

  -- Suppose that no call of the operating system fails, that no peer has two sessions, and that
  -- encoding/json encodes the manager's position and sessions and decodes them again. Then `Close`
  -- succeeds; and a new manager of the same name, key, path and files loads what was saved: each
  -- peer has the session that it had, and the position is the saved one if that is positive, else
  -- -1.
  pub load-close :
      (sm : DiskSessionManager) (b : Bytes)
      → IsDistinct sm.sessions
      → l.json.encode (record { position = sm.position; sessions = sm.sessions }) ≡ some b
      → IsLossless l.json (record { position = sm.position; sessions = sm.sessions }) b
      → let (r, closed) = close_manager l no_faults sm in
        let (q, sm') =
          load_manager l no_faults (new_session_manager sm.path sm.me sm.key closed.files) in
        (r ≡ ok tt)
        × (q ≡ ok tt)
        × ((name : Bytes) → lookup name sm'.sessions ≡ lookup name sm.sessions)
        × IsDistinct sm'.sessions
        × (sm'.position ≡ kept_position sm.position)
  unfolding new_session_manager
  load-close sm b distinct made fine =
      let (closes, loads) = reload_lem sm b made fine in
      rw loads (
        closes,
        refl,
        λ name.
            lookup-assign_all name sm.sessions [] distinct
            ∙ ap (or_else (lookup name sm.sessions)) (lookup_nil name)
            ∙ or_else-none (lookup name sm.sessions),
        assign_all-IsDistinct sm.sessions [] tt,
        position_of-new sm.position,
      )

  -- What a new manager takes over as its position.
  pub reloaded_position :
      (sm : DiskSessionManager) (b : Bytes)
      → let o : Index = record { position = sm.position; sessions = sm.sessions } in
        l.json.encode o ≡ some b
        → IsLossless l.json o b
        → let (r, closed) = close_manager l no_faults sm in
          let (q, sm') =
            load_manager l no_faults (new_session_manager sm.path sm.me sm.key closed.files) in
          (r ≡ ok tt) × (q ≡ ok tt) × (sm'.position ≡ kept_position sm.position)
  unfolding new_session_manager
  reloaded_position sm b made fine =
      let (closes, loads) = reload_lem sm b made fine in
      rw loads (closes, refl, position_of-new sm.position)
