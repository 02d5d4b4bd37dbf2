-- ===== src/Disk/Manager/Strict.antt =====
-- Files that nobody else can read or write, as session/disk-session.go makes them.
use mathlib.Core.Path.{subst}
use go_ratchet.Prelude.{
  Option-cases, ◌≡◌, refl, sym, ◌∙◌, inl, inr, false, Bool-cases, some, Bytes, bytes_eq,
  bytes_eq→eq,
}
use go_ratchet.Prelude.Maps.{
  Map, lookup, assign, remove, lookup-assign_self, lookup-assign_other, lookup-remove_self,
  lookup-remove_other,
}
use go_ratchet.Disk.Manager.{File, is_weak, mode_of}

-- No file can be read or written by others.
abbrev pub AreStrict : Map File → Type 0
AreStrict files = (name : Bytes) (f : File) → lookup name files ≡ some f → is_weak f.mode ≡ false

mode_of-strict :
    (name : Bytes) (files : Map File)
    → AreStrict files
    → is_weak (mode_of (lookup name files)) ≡ false
mode_of-strict name files h = elim (Option-cases (lookup name files)) [
  | inl missing ↦ rw missing (unfold is_weak in refl)
  | inr (f, there) ↦ rw there (h name f there)
]

pub assign-AreStrict :
    (name content : Bytes) (files : Map File)
    → AreStrict files
    → AreStrict
        (assign name (record { mode = mode_of (lookup name files); content = content }) files)
assign-AreStrict name content files h other f e = elim (Bool-cases (bytes_eq other name)) [
  | inl same ↦
      let new : File = record { mode = mode_of (lookup name files); content = content } in
      let at : lookup name (assign name new files) ≡ some f =
        subst (λ n. lookup n (assign name new files) ≡ some f) (bytes_eq→eq other name same) e in
      let is_new : new ≡ f = cc (at, lookup-assign_self name new files) in
      rw (← is_new) (mode_of-strict name files h)
  | inr apart ↦ h other f (sym (lookup-assign_other other name _ files apart) ∙ e)
]

pub remove-AreStrict :
    (name : Bytes) (files : Map File) → AreStrict files → AreStrict (remove name files)
remove-AreStrict name files h other f e = elim (Bool-cases (bytes_eq other name)) [
  | inl same ↦
      let at : lookup name (remove name files) ≡ some f =
        subst (λ n. lookup n (remove name files) ≡ some f) (bytes_eq→eq other name same) e in
      cc (at, lookup-remove_self name files)
  | inr apart ↦ h other f (sym (lookup-remove_other other name files apart) ∙ e)
]
