-- ===== src/Telemetry/Logger/Rotation.antt =====
-- What a rotation does to the files.
use no_cap_kvm.Prelude.{
  ℕ, zero, suc, ◌+◌, ◌-◌, ◌<◌, true, ◌||◌, Option, none, some, [], ◌≡◌, refl, ap, ◌∙◌, ltb, leb,
  ◌==◌, ==_iff, if◌then◌else◌, arith, Option-cases, inl, inr, Bool-cases,
}
use no_cap_kvm.Telemetry.Logger.{
  File, Directory, RotatingLogger, put, rename, shift, shift_backups, rotate,
}

-- A number at which nothing changes.
same_at :
    (i k : ℕ) (files : Directory) (file other : Option File)
    → files i ≡ file
    → files k ≡ other
    → files k ≡ (if k == i then file else other)
same_at i k files file other e h = elim (Bool-cases (k == i)) [
  | inl same ↦ rw same (ap files ((==_iff k i).0 same) ∙ e)
  | inr no_match ↦ rw no_match h
]

-- Where the destination is free, renaming moves what is there, be it a file or none.
rename_lem :
    (i j : ℕ) (files : Directory) (k : ℕ)
    → files j ≡ none
    → rename i j files k ≡ (if k == i then none else if k == j then files i else files k)
unfolding rename
rename_lem i j files k free = elim (Option-cases (files i)) [
  | inl e ↦ rw e (same_at i k files none _ e (same_at j k files none (files k) free refl))
  | inr (file, e) ↦ rw e refl
]

-- The backups from 1 to `n` one further, and number 1 free.
abbrev shifted : ℕ → Directory → Directory
shifted n files k =
    if (k == 0) || ltb (n + 1) k then files k else if k == 1 then none else files (k - 1)

shift_lem :
    (n : ℕ) (files : Directory) (k : ℕ) → files (suc n) ≡ none → shift n files k ≡ shifted n files k
unfolding shift
shift_lem zero files zero free = refl
shift_lem zero files (suc zero) free = free
shift_lem zero files (suc (suc k)) free =
    let far : ((suc (suc k) == 0) || ltb (0 + 1) (suc (suc k))) ≡ true = ground arith in rw far refl
shift_lem (suc i) files k free =
    let next = rename (suc i) (suc (suc i)) files in
    let moved_on = rename_lem (suc i) (suc (suc i)) files in
    let self : (suc i == suc i) ≡ true = ground arith in
    let rest = shift_lem i next k (moved_on (suc i) free ∙ rw self refl) in
    let top : k ≡ suc (suc i) → files (suc i) ≡ files (k - 1) = λ e. ap files (omega arith) in
    let here = moved_on k free in
    let below = moved_on (k - 1) free in rest ∙ ground (arith, here, below, top)

-- The directory after a rotation: an empty active file, the backups one further with the former
-- active file as the first, the oldest gone, and no file beyond the limit touched.
abbrev pub rotated : ℕ → Directory → Directory
rotated max_files files k =
    if k == 0 then some [] else if leb max_files k then files k else files (k - 1)

shift_backups_lem :
    (max_files : ℕ) (files : Directory) (k : ℕ)
    → 0 < max_files
    → 0 < k
    → shift_backups max_files files k ≡ (if leb max_files k then files k else files (k - 1))
unfolding shift_backups
shift_backups_lem max_files files k h g = elim (Bool-cases (ltb 1 max_files)) [
  | inr one ↦ let all : leb max_files k ≡ true = ground arith in rw (shift_backups, one, all) refl
  | inl many ↦
      let cleared = put (max_files - 1) none files in
      let last : suc (max_files - 2) ≡ max_files - 1 = ground arith in
      let free : cleared (suc (max_files - 2)) ≡ none = ground arith in
      let moved_up = shift_lem (max_files - 2) cleared in
      let first_free : shift (max_files - 2) cleared 1 ≡ none = moved_up 1 free ∙ ground arith in
      let active = moved_up 0 free in
      let here = moved_up k free in
      let done = rename_lem 0 1 (shift (max_files - 2) cleared) k first_free in
      let one : k ≡ 1 → files 0 ≡ files (k - 1) = λ e. ap files (omega arith) in
      rw (shift_backups, many) (done ∙ ground (arith, active, here, one))
]

-- A rotation, when the new active file can be opened, makes each file what the table above says: the
-- renames come in an order in which none of them overwrites a file that is still wanted.
pub rotate_lem :
    (l : RotatingLogger) (k : ℕ)
    → 0 < l.max_files
    → (rotate true l).files k ≡ rotated l.max_files l.files k
unfolding rotate
rotate_lem l k h = elim (Bool-cases (k == 0)) [
  | inl active ↦ rw active refl
  | inr backup ↦ rw backup (shift_backups_lem l.max_files l.files k h (ground arith))
]
