-- ===== src/Telemetry/Logger/Size.antt =====
-- How large the active file gets.
use no_cap_kvm.Prelude.{
  ℕ, ◌+◌, ◌≤◌, Option, none, true, false, ◌&&◌, not, some, List, [], ◌∷◌, ◌++◌, ◌≡◌, refl, sym, ap,
  ◌∙◌, ◌⊎◌, inl, inr, length, ltb, arith, Bool-cases,
}
use no_cap_kvm.Telemetry.Logger.{
  Line, File, RotatingLogger, file_size, size_of, opened, open_active, append_line, rotate,
  write_line,
}

-- The logger is open, knows how large the active file is, and that is within the limit, or the file
-- is a single line that is longer.
pub record IsBounded (l : RotatingLogger) (file : File) : Type 0 where
  pub is_open : l.is_open ≡ true
  pub active : l.files 0 ≡ some file
  pub known : l.current_size ≡ file_size file
  pub bounded : (file_size file ≤ l.max_bytes) ⊎ (length file ≡ 1)

file_size-append :
    (file : File) (line : Line)
    → file_size (file ++ (line ∷ [])) ≡ file_size file + (length line + 1)
file_size-append [] line = omega arith
file_size-append (l ∷ file) line = omega (arith, file_size-append file line)

within : (m n : ℕ) → ltb m n ≡ false → n ≤ m
within m n h = ground arith

nothing : (n : ℕ) → ltb 0 n ≡ false → n ≡ 0
nothing n h = ground arith

-- A file without bytes has no lines.
empty_file : (file : File) → file_size file ≡ 0 → file ≡ []
empty_file [] h = refl
empty_file (l ∷ file) h = absurd (omega arith)

append_line_lem :
    (l : RotatingLogger) (line : Line) (file : File)
    → l.is_open ≡ true
    → l.files 0 ≡ some file
    → l.current_size ≡ file_size file
    → (file_size file + (length line + 1) ≤ l.max_bytes) ⊎ (file ≡ [])
    → IsBounded (append_line line l) (file ++ (line ∷ []))
unfolding append_line
append_line_lem l line file on active known room = record {
  is_open = on;
  active = rw (on, active) refl;
  known = known_after;
  bounded = elim room [
    | inl fits ↦ inl (omega (arith, file_size-append file line))
    | inr empty ↦ inr (rw empty refl)
  ];
}
  where
    known_after : l.current_size + (length line + 1) ≡ file_size (file ++ (line ∷ []))
    known_after = omega (arith, file_size-append file line)

write_line-IsBounded :
    (l : RotatingLogger) (line : Line) (file : File)
    → l.is_open ≡ true
    → l.files 0 ≡ some file
    → l.current_size ≡ file_size file
    → (after : File) × IsBounded (write_line true l line) after
unfolding write_line rotate
write_line-IsBounded l line file on active known =
    elim (Bool-cases
      (ltb 0 l.current_size && ltb l.max_bytes (l.current_size + (length line + 1)))) [
        | inl full ↦
            rw (write_line, ap not on, full)
              ([] ++ (line ∷ []), append_line_lem (rotate true l) line [] refl refl refl (inr refl))
        | inr room ↦
            rw (write_line, ap not on, room)
              (file ++ (line ∷ []), append_line_lem l line file on active known (space room))
      ]
  where
    space :
        (ltb 0 l.current_size && ltb l.max_bytes (l.current_size + (length line + 1))) ≡ false
        → (file_size file + (length line + 1) ≤ l.max_bytes) ⊎ (file ≡ [])
    space room = elim (Bool-cases (ltb 0 l.current_size)) [
      | inl some_bytes ↦ inl (
          omega (
            arith,
            known,
            within l.max_bytes (l.current_size + (length line + 1)) (rw some_bytes at room),
          ))
      | inr no_bytes ↦ inr (empty_file file (sym known ∙ nothing l.current_size no_bytes))
    ]

size_of-opened : (file : Option File) → size_of file ≡ file_size (opened file)
size_of-opened none = refl
size_of-opened (some file) = refl

-- One line after the other.
unfoldable pub write_lines : RotatingLogger → List Line → RotatingLogger
write_lines l [] = l
write_lines l (line ∷ rest) = write_lines (write_line true l line) rest

-- From a logger that is within its limit on, it stays so, whatever lines are written.
pub write_lines-IsBounded :
    (lines : List Line) (l : RotatingLogger) (file : File)
    → IsBounded l file
    → (after : File) × IsBounded (write_lines l lines) after
unfolding write_lines
write_lines-IsBounded [] l file h = (file, h)
write_lines-IsBounded (line ∷ rest) l file h =
    let (after, bounded) = write_line-IsBounded l line file h.is_open h.active h.known in
    write_lines-IsBounded rest (write_line true l line) after bounded

-- A logger that has been opened, on an active file of any size or on none, and then writes one line or
-- more, stays open, knows the size of the active file, and that file is within the limit or a single
-- line that is longer, as long as the active file can be opened again after each rotation.
pub write_lines-open_active :
    (l : RotatingLogger) (line : Line) (rest : List Line)
    → (after : File) × IsBounded (write_lines (open_active l) (line ∷ rest)) after
unfolding write_lines open_active
write_lines-open_active l line rest =
    let first =
      write_line-IsBounded (open_active l) line (opened (l.files 0)) refl refl
        (size_of-opened (l.files 0)) in
    write_lines-IsBounded rest (write_line true (open_active l) line) first.0 first.1
