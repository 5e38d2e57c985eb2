-- ===== src/Telemetry/Logger.antt =====
-- src/telemetry/logger.cpp: the log file and its backups. The directory is what the files hold,
-- under their number: 0 is the active file, any other is the backup of that number.
pub mod Rotation
pub mod Size
use no_cap_kvm.Prelude.{
  ℕ, zero, suc, ◌+◌, ◌-◌, Bool, true, false, ◌&&◌, not, Option, none, some, List, [], ◌∷◌, ◌++◌,
  length, ltb, ◌==◌, if◌then◌else◌,
}

-- A line without its newline, and a file.
abbrev pub Line : Type 0
Line = List ℕ

abbrev pub File : Type 0
File = List Line

-- The files, by number; none where there is no such file.
abbrev pub Directory : Type 0
Directory = ℕ → Option File

pub record RotatingLogger : Type 0 where
  pub files : Directory
  pub max_bytes : ℕ
  pub max_files : ℕ
  pub is_open : Bool
  pub current_size : ℕ
  pub rotation_count : ℕ

-- What a file takes up.
abbrev pub file_size : File → ℕ
file_size [] = 0
file_size (line ∷ rest) = (length line + 1) + file_size rest

abbrev pub size_of : Option File → ℕ
size_of none = 0
size_of (some file) = file_size file

abbrev pub put : ℕ → Option File → Directory → Directory
put i file files = λ j. if j == i then file else files j

-- The constructor.
unfoldable pub create : Directory → ℕ → ℕ → RotatingLogger
create files max_bytes max_files = record {
  files = files;
  max_bytes = max_bytes;
  max_files = if ltb max_files 1 then 1 else max_files;
  is_open = false;
  current_size = 0;
  rotation_count = 0;
}

abbrev pub opened : Option File → File
opened none = []
opened (some file) = file

-- `open`, when the directory can be made and the file opened: it is appended to.
unfoldable pub open_active : RotatingLogger → RotatingLogger
open_active l = record l {
  files = put 0 (some (opened (l.files 0))) l.files;
  is_open = true;
  current_size = size_of (l.files 0);
}

-- filesystem::rename; nothing happens when there is no such file.
abbrev pub moved : ℕ → ℕ → Option File → Directory → Directory
moved i j none files = files
moved i j (some file) files = put i none (put j (some file) files)

unfoldable pub rename : ℕ → ℕ → Directory → Directory
rename i j files = moved i j (files i) files

-- The loop of `rotate`, from the backup of number `i` down to the first.
unfoldable pub shift : ℕ → Directory → Directory
shift zero files = files
shift (suc i) files = shift i (rename (suc i) (suc (suc i)) files)

unfoldable pub shift_backups : ℕ → Directory → Directory
unfolding rename
shift_backups max_files files =
    if ltb 1 max_files
    then rename 0 1 (shift (max_files - 2) (put (max_files - 1) none files))
    else files

-- `reopens` is whether the new active file can be opened; it is emptied then.
unfoldable pub rotate : Bool → RotatingLogger → RotatingLogger
unfolding shift_backups
rotate reopens l =
    let files = shift_backups l.max_files l.files in
    record l {
      files = if reopens then put 0 (some []) files else files;
      is_open = reopens;
      current_size = 0;
      rotation_count = l.rotation_count + 1;
    }

abbrev pub appended : Line → Option File → Option File
appended line none = none
appended line (some file) = some (file ++ (line ∷ []))

-- The line goes to the active file, unless the stream could not be opened.
unfoldable pub append_line : Line → RotatingLogger → RotatingLogger
append_line line l = record l {
  files = if l.is_open then put 0 (appended line (l.files 0)) l.files else l.files;
  current_size = l.current_size + (length line + 1);
}

unfoldable pub write_line : Bool → RotatingLogger → Line → RotatingLogger
write_line reopens l line =
    if not l.is_open
    then l
    else if ltb 0 l.current_size && ltb l.max_bytes (l.current_size + (length line + 1))
    then append_line line (rotate reopens l)
    else append_line line l

-- `write` of src/telemetry/telemetry.cpp: a line with its time, and after a rotation the line that
-- says so; without a logger, nothing.
unfoldable pub write : Bool → Option RotatingLogger → Line → Line → Option RotatingLogger
write reopens none stamped rotated = none
write reopens (some l) stamped rotated =
    let after = write_line reopens l stamped in
    if after.rotation_count == l.rotation_count
    then some after
    else some (write_line reopens after rotated)
