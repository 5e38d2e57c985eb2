-- ===== src/Tests/Log.antt =====
-- src/telemetry, src/app/telemetry_pump.cpp and src/app/ico_decode.cpp.
use no_cap_kvm.Prelude.{ℕ, arith, ◌≡◌, ◌++◌, refl, true, none, some, [], ◌∷◌, List, ℕ, replicate}
use no_cap_kvm.Discovery.Types.{slave}
use no_cap_kvm.Discovery.Connection.{ConnectionState, info, connected, failed}
use no_cap_kvm.App.IcoDecode.{
  load_ico_as_argb32, done, try_entries, try_entry, is_png, slice, read_entries, decode_bmp_frame,
  check_header, decode_pixels, read_rows, argb_row,
}
use no_cap_kvm.App.IcoDecode.Bounds.{IsSafe, load_ico_as_argb32-IsSafe}
use no_cap_kvm.Telemetry.Transitions.{Frame}
use no_cap_kvm.Telemetry.Transitions.Counts
use no_cap_kvm.Telemetry.Transitions.Counts.{run-Agree}
use no_cap_kvm.Telemetry.Logger.{RotatingLogger, Directory, File, create, open_active, rotate}
use no_cap_kvm.Telemetry.Logger.Rotation.{rotated, rotate_lem}
use no_cap_kvm.Telemetry.Logger.Size.{IsBounded, write_lines, write_lines-open_active}
use no_cap_kvm.Telemetry.Format.{escape, quote, read_quoted, read_quoted-escape}

abbrev files : Directory
files = λ k. elim k [ ℕ.zero ↦ some ((1 ∷ 2 ∷ []) ∷ []) | ℕ.suc i ↦ none ]

abbrev logger : RotatingLogger
logger = record {
  files = files;
  max_bytes = 4;
  max_files = 3;
  is_open = true;
  current_size = 3;
  rotation_count = 0;
}

rotate_lem_example : (rotate true logger).files 1 ≡ rotated 3 files 1
rotate_lem_example = rotate_lem logger 1 (omega arith)

-- The file is longer than the limit when the logger is created and opened.
write_lines-open_active_example :
    (after : File) × IsBounded
      (write_lines (open_active (create files 2 3)) ((3 ∷ []) ∷ (4 ∷ []) ∷ []))
      after
write_lines-open_active_example =
    write_lines-open_active (create files 2 3) (3 ∷ []) ((4 ∷ []) ∷ [])

read_quoted-escape_example :
    read_quoted (escape (34 ∷ 65 ∷ 92 ∷ []) ++ (quote ∷ 66 ∷ []))
    ≡ some (34 ∷ 65 ∷ 92 ∷ [], 66 ∷ [])
read_quoted-escape_example = read_quoted-escape (34 ∷ 65 ∷ 92 ∷ []) (66 ∷ [])

-- An icon of one pixel.
abbrev icon_file : List ℕ
icon_file =
    0
    ∷ 0
    ∷ 1
    ∷ 0
    ∷ 1
    ∷ 0
    ∷ 1
    ∷ 1
    ∷ 0
    ∷ 0
    ∷ 1
    ∷ 0
    ∷ 32
    ∷ 0
    ∷ 44
    ∷ 0
    ∷ 0
    ∷ 0
    ∷ 22
    ∷ 0
    ∷ 0
    ∷ 0
    ∷ 40
    ∷ 0
    ∷ 0
    ∷ 0
    ∷ 1
    ∷ 0
    ∷ 0
    ∷ 0
    ∷ 2
    ∷ 0
    ∷ 0
    ∷ 0
    ∷ 1
    ∷ 0
    ∷ 32
    ∷ 0
    ∷ 0
    ∷ 0
    ∷ 0
    ∷ 0
    ∷ (replicate 20 0 ++ (1 ∷ 2 ∷ 3 ∷ 4 ∷ []))

one_pixel :
    load_ico_as_argb32 (λ es. es) (some icon_file)
    ≡ done (record { width = 1; height = 1; argb32_be = 4 ∷ 3 ∷ 2 ∷ 1 ∷ [] })
unfolding load_ico_as_argb32 try_entries try_entry is_png slice read_entries decode_bmp_frame
    check_header decode_pixels read_rows argb_row
one_pixel = refl

load_ico_as_argb32-IsSafe_example : IsSafe (load_ico_as_argb32 (λ es. es) (some icon_file))
load_ico_as_argb32-IsSafe_example = load_ico_as_argb32-IsSafe (λ es. es) (some icon_file)

abbrev frame : ConnectionState → Frame
frame state = record {
  role = slave;
  server = none;
  client = some (info state 9 [] []);
  playback = none;
  playback_generation = 0;
  window_visible = true;
}

abbrev history : List Frame
history = frame connected ∷ frame failed ∷ frame connected ∷ []

run-Agree_example :
    Counts.Agree
      (Counts.run history).0.last_connection_state
      (Counts.run history).0.ever_connected
      (Counts.run history).0.reconnect_count
      (Counts.established (Counts.run history).1)
      (Counts.dropped (Counts.run history).1)
run-Agree_example = run-Agree history
