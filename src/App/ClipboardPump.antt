-- ===== src/App/ClipboardPump.antt =====
-- src/app/clipboard_pump.cpp: what runs once a frame on either machine to keep the two clipboards
-- the same.
pub mod Copies
use no_cap_kvm.Prelude.{
  ℕ, ◌-◌, Bool, true, false, ◌&&◌, not, Option, none, some, List, [], ◌∷◌, ◌++◌, ltb, ◌==◌,
  if◌then◌else◌,
}
use no_cap_kvm.Discovery.Session.{ClipboardMessage}
use no_cap_kvm.Discovery.Types.{msg_clipboard_text, msg_clipboard_image}

pub data ContentType : Type 0 where
  text jpeg : ContentType

pub record ClipboardContent : Type 0 where
  pub type : ContentType
  pub bytes : List ℕ

abbrev pub same_type : ContentType → ContentType → Bool
same_type text text = true
same_type text jpeg = false
same_type jpeg text = false
same_type jpeg jpeg = true

abbrev pub same_data : List ℕ → List ℕ → Bool
same_data [] [] = true
same_data [] (y ∷ ys) = false
same_data (x ∷ xs) [] = false
same_data (x ∷ xs) (y ∷ ys) = (x == y) && same_data xs ys

-- operator==
unfoldable pub same_content : ClipboardContent → ClipboardContent → Bool
same_content a b = same_type a.type b.type && same_data a.bytes b.bytes

-- The clipboard's part of AppState.
pub record ClipboardState : Type 0 where
  pub last_seen_valid : Bool
  pub last_seen : ClipboardContent
  pub last_applied_valid : Bool
  pub last_applied : ClipboardContent
  pub last_check : ℕ

-- In this frame: what take_pending_clipboard gives, the time, kPollInterval in ticks, what
-- clipboard_changed says, and what read_clipboard then gives.
pub record ClipboardEnv : Type 0 where
  pub pending : Option ClipboardMessage
  pub now : ℕ
  pub poll_interval : ℕ
  pub changed : Bool
  pub read : Option ClipboardContent

-- write_clipboard on this machine, and a message to the peer; each has its own counter.
pub data Effect : Type 0 where
  write : ClipboardContent → Effect
  send : ℕ → List ℕ → Effect

unfoldable pub forget : ClipboardState → ClipboardState
forget s = record s { last_seen_valid = false; last_applied_valid = false }

abbrev pub content_of : ClipboardMessage → ClipboardContent
content_of msg = record { type = if msg.is_text then text else jpeg; bytes = msg.payload }

unfoldable pub apply_and_track : ClipboardState → ClipboardContent → ClipboardState × List Effect
apply_and_track s content = (
  record s {
    last_applied = content;
    last_applied_valid = true;
    last_seen = content;
    last_seen_valid = true;
  },
  write content ∷ [],
)

unfoldable pub take_pending :
    ClipboardState → Option ClipboardMessage → ClipboardState × List Effect
take_pending s none = (s, [])
take_pending s (some msg) = apply_and_track s (content_of msg)

abbrev pub msg_type : ContentType → ℕ
msg_type text = msg_clipboard_text
msg_type jpeg = msg_clipboard_image

abbrev pub sending : ClipboardContent → Effect
sending content = send (msg_type content.type) content.bytes

abbrev pub seeing : ClipboardState → ClipboardContent → ClipboardState
seeing s current = record s { last_seen = current; last_seen_valid = true }

-- What is done with the content that was read.
unfoldable pub look_at : ClipboardState → Option ClipboardContent → ClipboardState × List Effect
look_at s none = (s, [])
look_at s (some current) =
    if s.last_seen_valid && same_content current s.last_seen
    then (s, [])
    else if s.last_applied_valid && same_content current s.last_applied
    then (seeing s current, [])
    else (seeing s current, sending current ∷ [])

-- The part that runs once per interval.
unfoldable pub poll : ClipboardEnv → ClipboardState → ClipboardState × List Effect
poll env s =
    if ltb (env.now - s.last_check) env.poll_interval
    then (s, [])
    else if env.changed
    then look_at (record s { last_check = env.now }) env.read
    else (record s { last_check = env.now }, [])

unfoldable pub sync_clipboard : ClipboardEnv → Bool → ClipboardState → ClipboardState × List Effect
sync_clipboard env false s = (forget s, [])
sync_clipboard env true s =
    let applied = take_pending s env.pending in
    let polled = poll env applied.0 in (polled.0, applied.1 ++ polled.1)

-- `connection` is whether the server or the client is connected, none when there is neither; the
-- Master and the Slave differ only in which of the two they ask.
unfoldable pub pump_clipboard :
    ClipboardEnv → Option Bool → ClipboardState → ClipboardState × List Effect
pump_clipboard env none s = (forget s, [])
pump_clipboard env (some is_connected) s = sync_clipboard env is_connected s
