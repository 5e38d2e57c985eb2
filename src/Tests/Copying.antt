-- ===== src/Tests/Copying.antt =====
-- src/app/clipboard_pump.cpp, src/app/auto_connect_pump.cpp, src/discovery/listener.cpp and the loop
-- of TcpClient::run.
use no_cap_kvm.Prelude.{
  ℕ, ◌+◌, arith, ◌≡◌, refl, true, false, none, some, Option, [], ◌∷◌, inl, inr,
}
use no_cap_kvm.Discovery.Types.{slave, master, PeerInfo}
use no_cap_kvm.Discovery.Connection.{ConnectionInfo, info, failed}
use no_cap_kvm.Discovery.Session.{ClipboardMessage}
use no_cap_kvm.Prelude.Assoc.{lookup}
use no_cap_kvm.Discovery.Announce.{encode_announce, short_hostname}
use no_cap_kvm.Discovery.Listener.{listen}
use no_cap_kvm.Discovery.Listener.Discovers.{listen-encode_announce}
use no_cap_kvm.Discovery.RetryLoop.{Attempt, retry_backoff, begin, run}
use no_cap_kvm.Discovery.RetryLoop.GivesUp.{run-ends}
use no_cap_kvm.App.ClipboardPump.{
  ClipboardContent, ClipboardState, ClipboardEnv, text, sending, same_content,
}
use no_cap_kvm.App.ClipboardPump.Copies.{frames, sent, Finds, no_echo, copy_back_lost}
use no_cap_kvm.App.AutoConnect.{AutoConnect}
use no_cap_kvm.App.AutoConnect.Dialing.{NoneDials, pumps, go_away_lem}

abbrev word : ℕ → ClipboardContent
word ch = record { type = text; bytes = ch ∷ [] }

abbrev fresh : ClipboardState
fresh = record {
  last_seen_valid = false;
  last_seen = word 0;
  last_applied_valid = false;
  last_applied = word 0;
  last_check = 0;
}

abbrev polling : ℕ → Option ClipboardContent → ClipboardEnv
polling now read = record {
  pending = none;
  now = now;
  poll_interval = 10;
  changed = true;
  read = read;
}

abbrev from_peer : ClipboardMessage
from_peer = record { is_text = true; payload = 65 ∷ [] }

no_echo_example :
    sent
      (frames
        (record (polling 10 (some (word 65))) { pending = some from_peer }
          ∷ polling 20 none
          ∷ polling 30 (some (word 65))
          ∷ [])
        fresh).1
    ≡ []
no_echo_example =
    no_echo (record (polling 10 (some (word 65))) { pending = some from_peer })
      (polling 20 none ∷ polling 30 (some (word 65)) ∷ []) fresh from_peer refl (inr refl)
      (inl refl, (inr refl, tt))

finds :
    (now : ℕ) (ch : ℕ) (s : ClipboardState)
    → 10 + s.last_check ≡ now
    → Finds (polling now (some (word ch))) s (word ch)
finds now ch s h = record { none_pending = refl; due = omega arith; changed = refl; read = refl }

abbrev has_applied : ClipboardState
has_applied = record fresh { last_applied_valid = true; last_applied = word 65 }

copy_back_lost_example :
    sent (frames (polling 10 (some (word 66)) ∷ polling 20 (some (word 65)) ∷ []) has_applied).1
    ≡ sending (word 66) ∷ []
unfolding same_content
copy_back_lost_example =
    copy_back_lost (polling 10 (some (word 66))) (polling 20 (some (word 65))) has_applied (word 65)
      (word 66) refl refl (finds 10 66 has_applied refl) refl
      (finds 20 65 (record has_applied { last_check = 10 }) refl)

abbrev old_master : PeerInfo
old_master = record {
  device_id = 9;
  hostname = [];
  role = master;
  tcp_port = 5000;
  ip_address = [];
  last_seen = 0;
}

abbrev away : ConnectionInfo
away = record (info failed 9 [] []) { go_away_received = true }

abbrev slave_frame : Option ConnectionInfo → AutoConnect
slave_frame client = record {
  role = slave;
  peers = some (old_master ∷ []);
  client = client;
  suppressed = [];
  enabled = true;
  known = 9 ∷ [];
}

go_away_lem_example : NoneDials 9 (pumps [] (slave_frame (some away) ∷ slave_frame none ∷ []))
go_away_lem_example =
    go_away_lem (slave_frame (some away)) away (old_master ∷ []) (slave_frame none ∷ []) [] refl
      refl refl refl (tt, tt)

abbrev failing : Attempt
failing = record {
  outcome = retry_backoff;
  duration = 3;
  running = true;
  running_at = λ i. true;
  running_next = true;
  oversleep = λ i. 1;
}

run-ends_example : run 2000 (failing ∷ failing ∷ []) (some (begin 2000 7)) ≡ none
run-ends_example =
    run-ends 2000 7 (failing ∷ failing ∷ []) (omega arith)
      (
        record { outcome = refl; running = refl; running_at = λ i. refl; running_next = refl },
        (
          record { outcome = refl; running = refl; running_at = λ i. refl; running_next = refl },
          tt,
        ),
      )
      (omega arith)

listen-encode_announce_example :
    lookup 7 (
      listen 8 (
        record {
          received = some (encode_announce 7 master 4711 (80 ∷ 67 ∷ []), 10 ∷ []);
          heard_at = 100;
          now = 101;
        }
        ∷ []))
    ≡ some (record {
      device_id = 7;
      hostname = short_hostname (80 ∷ 67 ∷ []);
      role = master;
      tcp_port = 4711;
      ip_address = 10 ∷ [];
      last_seen = 100;
    })
listen-encode_announce_example =
    listen-encode_announce 8 7 master 4711 (80 ∷ 67 ∷ []) (10 ∷ []) 100 101 []
      (λ e. absurd (omega arith)) (omega arith) (omega arith) (omega arith)
