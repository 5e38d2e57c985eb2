-- ===== src/Lib.antt =====
-- NoCapKVM shares one keyboard, mouse and sound output between a Master, which owns the devices, and
-- a Slave beside it. This library models the program's logic and proves what makes it correct.
--
-- The parts, and how they interact:
--   * src/app/input_pump.cpp runs once a frame on the Master. It decides which machine owns the input,
--     keeps track of the held keys, and sends the Slave its messages. App/InputPump has its state
--     (State, the fields of AppState in src/app/app_state.h), the two handlers (Handoff: handle_master_owned and
--     handle_slave_owned) and the pump itself (Pump: pump_input). A frame of input is an argument, as
--     InputHook::poll would return it, and the effects are a list of calls.
--   * src/topology/crossing.cpp says where the edges of the screens are and where a crossing lands:
--     Topology/Geometry and Topology/Crossing. The pump calls it on every frame. arrangement.cpp keeps
--     where each Slave's screens stand: Topology/Arrangement.
--   * src/input/protocol.cpp encodes the messages of the pump: Input/Protocol, with the Slave's
--     dispatch_input_message of src/discovery/tcp_client.cpp.
--   * src/discovery sets up a connection and carries the messages. Noise and NoiseIk are the
--     key exchange (noise_primitives.cpp, noise_ik.cpp), SecureChannel the encrypted frames (secure_channel.cpp),
--     Payloads the messages beside the input (monitor_protocol.cpp, audio_port_protocol.cpp,
--     ping_protocol.cpp), Announce and PeerTable how the machines find each other (protocol.cpp,
--     peer_table.cpp), Handshake an attempt to connect on either side (tcp_client.cpp,
--     tcp_server.cpp, known_peers.cpp, pairing.cpp), Session the loop that follows it, Connection the
--     status that the pump reads (connection_types.h). libsodium is a parameter, Crypto.Sodium, with
--     its documented laws in SodiumLaws.
--     RetryLoop is the loop of TcpClient::run around the attempts.
--   * src/audio carries the sound of the Slave. Audio/Stream has the sealed packets (format.h, protocol.cpp,
--     channel.cpp), Audio/JitterBuffer the buffer that orders and paces them (jitter_buffer.cpp), and
--     Audio/Playback the device's callback that reads from it (playback.cpp).
--   * src/app/audio_pump.cpp starts and stops both ends once a frame: App/AudioPump has the Slave's
--     (pump_slave), App/AudioPump/Master the Master's (pump_master). They exchange the settings through
--     the messages of Discovery/Session.
--   * src/app/clipboard_pump.cpp and auto_connect_pump.cpp run once a frame: App/ClipboardPump and
--     App/AutoConnect.
--   * src/discovery/announcer.cpp and listener.cpp send and hear the announcements: Discovery/Listener.
--   * src/telemetry/logger.cpp and format.cpp write the log: Telemetry/Logger and Telemetry/Format.
--     src/app/telemetry_pump.cpp notes what changes from frame to frame, Telemetry/Transitions, and
--     src/telemetry/telemetry.cpp reports once an interval, Telemetry/Report.
--   * src/app/ico_decode.cpp reads the tray's icon: App/IcoDecode.
--   * src/app/retry_backoff.h, reconnect_tracker.h, audio_loss_window.h and buffer_depth_window.h are
--     small state machines of the application: App/RetryBackoff, App/AudioLossWindow and
--     App/BufferDepthWindow.
--   * Prelude has lists, integers, bytes, machine words and maps; Tests has the theorems at concrete
--     inputs.
--
-- Numbers: counters of 32 and 64 bits wrap as they do in the code. Coordinates of int32_t are exact
-- integers, since their overflow is undefined in C++. Times are numbers of ticks of the steady clock,
-- which does not run backwards. A std::map is a list in ascending order of its keys. A function under
-- a mutex is one step. Most loops are recursions on a list or on a number of calls. Two run on fuel:
-- the loop of the playback callback, on the bytes asked for and the packets that wait, since each round
-- uses up one of either; and the wait of TcpClient::run, on the milliseconds that remain. What the sockets, the user and the operating system answer is an argument, none where a
-- call fails or runs out of time; a socket read is the bytes that arrive before its deadline.
-- A payload's length is checked before its fields are read, as in the code.
-- `direction` of a boundary check that did not cross is `left` here, and uninitialised in the code.
--
-- Not modelled: the operating system's layer (src/input/hook.cpp, inject.cpp, platform_socket.cpp and
-- the clipboard), the user interface, the files of the settings, the set-up of the broadcast sockets, the
-- sound devices and the capture, and the floating-point figures of the telemetry's summary.
pub mod Prelude
pub mod Audio
pub mod Topology
pub mod Discovery
pub mod Input
pub mod App
pub mod Telemetry
mod Tests
