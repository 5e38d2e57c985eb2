-- ===== src/App/InputPump/State.antt =====
-- The state of the input pump (its part of src/app/app_state.h and of the hook of
-- include/nockvm/input/hook.h), what it sends, and the bookkeeping of the held keys.
use no_cap_kvm.Prelude.{
  ℕ, Bool, true, false, ◌&&◌, ◌||◌, Option, List, [], ◌∷◌, ◌++◌, if◌then◌else◌, ◌==◌,
}
use no_cap_kvm.Prelude.Int.{ℤ}
use no_cap_kvm.Topology.Geometry.{MonitorInfo, ArrangementEntry}
use no_cap_kvm.Discovery.Types.{Role}
use no_cap_kvm.Discovery.Connection.{ConnectionInfo}
use no_cap_kvm.Input.Protocol.{
  KeyEvent, encode_key, encode_modifier_sync, msg_key, msg_modifier_sync,
}

pub record HeldKey : Type 0 where
  pub vk : ℕ
  pub scancode : ℕ
  pub extended : Bool

-- `server` is what tcp_server->status() says, none for no server; `suppress` is the hook's flag.
pub record InputState : Type 0 where
  pub role : Role
  pub server : Option ConnectionInfo
  pub local_monitors : List MonitorInfo
  pub arrangement : List (ℕ × ArrangementEntry)
  pub hook_active : Bool
  pub owned_by_master : Bool
  pub logical_x : ℤ
  pub logical_y : ℤ
  pub just_handed_off : Bool
  pub held_keys : List HeldKey
  pub suppress : Bool

-- The virtual-key codes of the Windows headers.
pub record VkCodes : Type 0 where
  pub control : ℕ
  pub lcontrol : ℕ
  pub rcontrol : ℕ
  pub menu : ℕ
  pub lmenu : ℕ
  pub rmenu : ℕ
  pub shift : ℕ
  pub lshift : ℕ
  pub rshift : ℕ
  pub escape : ℕ

-- What the operating system answers in this frame: the cursor, for get_local_cursor_pos, and the
-- modifiers held, for current_modifier_mask.
pub record Env : Type 0 where
  pub vk : VkCodes
  pub cursor : Option (ℤ × ℤ)
  pub modifier_mask : ℕ

-- What the pump does to the world: send_input, inject_key on this machine, SetCursorPos by
-- InputHook::resume, and disconnect_current.
pub data Effect : Type 0 where
  send : ℕ → List ℕ → Effect
  inject : ℕ → ℕ → Bool → Bool → Effect
  warp : ℤ → ℤ → Effect
  disconnect : Effect

-- The loop of `pump_input` over the frame's key events, for one event.
unfoldable pub hold : KeyEvent → List HeldKey → List HeldKey
hold k [] = record { vk = k.vk; scancode = k.scancode; extended = k.extended } ∷ []
hold k (h ∷ held) =
    if h.vk == k.vk
    then record { vk = k.vk; scancode = k.scancode; extended = k.extended } ∷ held
    else h ∷ hold k held

unfoldable pub let_go : ℕ → List HeldKey → List HeldKey
let_go vk [] = []
let_go vk (h ∷ held) = if h.vk == vk then held else h ∷ let_go vk held

unfoldable pub track_key : List HeldKey → KeyEvent → List HeldKey
track_key held k = if k.down then hold k held else let_go k.vk held

unfoldable pub track_keys : List HeldKey → List KeyEvent → List HeldKey
track_keys held [] = held
track_keys held (k ∷ ks) = track_keys (track_key held k) ks

module _ (v : VkCodes) where
  unfoldable pub is_ctrl : ℕ → Bool
  is_ctrl k = (k == v.control) || (k == v.lcontrol) || (k == v.rcontrol)

  unfoldable pub is_alt : ℕ → Bool
  is_alt k = (k == v.menu) || (k == v.lmenu) || (k == v.rmenu)

  unfoldable pub is_shift : ℕ → Bool
  is_shift k = (k == v.shift) || (k == v.lshift) || (k == v.rshift)

  unfoldable pub is_escape : ℕ → Bool
  is_escape k = k == v.escape

-- Some held key has a code of this kind.
unfoldable pub any_held : (ℕ → Bool) → List HeldKey → Bool
any_held p [] = false
any_held p (h ∷ held) = p h.vk || any_held p held

unfoldable pub escape_combo_held : VkCodes → List HeldKey → Bool
escape_combo_held v held =
    any_held (is_ctrl v) held
    && any_held (is_alt v) held
    && any_held (is_shift v) held
    && any_held (is_escape v) held

abbrev pub key_up_on_slave : HeldKey → Effect
key_up_on_slave k = send msg_key (encode_key k.vk k.scancode false k.extended)

abbrev pub modifier_sync : ℕ → Effect
modifier_sync mask = send msg_modifier_sync (encode_modifier_sync mask)

unfoldable pub key_ups : List HeldKey → List Effect
key_ups [] = []
key_ups (k ∷ held) = key_up_on_slave k ∷ key_ups held

unfoldable pub release_held_keys_on_slave : List HeldKey → List Effect
release_held_keys_on_slave held = key_ups held ++ (modifier_sync 0 ∷ [])

unfoldable pub release_held_keys_locally : List HeldKey → List Effect
release_held_keys_locally [] = []
release_held_keys_locally (k ∷ held) =
    inject k.vk k.scancode false k.extended ∷ release_held_keys_locally held

-- `deactivate_hook`: the hook is resumed and uninstalled.
unfoldable pub deactivate_hook : InputState → InputState
deactivate_hook s = record s {
  suppress = false;
  hook_active = false;
  owned_by_master = true;
  held_keys = [];
}
