-- ===== src/Desktop/Input.antt =====
-- InputReceiver of desktop/src/desktop.cpp, which passes events to the InputBackend and knows what is
-- held down.
pub mod Held
pub mod Order
pub mod Stuck
use lan_pilot.Common.{
  ℕ, zero, suc, true, false, none, some, [], ◌∷◌, if◌then◌else◌, List, ◌+◌, Option, Bool, ◌==◌,
  Result, erase_key, err, leb, throw_if, assign, ok, ◌⨾◌, not, length, ◌!=◌, ◌*◌, ◌&&◌,
  invalid_argument, ◌++◌, ◌%◌, ◌||◌, logic_error, ltb, ◌^◌, ◌-◌, insert, ◌/◌, erase, contains,
  length_error,
}
use lan_pilot.Core.Capability
use lan_pilot.Core.Authorization.{AuthorizationResult, permits}
use lan_pilot.Desktop.InputKind
use lan_pilot.Desktop.Utf8.{valid_utf8}
use lan_pilot.Desktop.Wire.{
  ◌>>=◌, ◌>>◌, Reader, put_u32, require_magic, parse, u8, put_u8, refuse_if, u64, put_u64, u32,
  bytes, end, lift, done, flag,
}
use lan_pilot.Desktop.Updates.{checked_u32}
use lan_pilot.Desktop.Limits.{input_magic, maximum_input_text_size}
use lan_pilot.Desktop.InputEvents.{InputEvent, validate_input_event}

-- The calls of the backend. A wheel delta is the bit pattern of an std::int32_t.
pub data BackendCall : Type 0 where
  calls_raw_key : ℕ → Bool → BackendCall
  calls_text_commit : List ℕ → BackendCall
  calls_pointer_move : ℕ → ℕ → BackendCall
  calls_pointer_button : ℕ → Bool → BackendCall
  calls_pointer_wheel : ℕ → Bool → BackendCall

-- `backend_` is what it has been called with, the latest call first; a backend call that throws is
-- outside the model.
pub record InputReceiver : Type 0 where
  pub backend : List BackendCall
  pub last_reliable_sequence : Option ℕ
  pub last_pointer_sequence : Option ℕ
  pub pressed_keys : List (ℕ × ℕ)
  pub pressed_buttons : List ℕ
  pub input_epoch : ℕ

abbrev pub new_receiver : InputReceiver
new_receiver = record {
  backend = [];
  last_reliable_sequence = none;
  last_pointer_sequence = none;
  pressed_keys = [];
  pressed_buttons = [];
  input_epoch = 1;
}

abbrev pub call : BackendCall → InputReceiver → InputReceiver
call c s = record s { backend = c ∷ s.backend }

-- `last && sequence <= *last`
abbrev pub is_repeated : ℕ → Option ℕ → Bool
is_repeated sequence none = false
is_repeated sequence (some last) = leb sequence last

-- `last && sequence != *last + 1`
abbrev pub leaves_gap : ℕ → Option ℕ → Bool
leaves_gap sequence none = false
leaves_gap sequence (some last) = sequence != (last + 1) % 2 ^ 64

receive_pointer_move : InputReceiver → InputEvent → InputReceiver × Result Bool
receive_pointer_move s e =
    if is_repeated e.sequence s.last_pointer_sequence then (s, ok false) else (
      call (calls_pointer_move (e.value_a % 2 ^ 16) (e.value_b % 2 ^ 16))
          (record s { last_pointer_sequence = some e.sequence }),
      ok true,
    )

-- The switch of `receive`.
apply_event : InputReceiver → InputEvent → InputReceiver
apply_event s e =
    if e.kind == InputKind.raw_key
    then record s {
      backend = calls_raw_key e.value_a e.pressed ∷ s.backend;
      pressed_keys =
          if e.pressed
          then assign e.value_a e.occurred_at_us s.pressed_keys
          else erase_key e.value_a s.pressed_keys;
    }
    else if e.kind == InputKind.text_commit
    then call (calls_text_commit e.text) s
    else if e.kind == InputKind.pointer_button
    then record s {
      backend = calls_pointer_button (e.value_a % 2 ^ 8) e.pressed ∷ s.backend;
      pressed_buttons =
          if e.pressed
          then insert (e.value_a % 2 ^ 8) s.pressed_buttons
          else erase (e.value_a % 2 ^ 8) s.pressed_buttons;
    }
    else if e.kind == InputKind.vertical_wheel || e.kind == InputKind.horizontal_wheel
    then call (calls_pointer_wheel e.value_a (e.kind == InputKind.horizontal_wheel)) s
    else s

receive_reliable : InputReceiver → InputEvent → Bool → InputReceiver × Result Bool
unfolding apply_event
receive_reliable s e reliable =
    if not reliable
    then (s, err invalid_argument)
    else if is_repeated e.sequence s.last_reliable_sequence
    then (s, ok false)
    else if leaves_gap e.sequence s.last_reliable_sequence
    then (s, err invalid_argument)
    else (apply_event (record s { last_reliable_sequence = some e.sequence }) e, ok true)

unfoldable pub receive_input :
    InputReceiver → InputEvent → Bool → AuthorizationResult → InputReceiver × Result Bool
unfolding receive_pointer_move receive_reliable
receive_input s e reliable authorization =
    if not (permits authorization Capability.desktop_control)
    then (s, err logic_error)
    else elim (validate_input_event e) [
      | err x ↦ (s, err x)
      | ok _ ↦
          if e.kind == InputKind.pointer_move
          then receive_pointer_move s e
          else receive_reliable s e reliable
    ]

-- The first loop of `release_stuck_keys`.
unfoldable pub stale_keys : ℕ → ℕ → List (ℕ × ℕ) → List ℕ
stale_keys now hold [] = []
stale_keys now hold ((usage, pressed_at) ∷ keys) =
    let rest = stale_keys now hold keys in
    if leb pressed_at now && leb hold (now - pressed_at) then usage ∷ rest else rest

unfoldable pub release_each : List ℕ → InputReceiver → InputReceiver
release_each [] s = s
release_each (usage ∷ rest) s = release_each rest (record s {
  backend = calls_raw_key usage false ∷ s.backend;
  pressed_keys = erase_key usage s.pressed_keys;
})

-- `maximum_hold` in milliseconds; 0 stands for a duration that is not positive.
unfoldable pub release_stuck_keys : InputReceiver → ℕ → ℕ → InputReceiver × Result ℕ
unfolding stale_keys release_each
release_stuck_keys s now_us maximum_hold =
    let stale = stale_keys now_us (maximum_hold * 1000) s.pressed_keys in
    if maximum_hold == 0
    then (s, err invalid_argument)
    else (release_each stale s, ok (length stale))

abbrev pub count_keys : List (ℕ × ℕ) → ℕ
count_keys [] = 0
count_keys (_ ∷ keys) = suc (count_keys keys)

unfoldable pub lift_keys : List (ℕ × ℕ) → List BackendCall → List BackendCall
lift_keys [] log = log
lift_keys ((usage, _) ∷ keys) log = lift_keys keys (calls_raw_key usage false ∷ log)

unfoldable pub release_all_keys : InputReceiver → InputReceiver × ℕ
unfolding lift_keys
release_all_keys s = (
  record s { backend = lift_keys s.pressed_keys s.backend; pressed_keys = [] },
  count_keys s.pressed_keys,
)

unfoldable pub lift_buttons : List ℕ → List BackendCall → List BackendCall
lift_buttons [] log = log
lift_buttons (button ∷ buttons) log = lift_buttons buttons (calls_pointer_button button false ∷ log)

unfoldable pub release_all_input : InputReceiver → InputReceiver × ℕ
unfolding release_all_keys lift_buttons
release_all_input s =
    let (t, key_count) = release_all_keys s in
    (
      record t { backend = lift_buttons t.pressed_buttons t.backend; pressed_buttons = [] },
      key_count + length t.pressed_buttons,
    )

unfoldable pub accept_input_epoch : InputReceiver → ℕ → Bool → InputReceiver × Result Bool
unfolding release_all_input
accept_input_epoch s epoch release_all =
    if epoch == 0
    then (s, err invalid_argument)
    else if ltb epoch s.input_epoch
    then (s, ok false)
    else if epoch == s.input_epoch
    then (s, ok true)
    else if not release_all
    then (s, err invalid_argument)
    else (
      record (release_all_input s).0 {
        input_epoch = epoch;
        last_reliable_sequence = none;
        last_pointer_sequence = none;
      },
      ok true,
    )
