-- ===== src/Desktop/InputEvents.antt =====
-- The input event message of desktop/src/desktop.cpp. `InputKind` is an enum class over std::uint8_t
-- and is a number here, with its values in InputKind.
pub mod Codec
use lan_pilot.Common.{
  ℕ, zero, suc, true, false, none, some, [], ◌∷◌, if◌then◌else◌, List, ◌+◌, Option, Bool, ◌==◌,
  Result, erase_key, err, leb, throw_if, assign, ok, ◌⨾◌, not, length, ◌!=◌, ◌*◌, ◌&&◌,
  invalid_argument, ◌++◌, ◌%◌, ◌||◌, logic_error, ltb, ◌^◌, ◌-◌, insert, ◌/◌, erase, contains,
  length_error,
}
use lan_pilot.Core.Capability
use lan_pilot.Core.Authorization.{AuthorizationResult, permits}
use lan_pilot.Desktop.InputKind
use lan_pilot.Desktop.Utf8.{valid_utf8}
use lan_pilot.Desktop.Wire.{
  ◌>>=◌, ◌>>◌, Reader, put_u32, require_magic, parse, u8, put_u8, refuse_if, u64, put_u64, u32,
  bytes, end, lift, done, flag,
}
use lan_pilot.Desktop.Updates.{checked_u32}
use lan_pilot.Desktop.Limits.{input_magic, maximum_input_text_size}

pub record InputEvent : Type 0 where
  pub kind : ℕ
  pub sequence : ℕ
  pub occurred_at_us : ℕ
  pub value_a : ℕ
  pub value_b : ℕ
  pub pressed : Bool
  pub text : List ℕ

abbrev has_text_bytes : InputEvent → Bool
has_text_bytes e = length e.text != 0

-- The cases of the switch.
validate_input_kind : InputEvent → Result (Unit {0})
validate_input_kind e =
    if e.kind == InputKind.raw_key
    then throw_if (e.value_a == 0 || ltb 65535 e.value_a || e.value_b != 0 || has_text_bytes e)
        invalid_argument
    else if e.kind == InputKind.text_commit
    then throw_if
        (e.value_a != 0
          || e.value_b != 0
          || e.pressed
          || not (has_text_bytes e)
          || ltb maximum_input_text_size (length e.text)
          || contains e.text 0
          || not (valid_utf8 e.text))
        invalid_argument
    else if e.kind == InputKind.pointer_move
    then throw_if (ltb 65535 e.value_a || ltb 65535 e.value_b || e.pressed || has_text_bytes e)
        invalid_argument
    else if e.kind == InputKind.pointer_button
    then throw_if (e.value_a == 0 || ltb 8 e.value_a || e.value_b != 0 || has_text_bytes e)
        invalid_argument
    else if e.kind == InputKind.vertical_wheel || e.kind == InputKind.horizontal_wheel
    then throw_if (e.value_a == 0 || e.value_b != 0 || e.pressed || has_text_bytes e)
        invalid_argument
    else err invalid_argument

unfoldable pub validate_input_event : InputEvent → Result (Unit {0})
unfolding validate_input_kind
validate_input_event e =
    throw_if (e.sequence == 0 || e.occurred_at_us == 0) invalid_argument ⨾ validate_input_kind e

abbrev pub input_event_bytes : InputEvent → List ℕ
input_event_bytes e =
    input_magic
    ++ (put_u8 1
        ++ (put_u8 e.kind
            ++ (put_u8 (flag e.pressed)
                ++ (put_u8 0
                    ++ (put_u64 e.sequence
                        ++ (put_u64 e.occurred_at_us
                            ++ (put_u32 e.value_a
                                ++ (put_u32 e.value_b
                                    ++ (put_u32 (length e.text) ++ (e.text ++ []))))))))))

unfoldable pub encode_input_event : InputEvent → Result (List ℕ)
unfolding checked_u32
encode_input_event e =
    validate_input_event e ⨾ checked_u32 (length e.text) ⨾ ok (input_event_bytes e)

-- `flags & 0xfe` and `flags & 1` of a byte.
read_input_event : Reader InputEvent
read_input_event = do
  require_magic input_magic
  version ← u8
  refuse_if (version != 1) invalid_argument
  kind ← u8
  flags ← u8
  refuse_if (flags / 2 != 0) invalid_argument
  reserved ← u8
  refuse_if (reserved != 0) invalid_argument
  sequence ← u64
  occurred_at_us ← u64
  value_a ← u32
  value_b ← u32
  text_size ← u32
  refuse_if (ltb maximum_input_text_size text_size) length_error
  text ← bytes text_size
  end
  let event : InputEvent = record {
    kind = kind;
    sequence = sequence;
    occurred_at_us = occurred_at_us;
    value_a = value_a;
    value_b = value_b;
    pressed = flags % 2 != 0;
    text = text;
  }
  lift (validate_input_event event)
  done event

unfoldable pub decode_input_event : List ℕ → Result InputEvent
unfolding read_input_event
decode_input_event bs = parse read_input_event bs
