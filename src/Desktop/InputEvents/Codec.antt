-- ===== src/Desktop/InputEvents/Codec.antt =====
-- The encoder of the input event of desktop/src/desktop.cpp against its decoder.
use lan_pilot.Common.{
  ℕ, ok, false, [], refl, ◌<◌, List, ◌^◌, ◌≡◌, length, ◌⨾◌, ◌↔◌, ◌≤◌, invalid_argument,
  Result-cases, inl, ◌∙◌, arith, inr, ap,
}
use lan_pilot.Desktop.Wire.{IsBytes}
use lan_pilot.Desktop.InputEvents.{
  InputEvent, encode_input_event, decode_input_event, read_input_event, validate_input_event,
  input_event_bytes,
}
use lan_pilot.Desktop.Wire.Codec.{codec_iff}
use lan_pilot.Desktop.Updates.{checked_u32}
use lan_pilot.Desktop.Wire.Inverse.{
  magic_then, u8_then, pass_then, u64_then, u32_then, bytes_then, end_then, lift_then, done_then,
}
use lan_pilot.Desktop.Wire.Laws.{
  magic_step, u8_step, pass_step, flag_lt, flag-high, u64_step, u32_step, bytes_step, end_step,
  lift_step, flag-low, done_step,
}
use lan_pilot.Desktop.Limits.{maximum_input_text_size}

-- The ranges of the field types.
pub record InputEventFits (e : InputEvent) : Type 0 where
  pub kind : e.kind < 2 ^ 8
  pub sequence : e.sequence < 2 ^ 64
  pub occurred_at_us : e.occurred_at_us < 2 ^ 64
  pub value_a : e.value_a < 2 ^ 32
  pub value_b : e.value_b < 2 ^ 32

valid_text :
    (e : InputEvent) → validate_input_event e ≡ ok tt → length e.text ≤ maximum_input_text_size
unfolding validate_input_event
valid_text e v = ground arith

encode_lem :
    (e : InputEvent) → encode_input_event e ≡ (validate_input_event e ⨾ ok (input_event_bytes e))
unfolding encode_input_event checked_u32
encode_lem e = elim (Result-cases (validate_input_event e)) [
  | inl v ↦ rw v (ground (arith, valid_text e v))
  | inr (x, v) ↦ rw v refl
]

input_event_read :
    (e : InputEvent)
    → InputEventFits e
    → validate_input_event e ≡ ok tt
    → read_input_event (input_event_bytes e) ≡ ok (e, [])
unfolding read_input_event
input_event_read e f v =
    magic_step _ _ _
    ∙ u8_step _ 1 _ (omega arith)
    ∙ pass_step _ _ _ _ refl
    ∙ u8_step _ _ _ f.kind
    ∙ u8_step _ _ _ (ground (arith, flag_lt e.pressed))
    ∙ pass_step _ _ _ _ (flag-high e.pressed)
    ∙ u8_step _ 0 _ (omega arith)
    ∙ pass_step _ _ _ _ refl
    ∙ u64_step _ _ _ f.sequence
    ∙ u64_step _ _ _ f.occurred_at_us
    ∙ u32_step _ _ _ f.value_a
    ∙ u32_step _ _ _ f.value_b
    ∙ u32_step _ _ _ (omega (arith, valid_text e v))
    ∙ pass_step _ _ _ _ (ground (arith, valid_text e v))
    ∙ bytes_step _ _ _ _ refl
    ∙ end_step _
    ∙ lift_step _ _ _ (rw (flag-low e.pressed) v)
    ∙ done_step _ _
    ∙ ap (λ b. ok (record e { pressed = b }, [])) (flag-low e.pressed)

input_event_written :
    (e : InputEvent) (bs rest : List ℕ)
    → IsBytes bs
    → read_input_event bs ≡ ok (e, rest)
    → (validate_input_event e ≡ ok tt) × (bs ≡ input_event_bytes e)
unfolding read_input_event
input_event_written e bs rest hb k = magic_then _ _ _ hb k λ r0 e0 b0 k0.
    u8_then _ _ b0 k0 λ v1 r1 l1 e1 b1 k1. pass_then _ _ _ _ k1 λ t1 m1.
      u8_then _ _ b1 m1 λ v2 r2 l2 e2 b2 k2. u8_then _ _ b2 k2 λ v3 r3 l3 e3 b3 k3.
        pass_then _ _ _ _ k3 λ t3 m3. u8_then _ _ b3 m3 λ v4 r4 l4 e4 b4 k4.
          pass_then _ _ _ _ k4 λ t4 m4. u64_then _ _ b4 m4 λ v5 r5 l5 e5 b5 k5.
            u64_then _ _ b5 k5 λ v6 r6 l6 e6 b6 k6. u32_then _ _ b6 k6 λ v7 r7 l7 e7 b7 k7.
              u32_then _ _ b7 k7 λ v8 r8 l8 e8 b8 k8. u32_then _ _ b8 k8 λ v9 r9 l9 e9 b9 k9.
                pass_then _ _ _ _ k9 λ t9 m9. bytes_then _ _ _ b9 m9 λ v10 r10 l10 c10 e10 b10 k10.
                  end_then _ _ k10 λ e11 k11.
                    lift_then _ _ _ k11 λ w12 k12. let y = done_then _ _ k12 in ground (arith, y)

-- For an event whose fields fit their types, encoding gives a byte string exactly when decoding that
-- byte string gives the event.
pub input_event_codec :
    (e : InputEvent) (bs : List ℕ)
    → InputEventFits e
    → IsBytes bs
    → (encode_input_event e ≡ ok bs) ↔ (decode_input_event bs ≡ ok e)
unfolding decode_input_event
input_event_codec e bs f hb = rw (encode_lem e) (
    codec_iff (validate_input_event e) (λ _. false) invalid_argument (input_event_bytes e)
      (λ _. read_input_event) e bs (λ _. refl) (λ v. ([], input_event_read e f v))
      (λ rest _ q. input_event_written e bs rest hb q))
