-- ===== src/Transport/ChannelHandshake/Codec.antt =====
-- The encoders of the handshake messages of transport/src/channel_session.cpp against their decoders,
-- and the validation of an admission by the client.
use lan_pilot.Common.{
  ℕ, ok, true, false, [], refl, ◌<◌, List, Bool, ◌^◌, length, ◌≡◌, ◌↔◌, ◌!=◌, arith,
  invalid_argument, bytes_eq_sound, ◌∙◌, ◌&&◌, ⨾-eq-ok, length-append, ◌++◌, sym, ◌==◌, ap,
}
use lan_pilot.Desktop.Wire.{put_u64, IsBytes, put_u8}
use lan_pilot.Transport.ChannelHandshake.{
  ChannelHello, encode_channel_hello, decode_channel_hello, read_channel_hello,
  encode_channel_admission, validate_hello, read_channel_admission, ChannelAdmission,
  validate_channel_admission, decode_channel_admission, check_admission, channel_admission_bytes,
  channel_hello_bytes, visual, grant_bits, ChannelGrants,
}
use lan_pilot.Desktop.Wire.Codec.{codec_iff}
use lan_pilot.Desktop.Wire.Laws.{
  magic_step, u8_step, pass_step, bytes_step, u64_step, end_step, lift_step, done_step,
}
use lan_pilot.Desktop.Wire.Inverse.{
  magic_then, u8_then, pass_then, bytes_then, u64_then, end_then, lift_then, done_then,
}

-- The ranges of the field types.
pub record HelloFits (h : ChannelHello) : Type 0 where
  pub channel : h.channel < 2 ^ 8
  pub session_id : length h.session_id ≡ 16
  pub generation : h.generation < 2 ^ 64

pub record AdmissionFits (a : ChannelAdmission) : Type 0 where
  pub session_id : length a.session_id ≡ 16
  pub generation : a.generation < 2 ^ 64

channel_hello_read :
    (h : ChannelHello)
    → HelloFits h
    → validate_hello h ≡ ok tt
    → read_channel_hello (channel_hello_bytes h) ≡ ok (h, [])
unfolding read_channel_hello
channel_hello_read h f v =
    magic_step _ _ _
    ∙ u8_step _ 1 _ (omega arith)
    ∙ pass_step _ _ _ _ refl
    ∙ u8_step _ _ _ f.channel
    ∙ u8_step _ 0 _ (omega arith)
    ∙ pass_step _ _ _ _ refl
    ∙ u8_step _ 0 _ (omega arith)
    ∙ pass_step _ _ _ _ refl
    ∙ bytes_step _ _ _ _ (sym f.session_id)
    ∙ u64_step _ _ _ f.generation
    ∙ end_step _
    ∙ lift_step _ _ _ v
    ∙ done_step _ _

channel_hello_written :
    (h : ChannelHello) (bs rest : List ℕ)
    → IsBytes bs
    → read_channel_hello bs ≡ ok (h, rest)
    → (validate_hello h ≡ ok tt) × (bs ≡ channel_hello_bytes h)
unfolding read_channel_hello
channel_hello_written h bs rest hb k = magic_then _ _ _ hb k λ r0 e0 b0 k0.
    u8_then _ _ b0 k0 λ v1 r1 l1 e1 b1 k1. pass_then _ _ _ _ k1 λ t1 m1.
      u8_then _ _ b1 m1 λ v2 r2 l2 e2 b2 k2. u8_then _ _ b2 k2 λ v3 r3 l3 e3 b3 k3.
        pass_then _ _ _ _ k3 λ t3 m3. u8_then _ _ b3 m3 λ v4 r4 l4 e4 b4 k4.
          pass_then _ _ _ _ k4 λ t4 m4. bytes_then _ _ _ b4 m4 λ v5 r5 l5 c5 e5 b5 k5.
            u64_then _ _ b5 k5 λ v6 r6 l6 e6 b6 k6.
              end_then _ _ k6
                λ e7 k7. lift_then _ _ _ k7 λ w8 k8. let y = done_then _ _ k8 in ground (arith, y)

-- For a hello whose fields fit their types, encoding gives a byte string exactly when decoding that
-- byte string gives the hello.
pub channel_hello_codec :
    (h : ChannelHello) (bs : List ℕ)
    → HelloFits h
    → IsBytes bs
    → (encode_channel_hello h ≡ ok bs) ↔ (decode_channel_hello bs ≡ ok h)
unfolding encode_channel_hello decode_channel_hello put_u8 put_u64
channel_hello_codec h bs f hb =
    codec_iff (validate_hello h) (λ b. length b != 32) invalid_argument (channel_hello_bytes h)
      (λ _. read_channel_hello) h bs
      (λ _. ground (arith, length-append h.session_id (put_u64 h.generation ++ []), f.session_id))
      (λ v. ([], channel_hello_read h f v)) (λ rest _ q. channel_hello_written h bs rest hb q)

channel_admission_read :
    (a : ChannelAdmission)
    → AdmissionFits a
    → check_admission a ≡ ok tt
    → read_channel_admission (channel_admission_bytes a) ≡ ok (a, [])
unfolding read_channel_admission
channel_admission_read a f v =
    let input = a.grants.desktop_input in
    let (valid, both) =
      ⨾-eq-ok
        (validate_hello
          (record { channel = visual; session_id = a.session_id; generation = a.generation }))
        _ v in
    magic_step _ _ _
    ∙ u8_step _ 1 _ (omega arith)
    ∙ pass_step _ _ _ _ refl
    ∙ u8_step _ _ _ (grant_bits_lt input)
    ∙ pass_step _ _ _ _ (grant_bits-known input)
    ∙ u8_step _ 0 _ (omega arith)
    ∙ pass_step _ _ _ _ refl
    ∙ u8_step _ 0 _ (omega arith)
    ∙ pass_step _ _ _ _ refl
    ∙ bytes_step _ _ _ _ (sym f.session_id)
    ∙ u64_step _ _ _ f.generation
    ∙ end_step _
    ∙ lift_step _ _ _ valid
    ∙ done_step _ _
    ∙ ap (λ g. ok (record a { grants = g }, [])) (same_grants a.grants (ground (arith, both)))
  where
    same_grants :
        (g : ChannelGrants)
        → (g.visual ≡ true) × (g.control ≡ true)
        → record { visual = true; control = true; desktop_input = grant_bits g.desktop_input == 7 }
          ≡ g
    same_grants g e = ground (arith, e)

    grant_bits_lt : (b : Bool) → grant_bits b < 2 ^ 8
    grant_bits_lt true = omega arith
    grant_bits_lt false = omega arith

    grant_bits-known : (b : Bool) → (grant_bits b != 3 && grant_bits b != 7) ≡ false
    grant_bits-known true = refl
    grant_bits-known false = refl

channel_admission_written :
    (a : ChannelAdmission) (bs rest : List ℕ)
    → IsBytes bs
    → read_channel_admission bs ≡ ok (a, rest)
    → (check_admission a ≡ ok tt) × (bs ≡ channel_admission_bytes a)
unfolding read_channel_admission
channel_admission_written a bs rest hb k = magic_then _ _ _ hb k λ r0 e0 b0 k0.
    u8_then _ _ b0 k0 λ v1 r1 l1 e1 b1 k1. pass_then _ _ _ _ k1 λ t1 m1.
      u8_then _ _ b1 m1 λ v2 r2 l2 e2 b2 k2. pass_then _ _ _ _ k2 λ t2 m2.
        u8_then _ _ b2 m2 λ v3 r3 l3 e3 b3 k3. pass_then _ _ _ _ k3 λ t3 m3.
          u8_then _ _ b3 m3 λ v4 r4 l4 e4 b4 k4. pass_then _ _ _ _ k4 λ t4 m4.
            bytes_then _ _ _ b4 m4 λ v5 r5 l5 c5 e5 b5 k5. u64_then _ _ b5 k5 λ v6 r6 l6 e6 b6 k6.
              end_then _ _ k6
                λ e7 k7. lift_then _ _ _ k7 λ w8 k8. let y = done_then _ _ k8 in ground (arith, y)

-- For an admission whose fields fit their types, encoding gives a byte string exactly when decoding
-- that byte string gives the admission.
pub channel_admission_codec :
    (a : ChannelAdmission) (bs : List ℕ)
    → AdmissionFits a
    → IsBytes bs
    → (encode_channel_admission a ≡ ok bs) ↔ (decode_channel_admission bs ≡ ok a)
unfolding encode_channel_admission decode_channel_admission put_u8 put_u64
channel_admission_codec a bs f hb =
    codec_iff (check_admission a) (λ b. length b != 32) invalid_argument (channel_admission_bytes a)
      (λ _. read_channel_admission) a bs
      (λ _. ground (arith, length-append a.session_id (put_u64 a.generation ++ []), f.session_id))
      (λ v. ([], channel_admission_read a f v))
      (λ rest _ q. channel_admission_written a bs rest hb q)

-- An admission is accepted by the client only where it answers the hello that the client sent on the
-- visual channel, grants both channels, and grants input if the client asked for it.
pub validate_channel_admission_lem :
    (a : ChannelAdmission) (issued : ChannelHello) (request_input : Bool)
    → validate_channel_admission a issued request_input ≡ ok tt
    → (issued.channel ≡ visual)
      × (a.session_id ≡ issued.session_id)
      × (a.generation ≡ issued.generation)
      × (0 < a.generation)
      × (a.grants.visual ≡ true)
      × (a.grants.control ≡ true)
      × (request_input ≡ true → a.grants.desktop_input ≡ true)
unfolding validate_channel_admission validate_hello
validate_channel_admission_lem a issued request_input e =
    ground (arith, bytes_eq_sound a.session_id issued.session_id)
