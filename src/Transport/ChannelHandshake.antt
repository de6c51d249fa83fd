-- ===== src/Transport/ChannelHandshake.antt =====
-- The hello and admission messages of transport/src/channel_session.cpp, and the peer evidence of
-- transport/src/certificate_identity.cpp. `TcpChannel` is an enum class over std::uint8_t, a number
-- here: 1 is the visual channel, 2 the control channel. An std::array of bytes is a list of them.
pub mod Codec
use lan_pilot.Common.{
  ℕ, zero, suc, ok, err, true, false, none, some, [], ◌∷◌, if◌then◌else◌, Bool, Result, List, ◌⨾◌,
  ◌++◌, ◌!=◌, throw_if, discard, not, ◌||◌, ltb, length, invalid_argument, ◌==◌, bytes_eq, ◌&&◌,
}
use lan_pilot.Desktop.Wire.{
  ◌>>=◌, ◌>>◌, Reader, put_u64, require_magic, u8, refuse_if, put_u8, bytes, parse, u64, end, lift,
  done,
}

abbrev pub visual : ℕ
visual = 1

abbrev pub control : ℕ
control = 2

abbrev pub nonzero : List ℕ → Bool
nonzero [] = false
nonzero (b ∷ bs) = b != 0 || nonzero bs

-- `index`, which throws on an unknown channel; the slot is the channel less one.
abbrev pub check_channel : ℕ → Result (Unit {0})
check_channel channel = throw_if (ltb channel 1 || ltb 2 channel) invalid_argument

pub record ChannelHello : Type 0 where
  pub channel : ℕ
  pub session_id : List ℕ
  pub generation : ℕ

unfoldable pub validate_hello : ChannelHello → Result (Unit {0})
validate_hello h =
    check_channel h.channel
    ⨾ throw_if (not (nonzero h.session_id) || h.generation == 0) invalid_argument

abbrev hello_magic : List ℕ
hello_magic = b'L' ∷ b'P' ∷ b'T' ∷ b'1' ∷ []

abbrev pub channel_hello_bytes : ChannelHello → List ℕ
channel_hello_bytes h =
    hello_magic
    ++ (put_u8 1
        ++ (put_u8 h.channel
            ++ (put_u8 0 ++ (put_u8 0 ++ (h.session_id ++ (put_u64 h.generation ++ []))))))

unfoldable pub encode_channel_hello : ChannelHello → Result (List ℕ)
encode_channel_hello h = validate_hello h ⨾ ok (channel_hello_bytes h)

-- The bytes are read by their offsets, which are in this order.
read_channel_hello : Reader ChannelHello
read_channel_hello = do
  require_magic hello_magic
  version ← u8
  refuse_if (version != 1) invalid_argument
  channel ← u8
  sixth ← u8
  refuse_if (sixth != 0) invalid_argument
  seventh ← u8
  refuse_if (seventh != 0) invalid_argument
  session_id ← bytes 16
  generation ← u64
  end
  let hello : ChannelHello = record {
    channel = channel;
    session_id = session_id;
    generation = generation;
  }
  lift (validate_hello hello)
  done hello

unfoldable pub decode_channel_hello : List ℕ → Result ChannelHello
unfolding read_channel_hello
decode_channel_hello bs = throw_if (length bs != 32) invalid_argument ⨾ parse read_channel_hello bs

pub record ChannelGrants : Type 0 where
  pub visual : Bool
  pub control : Bool
  pub desktop_input : Bool

pub record ChannelAdmission : Type 0 where
  pub session_id : List ℕ
  pub generation : ℕ
  pub grants : ChannelGrants

abbrev pub check_admission : ChannelAdmission → Result (Unit {0})
check_admission a =
    validate_hello
      (record { channel = visual; session_id = a.session_id; generation = a.generation })
    ⨾ throw_if (not a.grants.visual || not a.grants.control) invalid_argument

abbrev admission_magic : List ℕ
admission_magic = b'L' ∷ b'P' ∷ b'A' ∷ b'1' ∷ []

abbrev grant_bits : Bool → ℕ
grant_bits true = 7
grant_bits false = 3

abbrev pub channel_admission_bytes : ChannelAdmission → List ℕ
channel_admission_bytes a =
    admission_magic
    ++ (put_u8 1
        ++ (put_u8 (grant_bits a.grants.desktop_input)
            ++ (put_u8 0 ++ (put_u8 0 ++ (a.session_id ++ (put_u64 a.generation ++ []))))))

unfoldable pub encode_channel_admission : ChannelAdmission → Result (List ℕ)
encode_channel_admission a = check_admission a ⨾ ok (channel_admission_bytes a)

read_channel_admission : Reader ChannelAdmission
read_channel_admission = do
  require_magic admission_magic
  version ← u8
  refuse_if (version != 1) invalid_argument
  bits ← u8
  refuse_if (bits != 3 && bits != 7) invalid_argument
  sixth ← u8
  refuse_if (sixth != 0) invalid_argument
  seventh ← u8
  refuse_if (seventh != 0) invalid_argument
  session_id ← bytes 16
  generation ← u64
  end
  let admission : ChannelAdmission = record {
    session_id = session_id;
    generation = generation;
    grants = record { visual = true; control = true; desktop_input = bits == 7 };
  }
  lift (
      validate_hello
        (record { channel = visual; session_id = session_id; generation = generation }))
  done admission

unfoldable pub decode_channel_admission : List ℕ → Result ChannelAdmission
unfolding read_channel_admission
decode_channel_admission bs =
    throw_if (length bs != 32) invalid_argument ⨾ parse read_channel_admission bs

unfoldable pub validate_channel_admission :
    ChannelAdmission → ChannelHello → Bool → Result (Unit {0})
unfolding encode_channel_admission
validate_channel_admission a issued request_input =
    discard (encode_channel_admission a)
    ⨾ validate_hello issued
    ⨾ throw_if
        (issued.channel != visual
          || not (bytes_eq a.session_id issued.session_id)
          || a.generation != issued.generation)
        invalid_argument
    ⨾ throw_if (request_input && not a.grants.desktop_input) invalid_argument

pub record AuthenticatedPeerEvidence : Type 0 where
  pub certificate_sha256 : List ℕ
  pub tls_1_3_negotiated : Bool
  pub certificate_chain_valid : Bool
  pub revocation_checked : Bool

unfoldable pub validate_authenticated_peer_evidence : AuthenticatedPeerEvidence → Result (Unit {0})
validate_authenticated_peer_evidence p =
    throw_if
      (not (nonzero p.certificate_sha256)
        || not p.tls_1_3_negotiated
        || not p.certificate_chain_valid
        || not p.revocation_checked)
      invalid_argument

unfoldable pub single_allowed_peer_evidence : List (List ℕ) → Result AuthenticatedPeerEvidence
single_allowed_peer_evidence (only ∷ []) =
    throw_if (not (nonzero only)) invalid_argument
    ⨾ ok (record {
      certificate_sha256 = only;
      tls_1_3_negotiated = true;
      certificate_chain_valid = true;
      revocation_checked = true;
    })
single_allowed_peer_evidence _ = err invalid_argument
