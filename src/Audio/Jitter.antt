-- ===== src/Audio/Jitter.antt =====
-- AudioJitterBuffer of audio/src/audio.cpp. The depth of its telemetry is read from the map.
pub mod Invariant
pub mod Playout
pub mod Delivery
use lan_pilot.Common.{
  ℕ, zero, suc, ok, err, true, false, none, some, [], ◌∷◌, if◌then◌else◌, Result, Option, ◌+◌, Bool,
  List, length, ◌%◌, throw_if, find_key, ltb, ◌==◌, leb, first_key, remove_key, ◌^◌, ◌⨾◌, ◌||◌, not,
  put_key, ◌&&◌, invalid_argument,
}
use lan_pilot.Audio.Packet.{AudioPacket, validate_packet}

pub record JitterTelemetry : Type 0 where
  pub accepted : ℕ
  pub duplicates : ℕ
  pub late : ℕ
  pub overflow : ℕ
  pub plc_frames : ℕ
  pub depth : ℕ

pub record PlayoutPacket : Type 0 where
  pub sequence : ℕ
  pub packet_loss_concealment : Bool
  pub packet : Option AudioPacket

pub record AudioJitterBuffer : Type 0 where
  pub target_packets : ℕ
  pub maximum_packets : ℕ
  pub packets : List (ℕ × AudioPacket)
  pub expected_sequence : Option ℕ
  pub counts : JitterTelemetry

-- `++counter` on a std::uint64_t.
abbrev pub next64 : ℕ → ℕ
next64 n = (n + 1) % 2 ^ 64

abbrev pub no_telemetry : JitterTelemetry
no_telemetry = record {
  accepted = 0;
  duplicates = 0;
  late = 0;
  overflow = 0;
  plc_frames = 0;
  depth = 0;
}

unfoldable pub new_buffer : ℕ → ℕ → Result AudioJitterBuffer
new_buffer target_packets maximum_packets =
    throw_if (target_packets == 0 || ltb maximum_packets target_packets || ltb 50 maximum_packets)
      invalid_argument
    ⨾ ok (record {
      target_packets = target_packets;
      maximum_packets = maximum_packets;
      packets = [];
      expected_sequence = none;
      counts = no_telemetry;
    })

abbrev pub is_late : Option ℕ → ℕ → Bool
is_late none sequence = false
is_late (some expected) sequence = ltb sequence expected

abbrev pub is_some {ℓ} : {A : Type ℓ} → Option A → Bool
is_some none = false
is_some (some a) = true

unfoldable pub push_valid : AudioPacket → AudioJitterBuffer → AudioJitterBuffer × Bool
push_valid p b =
    let t = b.counts in
    if is_late b.expected_sequence p.sequence
    then (record b { counts = record t { late = next64 t.late } }, false)
    else if is_some (find_key p.sequence b.packets)
    then (record b { counts = record t { duplicates = next64 t.duplicates } }, false)
    else if leb b.maximum_packets (length b.packets)
    then (record b { counts = record t { overflow = next64 t.overflow } }, false)
    else let packets = put_key p.sequence p b.packets in
      (
        record b {
          packets = packets;
          counts = record t { accepted = next64 t.accepted; depth = length packets };
        },
        true,
      )

unfoldable pub push : AudioPacket → AudioJitterBuffer → Result (AudioJitterBuffer × Bool)
unfolding push_valid
push p b = validate_packet p ⨾ ok (push_valid p b)

-- `pop` once the sequence number to be played is known.
unfoldable pub pop_at : Bool → AudioJitterBuffer → ℕ → AudioJitterBuffer × Option PlayoutPacket
pop_at deadline_expired b expected =
    let t = b.counts in
    elim (find_key expected b.packets) [
      | some p ↦
          let packets = remove_key expected b.packets in
          (
            record b {
              packets = packets;
              expected_sequence = some (next64 expected);
              counts = record t { depth = length packets };
            },
            some (record { sequence = expected; packet_loss_concealment = false; packet = some p }),
          )
      | none ↦
          if not deadline_expired && (length b.packets == 0 || leb (first_key b.packets) expected)
          then (b, none)
          else (
            record b {
              expected_sequence = some (next64 expected);
              counts = record t { plc_frames = next64 t.plc_frames; depth = length b.packets };
            },
            some (record { sequence = expected; packet_loss_concealment = true; packet = none }),
          )
    ]

unfoldable pub pop : Bool → AudioJitterBuffer → AudioJitterBuffer × Option PlayoutPacket
unfolding pop_at
pop deadline_expired b = elim b.expected_sequence [
  | some expected ↦ pop_at deadline_expired b expected
  | none ↦
      if ltb (length b.packets) b.target_packets
      then (b, none)
      else let first = first_key b.packets in
        pop_at deadline_expired (record b { expected_sequence = some first }) first
]

unfoldable pub telemetry : AudioJitterBuffer → JitterTelemetry
telemetry b = record b.counts { depth = length b.packets }

unfoldable pub reset : AudioJitterBuffer → AudioJitterBuffer
reset b = record b {
  packets = [];
  expected_sequence = none;
  counts = record b.counts { depth = 0 };
}
