-- ===== src/Transport/Settings.antt =====
-- The endpoint, the settings, the recovery cursor and their validations of
-- transport/src/resilient_transport.cpp. A duration is a number of seconds.
use Prim.Native.String.{String, len}
use text.Mathlib.Text.{◌==◌ as str_eq}
use lan_pilot.Common.{
  ℕ, true, false, [], ◌∷◌, Result, Bool, List, not, leb, ◌&&◌, throw_if, ◌||◌, is_empty, ◌==◌,
  codes, ltb, invalid_argument, ◌*◌, length,
}

pub data TransportMode : Type 0 where
  quic tls_tcp_udp_fallback : TransportMode

pub data NetworkPath : Type 0 where
  lan wifi vpn unknown : NetworkPath

pub data ConnectionState : Type 0 where
  disconnected connecting ready migrating closed : ConnectionState

pub record TransportEndpoint : Type 0 where
  pub host : String
  pub port : ℕ
  pub path : NetworkPath

pub record QuicTransportSettings : Type 0 where
  pub alpn : String
  pub require_tls13 : Bool
  pub enable_datagrams : Bool
  pub enable_connection_migration : Bool
  pub enable_fallback : Bool
  pub maximum_datagram_bytes : ℕ
  pub idle_timeout : ℕ
  pub keep_alive : ℕ
  pub primary_failures_before_fallback : ℕ

-- std::isalnum
abbrev pub is_alnum : ℕ → Bool
is_alnum c = leb 48 c && leb c 57 || leb 65 c && leb c 90 || leb 97 c && leb c 122

abbrev pub all_chars : (ℕ → Bool) → List ℕ → Bool
all_chars p [] = true
all_chars p (c ∷ cs) = p c && all_chars p cs

unfoldable pub valid_identifier : String → Bool
valid_identifier value =
    not (is_empty value)
    && leb (len value) 64
    && all_chars (λ c. is_alnum c || c == 45 || c == 95 || c == 46) (codes value)

unfoldable pub validate_transport_endpoint : TransportEndpoint → Result (Unit {0})
validate_transport_endpoint endpoint =
    throw_if
      (is_empty endpoint.host
        || ltb 255 (len endpoint.host)
        || endpoint.port == 0
        || not (all_chars (λ c. is_alnum c || c == 45 || c == 46 || c == 58) (codes endpoint.host)))
      invalid_argument

unfoldable pub validate_quic_transport_settings : QuicTransportSettings → Result (Unit {0})
validate_quic_transport_settings s =
    throw_if
      (not s.require_tls13
        || is_empty s.alpn
        || ltb 32 (len s.alpn)
        || not (all_chars (λ c. is_alnum c || c == 45 || c == 46 || c == 47) (codes s.alpn))
        || ltb s.maximum_datagram_bytes 1200
        || ltb 65507 s.maximum_datagram_bytes
        || ltb s.idle_timeout 5
        || ltb 300 s.idle_timeout
        || ltb s.keep_alive 1
        || ltb s.idle_timeout (s.keep_alive * 2)
        || s.primary_failures_before_fallback == 0
        || ltb 10 s.primary_failures_before_fallback)
      invalid_argument

pub record RecoveryCursor : Type 0 where
  pub session_id : String
  pub workspace_id : String
  pub workspace_revision : ℕ
  pub active_build_ids : List String
  pub audit_sequence : ℕ

abbrev all_valid : List String → Bool
all_valid [] = true
all_valid (id ∷ ids) = valid_identifier id && all_valid ids

abbrev occurs : String → List String → Bool
occurs id [] = false
occurs id (x ∷ xs) = str_eq id x || occurs id xs

-- The size of the set of the texts is their number.
abbrev all_distinct : List String → Bool
all_distinct [] = true
all_distinct (id ∷ ids) = not (occurs id ids) && all_distinct ids

unfoldable pub validate_recovery : RecoveryCursor → Result (Unit {0})
unfolding valid_identifier
validate_recovery cursor =
    throw_if
      (not (valid_identifier cursor.session_id)
        || not (valid_identifier cursor.workspace_id)
        || cursor.workspace_revision == 0
        || ltb 32 (length cursor.active_build_ids)
        || not (all_valid cursor.active_build_ids)
        || not (all_distinct cursor.active_build_ids))
      invalid_argument
