-- ===== src/Desktop/ReverseControlType.antt =====
-- enum class ReverseControlType of desktop/include/rwn/desktop/desktop.hpp.
use lan_pilot.Common.{ℕ}

abbrev pub input_event : ℕ
input_event = 1

abbrev pub release_all_input : ℕ
release_all_input = 2

abbrev pub request_full_snapshot : ℕ
request_full_snapshot = 3

abbrev pub frame_commit_ack : ℕ
frame_commit_ack = 4

abbrev pub ping : ℕ
ping = 5
