-- ===== src/Desktop/VisualMessageType.antt =====
-- enum class VisualMessageType of desktop/include/rwn/desktop/desktop.hpp.
use lan_pilot.Common.{ℕ}

abbrev pub h264_access_unit : ℕ
h264_access_unit = 1

abbrev pub full_snapshot : ℕ
full_snapshot = 2

abbrev pub raw_rect : ℕ
raw_rect = 3

abbrev pub lz4_rect : ℕ
lz4_rect = 4

abbrev pub copy_rect : ℕ
copy_rect = 5

abbrev pub cursor_position : ℕ
cursor_position = 6

abbrev pub cursor_shape : ℕ
cursor_shape = 7

abbrev pub frame_commit : ℕ
frame_commit = 8

abbrev pub state_reset : ℕ
state_reset = 9
