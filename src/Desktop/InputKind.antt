-- ===== src/Desktop/InputKind.antt =====
-- enum class InputKind of desktop/include/rwn/desktop/desktop.hpp.
use lan_pilot.Common.{ℕ}

abbrev pub raw_key : ℕ
raw_key = 1

abbrev pub text_commit : ℕ
text_commit = 2

abbrev pub pointer_move : ℕ
pointer_move = 3

abbrev pub pointer_button : ℕ
pointer_button = 4

abbrev pub vertical_wheel : ℕ
vertical_wheel = 5

abbrev pub horizontal_wheel : ℕ
horizontal_wheel = 6
