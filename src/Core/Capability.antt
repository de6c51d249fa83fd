-- ===== src/Core/Capability.antt =====
-- enum class Capability of core/include/rwn/core/authorization.hpp.
use lan_pilot.Common.{ℕ}

abbrev pub desktop_view : ℕ
desktop_view = 0

abbrev pub desktop_control : ℕ
desktop_control = 1

abbrev pub clipboard_read : ℕ
clipboard_read = 2

abbrev pub clipboard_write : ℕ
clipboard_write = 3

abbrev pub workspace_read : ℕ
workspace_read = 4

abbrev pub workspace_write : ℕ
workspace_write = 5

abbrev pub workspace_sync : ℕ
workspace_sync = 6

abbrev pub terminal_open : ℕ
terminal_open = 7

abbrev pub command_exec : ℕ
command_exec = 8

abbrev pub build_submit : ℕ
build_submit = 9

abbrev pub test_run : ℕ
test_run = 10

abbrev pub artifact_read : ℕ
artifact_read = 11

abbrev pub artifact_download : ℕ
artifact_download = 12

abbrev pub deploy_execute : ℕ
deploy_execute = 13

abbrev pub agent_run : ℕ
agent_run = 14

abbrev pub git_status : ℕ
git_status = 15

abbrev pub git_diff : ℕ
git_diff = 16

abbrev pub system_admin : ℕ
system_admin = 17
