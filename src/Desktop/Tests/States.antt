-- ===== src/Desktop/Tests/States.antt =====
-- Runs of the framebuffer and the input receiver.
use lan_pilot.Common.{
  ℕ, true, false, none, some, ok, [], ◌∷◌, refl, List, ◌≡◌, ◌<◌, Bool, arith, ◌≢◌, assign,
}
use lan_pilot.Core.Capability
use lan_pilot.Core.Authorization.{AuthorizationResult, permits}
use lan_pilot.Desktop.InputKind
use lan_pilot.Desktop.Framebuffer.{
  enters, commits_snapshot, begins_rect, commits_rect, presents, takes_ack, exact, snapshot, rect,
  initial, commit_rect, CanonicalFramebufferState, take_commit_ack, begin_rect, run, Call,
}
use lan_pilot.Desktop.Input.{
  accept_input_epoch, release_all_input, receive_input, new_receiver, release_stuck_keys,
  stale_keys, release_each, InputReceiver,
}
use lan_pilot.Desktop.InputEvents.{InputEvent, validate_input_event}
use lan_pilot.Desktop.Input.Held.{
  receives, releases_stuck_keys, Mirrors, input_run, InputCall, input_run-held, key_down,
  button_down, release_all_input-up,
}
use lan_pilot.Desktop.Framebuffer.History.{rect_transaction}
use lan_pilot.Desktop.Framebuffer.Invariant.{Inv, run-Inv, initial-Inv}
use lan_pilot.Desktop.Input.Order.{
  Consecutive, applied, applied-Consecutive, accept_input_epoch_lem, receive_input_lem,
}
use lan_pilot.Desktop.Updates.{FrameCommitAck}

abbrev calls : List Call
calls =
    enters snapshot 1
    ∷ commits_snapshot 1 10
    ∷ presents 10
    ∷ enters rect 2
    ∷ begins_rect 2 10 11
    ∷ commits_rect 2 10 11
    ∷ takes_ack 7 []
    ∷ []

run-Inv_example : Inv (run initial calls)
run-Inv_example = run-Inv initial calls initial-Inv

-- In a rectangle epoch over an exact frame.
abbrev ready : CanonicalFramebufferState
ready = record initial {
  representation = rect;
  quality = exact;
  representation_epoch = 2;
  committed_frame_id = 10;
}

ready_begins : (begin_rect ready 2 10 11).1 ≡ true
unfolding begin_rect
ready_begins = refl

rect_transaction_example :
    let begun = (begin_rect ready 2 10 11).0 in
    let committed = commit_rect begun 2 10 11 in
    let acknowledged = take_commit_ack committed.0 7 [] in
    (committed.1 ≡ true)
    × (committed.0.committed_frame_id ≡ 11)
    × (acknowledged.1
        ≡ some (record {
          session_generation = 7;
          representation_epoch = 2;
          frame_id = 11;
          canonical_sha256 = [];
        }))
    × ((take_commit_ack acknowledged.0 7 []).1 ≡ none)
rect_transaction_example = rect_transaction ready 2 10 11 7 [] ready_begins (omega arith)

abbrev begun_state : CanonicalFramebufferState
begun_state = record ready { pending_rect_base = 10; pending_rect_target = 11 }

begun_state-Inv : Inv begun_state
begun_state-Inv = ground arith

begun_commits : (commit_rect begun_state 2 10 11).1 ≡ true
unfolding commit_rect
begun_commits = refl

abbrev committed_state : CanonicalFramebufferState
committed_state = record ready { ack_frame_id = some 10 }

committed_state-Inv : Inv committed_state
committed_state-Inv = ground arith

abbrev ack : FrameCommitAck
ack = record {
  session_generation = 7;
  representation_epoch = 2;
  frame_id = 10;
  canonical_sha256 = 3 ∷ [];
}

committed_acks : (take_commit_ack committed_state 7 (3 ∷ [])).1 ≡ some ack
unfolding take_commit_ack
committed_acks = refl

abbrev controller : AuthorizationResult
controller = record {
  principal_matched = true;
  workspace_allowed = true;
  granted = Capability.desktop_control ∷ [];
  denied = [];
}

abbrev press : ℕ → ℕ → InputEvent
press n key = record {
  kind = InputKind.raw_key;
  sequence = n;
  occurred_at_us = 100;
  value_a = key;
  value_b = 0;
  pressed = true;
  text = [];
}

abbrev input_calls : List InputCall
input_calls =
    receives (press 1 4) true controller
    ∷ receives (press 2 5) true controller
    ∷ releases_stuck_keys 5000 1
    ∷ receives (press 3 6) true controller
    ∷ []

input_run-held_example : Mirrors (input_run new_receiver input_calls)
input_run-held_example = input_run-held input_calls

release_all_input-up_example :
    let s = (release_all_input (input_run new_receiver input_calls)).0 in
    (key_down s.backend 6 ≡ false) × (button_down s.backend 6 ≡ false)
release_all_input-up_example = release_all_input-up input_calls 6

-- The second is repeated, and the fourth leaves a gap.
abbrev events : List (InputEvent × (Bool × AuthorizationResult))
events =
    (press 1 4, (true, controller))
    ∷ (press 2 5, (true, controller))
    ∷ (press 2 5, (true, controller))
    ∷ (press 4 6, (true, controller))
    ∷ (press 3 6, (true, controller))
    ∷ []

applied-Consecutive_example : Consecutive none (applied new_receiver events)
applied-Consecutive_example = applied-Consecutive new_receiver events

epoch_accepted : (accept_input_epoch (input_run new_receiver input_calls) 2 true).1 ≡ ok true
unfolding accept_input_epoch input_run receive_input validate_input_event permits release_stuck_keys
    stale_keys release_each assign
epoch_accepted = refl

epoch_later : (input_run new_receiver input_calls).input_epoch < 2
unfolding accept_input_epoch input_run receive_input validate_input_event permits release_stuck_keys
    stale_keys release_each assign
epoch_later = omega arith

accept_input_epoch_lem_example :
    let t = (accept_input_epoch (input_run new_receiver input_calls) 2 true).0 in
    (true ≡ true)
    × (t.input_epoch ≡ 2)
    × (t.last_reliable_sequence ≡ none)
    × (t.last_pointer_sequence ≡ none)
    × ((u : ℕ) → (key_down t.backend u ≡ false) × (button_down t.backend u ≡ false))
accept_input_epoch_lem_example =
    accept_input_epoch_lem input_calls 2 true epoch_accepted epoch_later

receive_input_lem_example :
    let (t, r) = receive_input new_receiver (press 1 4) true controller in
    (r ≢ ok true → t ≡ new_receiver)
    × (r ≡ ok true
        → (permits controller Capability.desktop_control ≡ true)
          × (validate_input_event (press 1 4) ≡ ok tt)
          × ((press 1 4).kind ≢ InputKind.pointer_move → true ≡ true))
receive_input_lem_example = receive_input_lem new_receiver (press 1 4) true controller

-- Key 4 was pressed at 100, key 5 at 4500.
abbrev holding : InputReceiver
holding = record new_receiver { pressed_keys = (4, 100) ∷ (5, 4500) ∷ [] }
