-- ===== src/Desktop/Input/Order.antt =====
-- Authorization, order and epochs of the events that a receiver applies.
use lan_pilot.Common.{
  ℕ, ok, err, true, false, some, [], ◌∷◌, if◌then◌else◌, Bool, List, ◌≢◌, ◌≡◌, Bool-cases, arith,
  Result, Option, ◌&&◌, ◌+◌, ◌!=◌, inl, inr, ◌<◌, none, ap,
}
use lan_pilot.Core.Capability
use lan_pilot.Desktop.InputKind
use lan_pilot.Core.Authorization.{AuthorizationResult, permits}
use lan_pilot.Desktop.Input.{InputReceiver, receive_input, accept_input_epoch, new_receiver}
use lan_pilot.Desktop.InputEvents.{InputEvent, validate_input_event}
use lan_pilot.Desktop.Input.Held.{
  InputCall, input_run, key_down, button_down, accept_input_epoch-cases, release_all_input-up,
}

-- An event that is not applied changes nothing; one that is applied was authorized and valid.
pub receive_input_lem :
    (s : InputReceiver) (e : InputEvent) (reliable : Bool) (authorization : AuthorizationResult)
    → let (t, r) = receive_input s e reliable authorization in
      (r ≢ ok true → t ≡ s)
      × (r ≡ ok true
          → (permits authorization Capability.desktop_control ≡ true)
            × (validate_input_event e ≡ ok tt)
            × (e.kind ≢ InputKind.pointer_move → reliable ≡ true))
unfolding receive_input
receive_input_lem s e reliable authorization = ground arith

abbrev pub is_applied : Result Bool → Bool
is_applied (ok b) = b
is_applied (err x) = false

-- The sequence numbers of the events applied in order, pointer moves apart, of those received.
abbrev pub applied : InputReceiver → List (InputEvent × (Bool × AuthorizationResult)) → List ℕ
applied s [] = []
applied s ((e, (reliable, authorization)) ∷ es) =
    let (t, r) = receive_input s e reliable authorization in
    let rest = applied t es in
    if is_applied r && e.kind != InputKind.pointer_move then e.sequence ∷ rest else rest

abbrev pub Follows : Option ℕ → ℕ → Type 0
Follows last x = (l : ℕ) → last ≡ some l → x ≡ l + 1

abbrev pub Consecutive : Option ℕ → List ℕ → Type 0
Consecutive last [] = Unit {0}
Consecutive last (x ∷ xs) = Follows last x × Consecutive (some x) xs

receive_input-Follows :
    (s : InputReceiver) (e : InputEvent) (reliable : Bool) (authorization : AuthorizationResult)
    → let (t, r) = receive_input s e reliable authorization in
      let in_order = is_applied r && e.kind != InputKind.pointer_move in
      (in_order ≡ true
        → Follows s.last_reliable_sequence e.sequence
          × (t.last_reliable_sequence ≡ some e.sequence))
      × (in_order ≡ false → t.last_reliable_sequence ≡ s.last_reliable_sequence)
unfolding receive_input
receive_input-Follows s e reliable authorization = ground arith

-- Whatever events are received, those that are applied in order have consecutive sequence numbers,
-- from the last one applied before: none is lost and none is applied twice.
pub applied-Consecutive :
    (s : InputReceiver) (es : List (InputEvent × (Bool × AuthorizationResult)))
    → Consecutive s.last_reliable_sequence (applied s es)
applied-Consecutive s [] = tt
applied-Consecutive s ((e, (reliable, authorization)) ∷ es) =
    let (t, r) = receive_input s e reliable authorization in
    let (on, off) = receive_input-Follows s e reliable authorization in
    elim (Bool-cases (is_applied r && e.kind != InputKind.pointer_move)) [
      | inl yes_applied ↦
          rw yes_applied (let (f, l) = on yes_applied in (f, rw l at (applied-Consecutive t es)))
      | inr skipped ↦ rw skipped (rw (off skipped) at (applied-Consecutive t es))
    ]

-- A later epoch is entered only with a release of all input: then nothing is held, by what the
-- backend was last told, and the order of events starts anew.
pub accept_input_epoch_lem :
    (cs : List InputCall) (epoch : ℕ) (release_all : Bool)
    → let s = input_run new_receiver cs in
      let (t, r) = accept_input_epoch s epoch release_all in
      r ≡ ok true
      → s.input_epoch < epoch
      → (release_all ≡ true)
        × (t.input_epoch ≡ epoch)
        × (t.last_reliable_sequence ≡ none)
        × (t.last_pointer_sequence ≡ none)
        × ((u : ℕ) → (key_down t.backend u ≡ false) × (button_down t.backend u ≡ false))
unfolding accept_input_epoch
accept_input_epoch_lem cs epoch release_all e later =
    let s = input_run new_receiver cs in
    let moves : (release_all ≡ true) × (epoch ≢ 0) = ground arith in
    elim (accept_input_epoch-cases s epoch release_all) [
      | inl same ↦ absurd (ground arith)
      | inr (more, new) ↦ (
        moves.0,
        ap (λ t. t.input_epoch) new,
        ap (λ t. t.last_reliable_sequence) new,
        ap (λ t. t.last_pointer_sequence) new,
        λ u. rw new (release_all_input-up cs u),
      )
    ]
