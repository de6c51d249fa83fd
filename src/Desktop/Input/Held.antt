-- ===== src/Desktop/Input/Held.antt =====
-- What the receiver takes to be held down, against what the backend was told.
use lan_pilot.Common.{
  ℕ, false, [], ◌∷◌, refl, if◌then◌else◌, List, has_key, Bool, arith, has_key-assign, ◌==◌, ◌≡◌,
  has_key-erase_key, not, contains, contains-insert, ◌&&◌, ◌%◌, ◌^◌, contains-erase, inl, ◌⊎◌, none,
  ◌<◌, inr, sym, ◌*◌, Bool-cases, ◌||◌, ltb,
}
use lan_pilot.Core.Authorization.{AuthorizationResult}
use lan_pilot.Desktop.Input.{
  InputReceiver, BackendCall, calls_raw_key, calls_pointer_button, receive_input,
  release_stuck_keys, release_all_keys, release_all_input, accept_input_epoch, release_each,
  lift_keys, lift_buttons, new_receiver, stale_keys,
}
use lan_pilot.Desktop.InputEvents.{InputEvent}

-- The last thing that the backend was told about a key, or about a button.
abbrev pub key_down : List BackendCall → ℕ → Bool
key_down [] u = false
key_down (calls_raw_key v pressed ∷ earlier) u = if u == v then pressed else key_down earlier u
key_down (_ ∷ earlier) u = key_down earlier u

abbrev pub button_down : List BackendCall → ℕ → Bool
button_down [] u = false
button_down (calls_pointer_button v pressed ∷ earlier) u =
    if u == v then pressed else button_down earlier u
button_down (_ ∷ earlier) u = button_down earlier u

pub record Mirrors (s : InputReceiver) : Type 0 where
  pub keys : (u : ℕ) → has_key s.pressed_keys u ≡ key_down s.backend u
  pub buttons : (u : ℕ) → contains s.pressed_buttons u ≡ button_down s.backend u

-- One call of a member function that may change the state.
pub data InputCall : Type 0 where
  receives : InputEvent → Bool → AuthorizationResult → InputCall
  releases_stuck_keys : ℕ → ℕ → InputCall
  releases_all_keys releases_all_input : InputCall
  accepts_input_epoch : ℕ → Bool → InputCall

unfoldable pub input_step : InputReceiver → InputCall → InputReceiver
unfolding receive_input release_stuck_keys release_all_keys release_all_input accept_input_epoch
input_step s (receives e reliable authorization) = (receive_input s e reliable authorization).0
input_step s (releases_stuck_keys now hold) = (release_stuck_keys s now hold).0
input_step s releases_all_keys = (release_all_keys s).0
input_step s releases_all_input = (release_all_input s).0
input_step s (accepts_input_epoch epoch release_all) = (accept_input_epoch s epoch release_all).0

unfoldable pub input_run : InputReceiver → List InputCall → InputReceiver
unfolding input_step
input_run s [] = s
input_run s (c ∷ cs) = input_run (input_step s c) cs

key_down-lift_keys :
    (keys : List (ℕ × ℕ)) (log : List BackendCall) (u : ℕ)
    → (key_down (lift_keys keys log) u ≡ (not (has_key keys u) && key_down log u))
      × (button_down (lift_keys keys log) u ≡ button_down log u)
unfolding lift_keys
key_down-lift_keys [] log u = (refl, refl)
key_down-lift_keys ((k, t) ∷ keys) log u =
    ground (arith, key_down-lift_keys keys (calls_raw_key k false ∷ log) u)

button_down-lift_buttons :
    (buttons : List ℕ) (log : List BackendCall) (u : ℕ)
    → (button_down (lift_buttons buttons log) u ≡ (not (contains buttons u) && button_down log u))
      × (key_down (lift_buttons buttons log) u ≡ key_down log u)
unfolding lift_buttons
button_down-lift_buttons [] log u = (refl, refl)
button_down-lift_buttons (b ∷ buttons) log u =
    ground (arith, button_down-lift_buttons buttons (calls_pointer_button b false ∷ log) u)

receive_input-Mirrors :
    (s : InputReceiver) (e : InputEvent) (reliable : Bool) (authorization : AuthorizationResult)
    → Mirrors s
    → Mirrors (receive_input s e reliable authorization).0
unfolding receive_input
receive_input-Mirrors s e reliable authorization m = record {
  keys = λ u. ground (
    arith,
    m.keys u,
    has_key-assign e.value_a e.occurred_at_us u s.pressed_keys,
    has_key-erase_key e.value_a u s.pressed_keys,
  );
  buttons = λ u. ground (
    arith,
    m.buttons u,
    contains-insert (e.value_a % 2 ^ 8) u s.pressed_buttons,
    contains-erase (e.value_a % 2 ^ 8) u s.pressed_buttons,
  );
}

release_each-Mirrors :
    (usages : List ℕ) (s : InputReceiver) → Mirrors s → Mirrors (release_each usages s)
unfolding release_each
release_each-Mirrors [] s m = m
release_each-Mirrors (k ∷ rest) s m = release_each-Mirrors rest _ (record {
  keys = λ u. ground (arith, m.keys u, has_key-erase_key k u s.pressed_keys);
  buttons = m.buttons;
})

release_all_keys-Mirrors : (s : InputReceiver) → Mirrors s → Mirrors (release_all_keys s).0
unfolding release_all_keys
release_all_keys-Mirrors s m = record {
  keys = λ u. ground (arith, m.keys u, key_down-lift_keys s.pressed_keys s.backend u);
  buttons = λ u. ground (arith, m.buttons u, key_down-lift_keys s.pressed_keys s.backend u);
}

release_all_input-Mirrors : (s : InputReceiver) → Mirrors s → Mirrors (release_all_input s).0
unfolding release_all_input
release_all_input-Mirrors s m =
    let t = (release_all_keys s).0 in
    let n = release_all_keys-Mirrors s m in
    record {
      keys = λ u. ground (arith, n.keys u, button_down-lift_buttons t.pressed_buttons t.backend u);
      buttons =
          λ u. ground (arith, n.buttons u, button_down-lift_buttons t.pressed_buttons t.backend u);
    }

release_stuck_keys-Mirrors :
    (s : InputReceiver) (now hold : ℕ) → Mirrors s → Mirrors (release_stuck_keys s now hold).0
unfolding release_stuck_keys
release_stuck_keys-Mirrors s now hold m =
    let stale = stale_keys now (hold * 1000) s.pressed_keys in
    elim (Bool-cases (hold == 0)) [
      | inl none_given ↦ rw none_given m
      | inr positive ↦ rw positive (release_each-Mirrors stale s m)
    ]

-- The receiver after a new epoch, which begins with everything released.
abbrev renewed : InputReceiver → ℕ → InputReceiver
renewed s epoch = record (release_all_input s).0 {
  input_epoch = epoch;
  last_reliable_sequence = none;
  last_pointer_sequence = none;
}

pub accept_input_epoch-cases :
    (s : InputReceiver) (epoch : ℕ) (release_all : Bool)
    → ((accept_input_epoch s epoch release_all).0 ≡ s)
      ⊎ ((s.input_epoch < epoch) × ((accept_input_epoch s epoch release_all).0 ≡ renewed s epoch))
unfolding accept_input_epoch
accept_input_epoch-cases s epoch release_all =
    elim (Bool-cases
      (epoch == 0 || ltb epoch s.input_epoch || epoch == s.input_epoch || not release_all)) [
        | inl stays ↦ inl (ground (arith, stays))
        | inr moves ↦ inr (ground (arith, moves), ground (arith, moves))
      ]

accept_input_epoch-Mirrors :
    (s : InputReceiver) (epoch : ℕ) (release_all : Bool)
    → Mirrors s
    → Mirrors (accept_input_epoch s epoch release_all).0
accept_input_epoch-Mirrors s epoch release_all m =
    elim (accept_input_epoch-cases s epoch release_all) [
      | inl same ↦ rw same m
      | inr (later, new) ↦
          let n = release_all_input-Mirrors s m in
          rw new (record { keys = n.keys; buttons = n.buttons })
    ]

pub input_step-Mirrors : (s : InputReceiver) (c : InputCall) → Mirrors s → Mirrors (input_step s c)
unfolding input_step
input_step-Mirrors s (receives e reliable authorization) m =
    receive_input-Mirrors s e reliable authorization m
input_step-Mirrors s (releases_stuck_keys now hold) m = release_stuck_keys-Mirrors s now hold m
input_step-Mirrors s releases_all_keys m = release_all_keys-Mirrors s m
input_step-Mirrors s releases_all_input m = release_all_input-Mirrors s m
input_step-Mirrors s (accepts_input_epoch epoch release_all) m =
    accept_input_epoch-Mirrors s epoch release_all m

input_run-Mirrors : (s : InputReceiver) (cs : List InputCall) → Mirrors s → Mirrors (input_run s cs)
unfolding input_run
input_run-Mirrors s [] m = m
input_run-Mirrors s (c ∷ cs) m = input_run-Mirrors (input_step s c) cs (input_step-Mirrors s c m)

-- After any calls on a new receiver, the keys and the buttons that it takes to be held are exactly
-- those that the backend was last told are down.
pub input_run-held : (cs : List InputCall) → Mirrors (input_run new_receiver cs)
input_run-held cs =
    input_run-Mirrors new_receiver cs (record { keys = λ u. refl; buttons = λ u. refl })

-- After any calls on a new receiver, releasing all input leaves no key and no button that the
-- backend was last told is down.
pub release_all_input-up :
    (cs : List InputCall) (u : ℕ)
    → let s = (release_all_input (input_run new_receiver cs)).0 in
      (key_down s.backend u ≡ false) × (button_down s.backend u ≡ false)
unfolding release_all_input
release_all_input-up cs u =
    let m = release_all_input-Mirrors (input_run new_receiver cs) (input_run-held cs) in
    (sym (m.keys u), sym (m.buttons u))
