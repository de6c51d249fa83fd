-- ===== src/Audio/Jitter/Delivery.antt =====
-- When AudioJitterBuffer of audio/src/audio.cpp plays a packet, and what reset leaves.
use lan_pilot.Common.{
  ℕ, suc, ok, true, false, some, [], ◌∷◌, refl, List, Bool, ◌≡◌, From, arith, Result-cases, ◌<◌,
  find_key, length, ◌^◌, ◌≤◌, ◌+◌, inr, inl, subst, first_key, Option, sym, ap, ◌∙◌, first_key-le,
  find-put_key, ==_iff, find-remove_key,
}
use lan_pilot.Audio.Jitter.{
  pop, push, reset, AudioJitterBuffer, pop_at, new_buffer, push_valid, next64,
}
use lan_pilot.Audio.Jitter.Invariant.{
  JitterInv, plays, conceals, waits, entered, left, push_valid-settings, Ahead, push_valid-Pushing,
  pop_at-Popping, From-next,
}
use lan_pilot.Audio.Jitter.Playout.{
  push_call, pop_call, PlayCall, AllPushed, play_step, push_step-JitterInv, pop-JitterInv, play_run,
  new_buffer-JitterInv, push_step-expected,
}
use lan_pilot.Audio.Packet.{AudioPacket, validate_packet}

-- The packet waits, to be played when its number comes.
abbrev Waits : AudioJitterBuffer → ℕ → ℕ → AudioPacket → Type 0
Waits b n k p = (b.expected_sequence ≡ some n) × (find_key k b.packets ≡ some p)

push_step-Waits :
    (q : AudioPacket) (b : AudioJitterBuffer) (n k : ℕ) (p : AudioPacket)
    → Waits b n k p
    → Waits (play_step b (push_call q)) n k p
unfolding push
push_step-Waits q b n k p (e, f) = elim (Result-cases (validate_packet q)) [
  | inr (x, v) ↦ rw v (e, f)
  | inl v ↦
      let s = push_valid-settings q b in
      rw v (
        s.0 ∙ e,
        elim (push_valid-Pushing q b) [
          | left r h ↦ rw h f
          | entered r g l o h ↦ ground (
            arith,
            f,
            g,
            ap (find_key k) h,
            find-put_key q.sequence k q b.packets,
            ap (λ (j : ℕ). find_key j b.packets),
            ==_iff k q.sequence,
          )
        ],
      )
]

From-first : (j : ℕ) (m : List (ℕ × AudioPacket)) → From j m → 0 < length m → j ≤ first_key m
From-first j [] f h = absurd (omega arith)
From-first j ((k, p) ∷ m) f h = f.0

-- A pop before the packet's number plays something and leaves the packet waiting.
pop-Waits :
    (Q : AudioPacket → Type 0) (d : Bool) (b : AudioJitterBuffer) (n k : ℕ) (p : AudioPacket)
    → JitterInv Q b
    → n < k
    → k < 2 ^ 64
    → Waits b n k p
    → Waits (pop d b).0 (n + 1) k p
unfolding pop
pop-Waits Q d b n k p i l t (e, f) =
    let g : From n b.packets = subst (λ (x : Option ℕ). Ahead x b.packets) e i.ahead in
    let (first, some_there) = first_key-le k b.packets p i.ascending f in
    let s : next64 n ≡ n + 1 = omega arith in
    elim (pop_at-Popping d b n) [
      | plays q h o x y ↦ (
        ground (arith, e, x, s),
        ground (arith, e, ap (find_key k) y, find-remove_key n k b.packets i.ascending, f),
      )
      | conceals h o x y ↦ (ground (arith, e, x, s), ground (arith, e, ap (find_key k) y, f))
      | waits h w o y ↦
          let z = From-first (suc n) b.packets (From-next n b.packets g h) some_there in
          absurd (ground (arith, w, z, some_there))
    ]

abbrev pub pops : List PlayCall → ℕ
pops [] = 0
pops (push_call p ∷ cs) = pops cs
pops (pop_call d ∷ cs) = suc (pops cs)

waiting_played :
    (Q : AudioPacket → Type 0) (cs : List PlayCall) (b : AudioJitterBuffer) (n k : ℕ)
    (p : AudioPacket)
    → JitterInv Q b
    → AllPushed Q cs
    → k < 2 ^ 64
    → n + pops cs ≡ k
    → Waits b n k p
    → (d : Bool)
    → (pop d (play_run cs b)).1
      ≡ some (record { sequence = k; packet_loss_concealment = false; packet = some p })
unfolding pop pop_at
waiting_played Q [] b n k p i a t c (e, f) d =
    let q : n ≡ k = omega arith in
    let f' : find_key n b.packets ≡ some p =
      subst (λ (j : ℕ). find_key j b.packets ≡ some p) (sym q) f in
    ground (arith, e, f', q)
waiting_played Q (push_call x ∷ cs) b n k p i a t c w d =
    waiting_played Q cs (play_step b (push_call x)) n k p (push_step-JitterInv Q x b a.0 i) a.1 t c
      (push_step-Waits x b n k p w) d
waiting_played Q (pop_call x ∷ cs) b n k p i a t c w d =
    waiting_played Q cs (pop x b).0 (n + 1) k p (pop-JitterInv Q x b i) a t (omega arith)
      (pop-Waits Q x b n k p i (omega arith) t w) d

abbrev Anything : AudioPacket → Type 0
Anything p = Unit {0}

-- A call, or a reset.
pub data JitterCall : Type 0 where
  play : PlayCall → JitterCall
  reset_call : JitterCall

abbrev pub jitter_step : AudioJitterBuffer → JitterCall → AudioJitterBuffer
jitter_step b (play c) = play_step b c
jitter_step b reset_call = reset b

abbrev pub jitter_run : List JitterCall → AudioJitterBuffer → AudioJitterBuffer
jitter_run [] b = b
jitter_run (c ∷ cs) b = jitter_run cs (jitter_step b c)

play_step-JitterInv :
    (b : AudioJitterBuffer) (c : PlayCall)
    → JitterInv Anything b
    → JitterInv Anything (play_step b c)
play_step-JitterInv b (push_call p) i = push_step-JitterInv Anything p b tt i
play_step-JitterInv b (pop_call d) i = pop-JitterInv Anything d b i

jitter_step-JitterInv :
    (b : AudioJitterBuffer) (c : JitterCall)
    → JitterInv Anything b
    → JitterInv Anything (jitter_step b c)
unfolding reset
jitter_step-JitterInv b (play c) i = play_step-JitterInv b c i
jitter_step-JitterInv b reset_call i = record {
  ascending = tt;
  bounded = omega arith;
  stored = tt;
  ahead = tt;
  targeted = i.targeted;
}

run-JitterInv :
    (cs : List JitterCall) (b : AudioJitterBuffer)
    → JitterInv Anything b
    → JitterInv Anything (jitter_run cs b)
run-JitterInv [] b i = i
run-JitterInv (c ∷ cs) b i = run-JitterInv cs (jitter_step b c) (jitter_step-JitterInv b c i)

all_pushed : (cs : List PlayCall) → AllPushed Anything cs
all_pushed [] = tt
all_pushed (push_call p ∷ cs) = (tt, all_pushed cs)
all_pushed (pop_call d ∷ cs) = all_pushed cs

push-found :
    (p : AudioPacket) (b : AudioJitterBuffer) {next : AudioJitterBuffer}
    → push p b ≡ ok (next, true)
    → find_key p.sequence next.packets ≡ some p
unfolding push
push-found p b {next} h = elim (Result-cases (validate_packet p)) [
  | inr (x, v) ↦ absurd (ground (arith, v, h))
  | inl v ↦
      let a : (push_valid p b).0 ≡ next = ground (arith, v, h) in
      elim (push_valid-Pushing p b) [
        | left r g ↦ absurd (ground (arith, v, h, r))
        | entered r f l o g ↦ ground (
          arith,
          ap (λ (x : AudioJitterBuffer). find_key p.sequence x.packets) a,
          ap (find_key p.sequence) g,
          find-put_key p.sequence p.sequence p b.packets,
        )
      ]
]

-- In a buffer that has had any calls since it was new, resets among them, and that is to play number
-- `n` next, a packet that a push then accepts is played when its turn comes: after as many further
-- pops as its number is beyond `n`, with any pushes among them and whatever deadlines they have, the
-- next pop gives that packet.
pub accepted_played :
    (target maximum : ℕ) {b : AudioJitterBuffer}
    → new_buffer target maximum ≡ ok b
    → (before : List JitterCall) (n : ℕ) (p : AudioPacket) {next : AudioJitterBuffer}
    → (jitter_run before b).expected_sequence ≡ some n
    → push p (jitter_run before b) ≡ ok (next, true)
    → p.sequence < 2 ^ 64
    → (after : List PlayCall) → n + pops after ≡ p.sequence
    → (deadline_expired : Bool)
    → (pop deadline_expired (play_run after next)).1
      ≡ some (record { sequence = p.sequence; packet_loss_concealment = false; packet = some p })
accepted_played target maximum {b} h before n p {next} e k t after c deadline_expired =
    let b' = jitter_run before b in
    let i = run-JitterInv before b (new_buffer-JitterInv Anything target maximum h).0 in
    let s : play_step b' (push_call p) ≡ next = rw k refl in
    let j =
      subst (λ (x : AudioJitterBuffer). JitterInv Anything x) s
        (push_step-JitterInv Anything p b' tt i) in
    waiting_played Anything after next n p.sequence p j (all_pushed after) t c
      (
        ap (λ (x : AudioJitterBuffer). x.expected_sequence) (sym s) ∙ (push_step-expected p b' ∙ e),
        push-found p b' k,
      )
      deadline_expired
