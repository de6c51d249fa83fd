-- ===== src/Audio/Jitter/Playout.antt =====
-- What AudioJitterBuffer of audio/src/audio.cpp plays.
use lan_pilot.Common.{
  ℕ, suc, ok, err, true, false, none, some, [], ◌∷◌, refl, List, Option, Bool, ◌≡◌, Result-cases,
  Result, Ascending, Option-cases, All, ◌⊎◌, inr, From, ◌∙◌, inl, first_key, ap, length, subst,
  arith, ◌<◌, From-le, Bool-cases, ltb,
}
use lan_pilot.Audio.Jitter.{pop, push, AudioJitterBuffer, PlayoutPacket, next64, pop_at, new_buffer}
use lan_pilot.Audio.Jitter.Invariant.{
  JitterInv, plays, conceals, waits, pop_at-JitterInv, pop_at-Popping, push_valid-JitterInv,
  push_valid-settings, Stored-find, Ahead,
}
use lan_pilot.Audio.Packet.{AudioPacket, validate_packet}

From-first_key : (m : List (ℕ × AudioPacket)) → Ascending m → From (first_key m) m
From-first_key [] a = tt
From-first_key ((k, p) ∷ m) a = (omega arith, From-le k (suc k) m (omega arith) a.0)

-- The buffer that `pop` plays from, where it plays at all.
pub data Starting (d : Bool) (b : AudioJitterBuffer) : Type 0 where
  starts :
      (n : ℕ)
      → (b.expected_sequence ≡ some n) ⊎ (n ≡ first_key b.packets)
      → pop d b ≡ pop_at d (record b { expected_sequence = some n }) n
      → (b.expected_sequence ≡ none) ⊎ (b.expected_sequence ≡ some n)
      → Starting d b
  fills :
      b.expected_sequence ≡ none
      → length b.packets < b.target_packets
      → pop d b ≡ (b, none)
      → Starting d b

pub pop-Starting : (d : Bool) (b : AudioJitterBuffer) → Starting d b
unfolding pop
pop-Starting d b = elim (Option-cases b.expected_sequence) [
  | inr (n, e) ↦ starts n (inl e) (ground (arith, e)) (inr e)
  | inl e ↦ elim (Bool-cases (ltb (length b.packets) b.target_packets)) [
    | inl f ↦ fills e (ground (arith, f)) (ground (arith, e, f))
    | inr f ↦ starts (first_key b.packets) (inr refl) (ground (arith, e, f)) (inl e)
  ]
]

started :
    (Q : AudioPacket → Type 0) (b : AudioJitterBuffer) (n : ℕ)
    → (b.expected_sequence ≡ some n) ⊎ (n ≡ first_key b.packets)
    → JitterInv Q b
    → JitterInv Q (record b { expected_sequence = some n })
started Q b n h i = record {
  ascending = i.ascending;
  bounded = i.bounded;
  stored = i.stored;
  ahead = elim h [
    | inl e ↦ subst (λ (x : Option ℕ). Ahead x b.packets) e i.ahead
    | inr e ↦ rw e (From-first_key b.packets i.ascending)
  ];
  targeted = i.targeted;
}

pub pop-JitterInv :
    (Q : AudioPacket → Type 0) (d : Bool) (b : AudioJitterBuffer)
    → JitterInv Q b
    → JitterInv Q (pop d b).0
pop-JitterInv Q d b i = elim (pop-Starting d b) [
  | starts n h e o ↦
      rw e
        (pop_at-JitterInv Q d (record b { expected_sequence = some n }) n refl (started Q b n h i))
  | fills e f h ↦ rw h i
]

pub data PlayCall : Type 0 where
  push_call : AudioPacket → PlayCall
  pop_call : Bool → PlayCall

abbrev pub pushed : AudioJitterBuffer → Result (AudioJitterBuffer × Bool) → AudioJitterBuffer
pushed b (ok (next, r)) = next
pushed b (err e) = b

abbrev pub play_step : AudioJitterBuffer → PlayCall → AudioJitterBuffer
play_step b (push_call p) = pushed b (push p b)
play_step b (pop_call d) = (pop d b).0

abbrev pub play_run : List PlayCall → AudioJitterBuffer → AudioJitterBuffer
play_run [] b = b
play_run (c ∷ cs) b = play_run cs (play_step b c)

abbrev pub output : AudioJitterBuffer → PlayCall → Option PlayoutPacket
output b (push_call p) = none
output b (pop_call d) = (pop d b).1

abbrev pub cons_some : Option PlayoutPacket → List PlayoutPacket → List PlayoutPacket
cons_some none os = os
cons_some (some o) os = o ∷ os

-- What is played, in order.
abbrev pub played : List PlayCall → AudioJitterBuffer → List PlayoutPacket
played [] b = []
played (c ∷ cs) b = cons_some (output b c) (played cs (play_step b c))

-- Every packet that is pushed has the property.
abbrev pub AllPushed : (AudioPacket → Type 0) → List PlayCall → Type 0
AllPushed Q [] = Unit {0}
AllPushed Q (push_call p ∷ cs) = Q p × AllPushed Q cs
AllPushed Q (pop_call d ∷ cs) = AllPushed Q cs

-- Consecutive numbers from `n`.
abbrev pub Numbered : ℕ → List PlayoutPacket → Type 0
Numbered n [] = Unit {0}
Numbered n (o ∷ os) = (o.sequence ≡ n) × Numbered (next64 n) os

-- A concealment has no packet; else there is one, valid, of that number and with the property.
abbrev pub Sound : (AudioPacket → Type 0) → ℕ → Bool → Option AudioPacket → Type 0
Sound Q n concealed none = concealed ≡ true
Sound Q n concealed (some p) =
    (concealed ≡ false) × (p.sequence ≡ n) × (validate_packet p ≡ ok tt) × Q p

abbrev pub IsSound : (AudioPacket → Type 0) → PlayoutPacket → Type 0
IsSound Q o = Sound Q o.sequence o.packet_loss_concealment o.packet

pub push_step-JitterInv :
    (Q : AudioPacket → Type 0) (p : AudioPacket) (b : AudioJitterBuffer)
    → Q p
    → JitterInv Q b
    → JitterInv Q (play_step b (push_call p))
unfolding push
push_step-JitterInv Q p b q i = elim (Result-cases (validate_packet p)) [
  | inl v ↦ rw v (push_valid-JitterInv Q p b v q i)
  | inr (x, v) ↦ rw v i
]

pub push_step-expected :
    (p : AudioPacket) (b : AudioJitterBuffer)
    → (play_step b (push_call p)).expected_sequence ≡ b.expected_sequence
unfolding push
push_step-expected p b = elim (Result-cases (validate_packet p)) [
  | inl v ↦ rw v ((push_valid-settings p b).0)
  | inr (x, v) ↦ rw v refl
]

-- The output of a pop at `n` is sound and numbered `n`, and the next number is expected after it.
pop_at-output :
    (Q : AudioPacket → Type 0) (d : Bool) (b : AudioJitterBuffer) (n : ℕ) (os : List PlayoutPacket)
    → b.expected_sequence ≡ some n
    → JitterInv Q b
    → ((m : ℕ) → (pop_at d b n).0.expected_sequence ≡ some m → Numbered m os)
    → All (IsSound Q) os
    → Numbered n (cons_some (pop_at d b n).1 os) × All (IsSound Q) (cons_some (pop_at d b n).1 os)
pop_at-output Q d b n os e i h a = elim (pop_at-Popping d b n) [
  | plays p k o x y ↦
      let (s, v, q) = Stored-find Q n p b.packets i.stored k in
      rw o ((refl, h (next64 n) x), ((refl, s, v, q), a))
  | conceals k o x y ↦ rw o ((refl, h (next64 n) x), (refl, a))
  | waits k w o y ↦ rw o (h n (rw y e), a)
]

play_lem :
    (Q : AudioPacket → Type 0) (cs : List PlayCall) (b : AudioJitterBuffer)
    → AllPushed Q cs
    → JitterInv Q b
    → ((n : ℕ) → b.expected_sequence ≡ some n → Numbered n (played cs b))
      × ((b.expected_sequence ≡ none) → (n : ℕ) × Numbered n (played cs b))
      × All (IsSound Q) (played cs b)
play_lem Q [] b h i = (λ n e. tt, λ e. (0, tt), tt)
play_lem Q (push_call p ∷ cs) b h i =
    let b' = play_step b (push_call p) in
    let (u, v, w) = play_lem Q cs b' h.1 (push_step-JitterInv Q p b h.0 i) in
    let e = push_step-expected p b in (λ n k. u n (e ∙ k), λ k. v (e ∙ k), w)
play_lem Q (pop_call d ∷ cs) b h i =
    let b' = (pop d b).0 in
    let (u, v, w) = play_lem Q cs b' h (pop-JitterInv Q d b i) in
    elim (pop-Starting d b) [
      | fills e f k ↦
          let k0 = ap (λ (x : AudioJitterBuffer × Option PlayoutPacket). x.0.expected_sequence) k in
          rw (ap (λ (x : AudioJitterBuffer × Option PlayoutPacket). x.1) k)
            (λ n c. absurd (ground (arith, c, e)), λ c. v (k0 ∙ c), w)
      | starts n s k o ↦
          let r = record b { expected_sequence = some n } in
          let k0 = ap (λ (x : AudioJitterBuffer × Option PlayoutPacket). x.0.expected_sequence) k in
          let (x, y) =
            pop_at-output Q d r n (played cs b') refl (started Q b n s i) (λ m c. u m (k0 ∙ c)) w in
          rw (ap (λ (z : AudioJitterBuffer × Option PlayoutPacket). z.1) k) (
            λ m c. elim o [
              | inl z ↦ absurd (ground (arith, c, z))
              | inr z ↦
                  let q : n ≡ m = ground (arith, c, z) in
                  subst (λ (j : ℕ). Numbered j (cons_some (pop_at d r n).1 (played cs b'))) q x
            ],
            λ _. (n, x),
            y,
          )
    ]

pub new_buffer-JitterInv :
    (Q : AudioPacket → Type 0) (target maximum : ℕ) {b : AudioJitterBuffer}
    → new_buffer target maximum ≡ ok b
    → JitterInv Q b × (b.expected_sequence ≡ none)
unfolding new_buffer
new_buffer-JitterInv Q target maximum h = (
  record {
    ascending = ground arith;
    bounded = ground arith;
    stored = ground arith;
    ahead = ground arith;
    targeted = ground arith;
  },
  ground arith,
)

-- From a new buffer on, whatever is pushed and however pops are mixed in, the numbers played are
-- consecutive, so that no number is played twice while they do not wrap around; and each is either
-- concealed, with no packet, or comes with the valid packet of that number, which has every property
-- that all pushed packets have.
pub played-Numbered :
    (Q : AudioPacket → Type 0) (target maximum : ℕ) {b : AudioJitterBuffer}
    → new_buffer target maximum ≡ ok b
    → (cs : List PlayCall) → AllPushed Q cs
    → ((n : ℕ) × Numbered n (played cs b)) × All (IsSound Q) (played cs b)
played-Numbered Q target maximum {b} h cs q =
    let (i, e) = new_buffer-JitterInv Q target maximum h in
    let (u, v, w) = play_lem Q cs b q i in (v e, w)
