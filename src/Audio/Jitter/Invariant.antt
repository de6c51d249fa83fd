-- ===== src/Audio/Jitter/Invariant.antt =====
-- What holds of AudioJitterBuffer of audio/src/audio.cpp whatever calls it has.
use lan_pilot.Common.{
  ℕ, suc, ok, true, false, none, some, [], ◌∷◌, refl, Bool, List, remove_key, find_key, put_key,
  Option, ◌≡◌, Bool-cases, From, Ascending, arith, ltb, ◌==◌, Option-cases, From-put, subst,
  Ascending-put, inl, length, length-put_key, ◌<◌, Ascending-remove, ◌≤◌, From-remove, inr, From-le,
  not, find-remove_key, length-remove_key, ◌&&◌, leb, ◌||◌, first_key,
}
use lan_pilot.Audio.Jitter.{pop_at, push_valid, AudioJitterBuffer, is_late, PlayoutPacket, next64}
use lan_pilot.Audio.Packet.{AudioPacket, validate_packet}

-- Every packet that waits is at its own sequence number, is valid, and has the property `Q`.
abbrev pub Stored : (AudioPacket → Type 0) → List (ℕ × AudioPacket) → Type 0
Stored Q [] = Unit {0}
Stored Q ((k, p) ∷ m) = ((p.sequence ≡ k) × (validate_packet p ≡ ok tt) × Q p) × Stored Q m

-- None of them is before the number that is to be played next.
abbrev pub Ahead : Option ℕ → List (ℕ × AudioPacket) → Type 0
Ahead none m = Unit {0}
Ahead (some n) m = From n m

pub record JitterInv (Q : AudioPacket → Type 0) (b : AudioJitterBuffer) : Type 0 where
  pub ascending : Ascending b.packets
  pub bounded : length b.packets ≤ b.maximum_packets
  pub stored : Stored Q b.packets
  pub ahead : Ahead b.expected_sequence b.packets
  pub targeted : 0 < b.target_packets

pub Stored-find :
    (Q : AudioPacket → Type 0) (k : ℕ) (p : AudioPacket) (m : List (ℕ × AudioPacket))
    → Stored Q m
    → find_key k m ≡ some p
    → (p.sequence ≡ k) × (validate_packet p ≡ ok tt) × Q p
unfolding find_key
Stored-find Q k p [] h e = absurd (ground arith)
Stored-find Q k p ((x, q) ∷ m) h e = elim (Bool-cases (k == x)) [
  | inl c ↦
      let i : q ≡ p = ground (arith, c, e) in
      subst (λ (y : AudioPacket). (y.sequence ≡ k) × (validate_packet y ≡ ok tt) × Q y) i
        (ground (arith, c, h.0.0), h.0.1, h.0.2)
  | inr c ↦ Stored-find Q k p m h.1 (ground (arith, c, e))
]

Stored-put :
    (Q : AudioPacket → Type 0) (p : AudioPacket) (m : List (ℕ × AudioPacket))
    → validate_packet p ≡ ok tt
    → Q p
    → Stored Q m
    → Stored Q (put_key p.sequence p m)
unfolding put_key
Stored-put Q p [] v q h = ((refl, v, q), tt)
Stored-put Q p ((x, r) ∷ m) v q h = elim (Bool-cases (ltb p.sequence x)) [
  | inl a ↦ rw a ((refl, v, q), (h.0, h.1))
  | inr a ↦ elim (Bool-cases (p.sequence == x)) [
    | inl c ↦ rw (a, c) ((refl, v, q), h.1)
    | inr c ↦ rw (a, c) (h.0, Stored-put Q p m v q h.1)
  ]
]

Stored-remove :
    (Q : AudioPacket → Type 0) (k : ℕ) (m : List (ℕ × AudioPacket))
    → Stored Q m
    → Stored Q (remove_key k m)
unfolding remove_key
Stored-remove Q k [] h = tt
Stored-remove Q k ((x, p) ∷ m) h = elim (Bool-cases (k == x)) [
  | inl c ↦ rw c h.1
  | inr c ↦ rw c (h.0, Stored-remove Q k m h.1)
]

-- Where the number to be played is not there, all that wait are after it.
pub From-next :
    (n : ℕ) (m : List (ℕ × AudioPacket)) → From n m → find_key n m ≡ none → From (suc n) m
unfolding find_key
From-next n [] f e = tt
From-next n ((x, p) ∷ m) f e = elim (Bool-cases (n == x)) [
  | inl c ↦ absurd (ground (arith, c, e))
  | inr c ↦ (ground (arith, c, f.0), From-next n m f.1 (ground (arith, c, e)))
]

pub From-next64 :
    (n : ℕ) (m : List (ℕ × AudioPacket)) → From n m → find_key n m ≡ none → From (next64 n) m
From-next64 n m f e = From-le (next64 n) (suc n) m (omega arith) (From-next n m f e)

pub From-removed :
    (n : ℕ) (m : List (ℕ × AudioPacket)) → Ascending m → From n m → From (next64 n) (remove_key n m)
From-removed n m a f =
    From-next64 n (remove_key n m) (From-remove n n m f) (ground (arith, find-remove_key n n m a))

-- A push leaves the number to be played, and enters a packet that is not late, not there yet and has
-- room.
pub data Pushing (p : AudioPacket) (b : AudioJitterBuffer) (b' : AudioJitterBuffer) (r : Bool)
    : Type 0 where
  entered :
      r ≡ true
      → find_key p.sequence b.packets ≡ none
      → is_late b.expected_sequence p.sequence ≡ false
      → length b.packets < b.maximum_packets
      → b'.packets ≡ put_key p.sequence p b.packets
      → Pushing p b b' r
  left : r ≡ false → b'.packets ≡ b.packets → Pushing p b b' r

pub push_valid-settings :
    (p : AudioPacket) (b : AudioJitterBuffer)
    → let b' = (push_valid p b).0 in
      (b'.expected_sequence ≡ b.expected_sequence)
      × (b'.maximum_packets ≡ b.maximum_packets)
      × (b'.target_packets ≡ b.target_packets)
unfolding push_valid
push_valid-settings p b = (ground arith, ground arith, ground arith)

pub push_valid-Pushing :
    (p : AudioPacket) (b : AudioJitterBuffer) → Pushing p b (push_valid p b).0 (push_valid p b).1
unfolding push_valid
push_valid-Pushing p b = elim (Bool-cases (is_late b.expected_sequence p.sequence)) [
  | inl l ↦ left (ground (arith, l)) (ground (arith, l))
  | inr l ↦ elim (Option-cases (find_key p.sequence b.packets)) [
    | inr (q, f) ↦ left (ground (arith, l, f)) (ground (arith, l, f))
    | inl f ↦ elim (Bool-cases (leb b.maximum_packets (length b.packets))) [
      | inl o ↦ left (ground (arith, l, f, o)) (ground (arith, l, f, o))
      | inr o ↦ entered (ground (arith, l, f, o)) f l (ground (arith, o)) (ground (arith, l, f, o))
    ]
  ]
]

Ahead-put :
    (o : Option ℕ) (k : ℕ) (p : AudioPacket) (m : List (ℕ × AudioPacket))
    → is_late o k ≡ false
    → Ahead o m
    → Ahead o (put_key k p m)
Ahead-put none k p m l h = tt
Ahead-put (some n) k p m l h = From-put k n p m (ground (arith, l)) h

pub push_valid-JitterInv :
    (Q : AudioPacket → Type 0) (p : AudioPacket) (b : AudioJitterBuffer)
    → validate_packet p ≡ ok tt
    → Q p
    → JitterInv Q b
    → JitterInv Q (push_valid p b).0
push_valid-JitterInv Q p b v q i =
    let (e, m, t) = push_valid-settings p b in
    elim (push_valid-Pushing p b) [
      | entered r f l o k ↦ record {
        ascending = rw k (Ascending-put p.sequence p b.packets i.ascending);
        bounded = rw (k, m) (omega (arith, o, length-put_key p.sequence p b.packets f));
        stored = rw k (Stored-put Q p b.packets v q i.stored);
        ahead = rw (k, e) (Ahead-put b.expected_sequence p.sequence p b.packets l i.ahead);
        targeted = rw t i.targeted;
      }
      | left r k ↦ record {
        ascending = rw k i.ascending;
        bounded = rw (k, m) i.bounded;
        stored = rw k i.stored;
        ahead = rw (k, e) i.ahead;
        targeted = rw t i.targeted;
      }
    ]

-- What is played where the number to be played is `n`.
pub data Popping (d : Bool) (b : AudioJitterBuffer) (n : ℕ) (b' : AudioJitterBuffer)
    (o : Option PlayoutPacket) : Type 0 where
  plays :
      (p : AudioPacket)
      → find_key n b.packets ≡ some p
      → o ≡ some (record { sequence = n; packet_loss_concealment = false; packet = some p })
      → b'.expected_sequence ≡ some (next64 n)
      → b'.packets ≡ remove_key n b.packets
      → Popping d b n b' o
  conceals :
      find_key n b.packets ≡ none
      → o ≡ some (record { sequence = n; packet_loss_concealment = true; packet = none })
      → b'.expected_sequence ≡ some (next64 n)
      → b'.packets ≡ b.packets
      → Popping d b n b' o
  waits :
      find_key n b.packets ≡ none
      → (not d && (length b.packets == 0 || leb (first_key b.packets) n)) ≡ true
      → o ≡ none
      → b' ≡ b
      → Popping d b n b' o

pub pop_at-Popping :
    (d : Bool) (b : AudioJitterBuffer) (n : ℕ) → Popping d b n (pop_at d b n).0 (pop_at d b n).1
unfolding pop_at
pop_at-Popping d b n = elim (Option-cases (find_key n b.packets)) [
  | inr (p, f) ↦ plays p f (ground (arith, f)) (ground (arith, f)) (ground (arith, f))
  | inl f ↦ elim (Bool-cases (not d && (length b.packets == 0 || leb (first_key b.packets) n))) [
    | inl w ↦ waits f w (ground (arith, f, w)) (ground (arith, f, w))
    | inr w ↦ conceals f (ground (arith, f, w)) (ground (arith, f, w)) (ground (arith, f, w))
  ]
]

pub pop_at-settings :
    (d : Bool) (b : AudioJitterBuffer) (n : ℕ)
    → let b' = (pop_at d b n).0 in
      (b'.maximum_packets ≡ b.maximum_packets) × (b'.target_packets ≡ b.target_packets)
unfolding pop_at
pop_at-settings d b n = elim (Option-cases (find_key n b.packets)) [
  | inr (p, f) ↦ (ground (arith, f), ground (arith, f))
  | inl f ↦ (ground (arith, f), ground (arith, f))
]

pub pop_at-JitterInv :
    (Q : AudioPacket → Type 0) (d : Bool) (b : AudioJitterBuffer) (n : ℕ)
    → b.expected_sequence ≡ some n
    → JitterInv Q b
    → JitterInv Q (pop_at d b n).0
pop_at-JitterInv Q d b n e i =
    let (m, t) = pop_at-settings d b n in
    let f : From n b.packets = subst (λ (x : Option ℕ). Ahead x b.packets) e i.ahead in
    elim (pop_at-Popping d b n) [
      | plays p k o x y ↦ record {
        ascending = rw y (Ascending-remove n b.packets i.ascending);
        bounded = rw (y, m) (omega (arith, i.bounded, length-remove_key n b.packets p k));
        stored = rw y (Stored-remove Q n b.packets i.stored);
        ahead = rw (y, x) (From-removed n b.packets i.ascending f);
        targeted = rw t i.targeted;
      }
      | conceals k o x y ↦ record {
        ascending = rw y i.ascending;
        bounded = rw (y, m) i.bounded;
        stored = rw y i.stored;
        ahead = rw (y, x) (From-next64 n b.packets f k);
        targeted = rw t i.targeted;
      }
      | waits k w o y ↦ rw y i
    ]
