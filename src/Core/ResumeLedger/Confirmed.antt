-- ===== src/Core/ResumeLedger/Confirmed.antt =====
-- Runs of ChunkResumeLedger, of core/src/workspace_sync.cpp.
use lan_pilot.Common.{
  if◌then◌else◌, ℕ, zero, suc, ok, err, false, [], ◌∷◌, Bool, List, not, Result, ◌==◌, ◌&&◌, leb,
  length, ◌||◌, ◌≤◌, ◌≡◌, ◌<◌, set, sym, true, arith, ◌+◌, Bool-cases, replicate, ◌∙◌, inl, refl,
  ap, leb→le, inr,
}
use lan_pilot.Core.ResumeLedger.{
  ChunkResumeLedger, confirm, max_chunk_size, all_true, missing_from, missing, complete, new_ledger,
}

-- The calls of confirm: an index, a number of bytes and a hash.
abbrev pub Confirmations : Type 0
Confirmations = List (ℕ × ℕ × List ℕ)

abbrev pub confirmed_or_same : ChunkResumeLedger → Result ChunkResumeLedger → ChunkResumeLedger
confirmed_or_same l (ok k) = k
confirmed_or_same l (err x) = l

-- A call that throws changes nothing.
unfoldable pub ledger_run : Confirmations → ChunkResumeLedger → ChunkResumeLedger
ledger_run [] l = l
ledger_run ((i, n, h) ∷ cs) l = ledger_run cs (confirmed_or_same l (confirm i n h l))

abbrev is_valid : ℕ → List ℕ → Bool
is_valid n h = not (n == 0) && leb n max_chunk_size && not (length h == 0)

-- A valid call was made for the chunk.
unfoldable pub was_confirmed : Confirmations → ℕ → Bool
was_confirmed [] j = false
was_confirmed ((i, n, h) ∷ cs) j = i == j && is_valid n h || was_confirmed cs j

-- The numbers from `i` on, `n` of them, that no call confirmed.
unfoldable pub unconfirmed : Confirmations → ℕ → ℕ → List ℕ
unconfirmed cs i zero = []
unconfirmed cs i (suc n) =
    let rest = unconfirmed cs (suc i) n in if was_confirmed cs i then rest else i ∷ rest

-- The calls' marks on a list that begins with the chunk `i`.
unfoldable mark : Confirmations → ℕ → List Bool → List Bool
mark cs i [] = []
mark cs i (b ∷ bs) = (b || was_confirmed cs i) ∷ mark cs (suc i) bs

mark-nil : (i : ℕ) (bs : List Bool) → mark [] i bs ≡ bs
unfolding mark was_confirmed
mark-nil i [] = refl
mark-nil i (b ∷ bs) = ground (arith, mark-nil (suc i) bs)

module _ (k n : ℕ) (h : List ℕ) (cs : Confirmations) where
  mark_invalid :
      (i : ℕ) (bs : List Bool) → is_valid n h ≡ false → mark ((k, n, h) ∷ cs) i bs ≡ mark cs i bs
  unfolding mark was_confirmed
  mark_invalid i [] v = refl
  mark_invalid i (b ∷ bs) v = ground (arith, v, mark_invalid (suc i) bs v)

  mark_past : (i : ℕ) (bs : List Bool) → k < i → mark ((k, n, h) ∷ cs) i bs ≡ mark cs i bs
  unfolding mark was_confirmed
  mark_past i [] l = refl
  mark_past i (b ∷ bs) l = ground (arith, l, mark_past (suc i) bs (omega arith))

  mark_valid :
      (i p : ℕ) (bs : List Bool)
      → k ≡ i + p
      → is_valid n h ≡ true
      → mark ((k, n, h) ∷ cs) i bs ≡ mark cs i (set bs p true)
  unfolding mark was_confirmed
  mark_valid i p [] e v = refl
  mark_valid i zero (b ∷ bs) e v = ground (arith, e, v, mark_past (suc i) bs (omega arith))
  mark_valid i (suc p) (b ∷ bs) e v = ground (arith, e, v, mark_valid (suc i) p bs (omega arith) v)

set_out : (bs : List Bool) (k : ℕ) → length bs ≤ k → set bs k true ≡ bs
set_out [] k h = refl
set_out (b ∷ bs) zero h = absurd (omega arith)
set_out (b ∷ bs) (suc k) h = rw (set_out bs k (omega arith))

abbrev marked : ℕ → ℕ → List ℕ → ChunkResumeLedger → List Bool
marked i n h l = if is_valid n h then set l.confirmed i true else l.confirmed

confirm-marked :
    (i n : ℕ) (h : List ℕ) (l : ChunkResumeLedger)
    → (confirmed_or_same l (confirm i n h l)).confirmed ≡ marked i n h l
unfolding confirm
confirm-marked i n h l = elim (Bool-cases (leb (length l.confirmed) i)) [
  | inl k ↦
      let out : set l.confirmed i true ≡ l.confirmed =
        set_out l.confirmed i (leb→le (length l.confirmed) i k) in
      ground (arith, k, out)
  | inr k ↦ ground (arith, k)
]

ledger_run-mark :
    (cs : Confirmations) (l : ChunkResumeLedger)
    → (ledger_run cs l).confirmed ≡ mark cs 0 l.confirmed
unfolding ledger_run
ledger_run-mark [] l = sym (mark-nil 0 l.confirmed)
ledger_run-mark ((i, n, h) ∷ cs) l =
    ledger_run-mark cs (confirmed_or_same l (confirm i n h l))
    ∙ ap (mark cs 0) (confirm-marked i n h l)
    ∙ elim (Bool-cases (is_valid n h)) [
      | inl v ↦ rw v (sym (mark_valid i n h cs 0 i l.confirmed (omega arith) v))
      | inr v ↦ rw v (sym (mark_invalid i n h cs 0 l.confirmed v))
    ]

missing-unconfirmed :
    (cs : Confirmations) (i n : ℕ)
    → missing_from i (mark cs i (replicate n false)) ≡ unconfirmed cs i n
unfolding missing_from mark unconfirmed
missing-unconfirmed cs i zero = refl
missing-unconfirmed cs i (suc n) = ground (arith, missing-unconfirmed cs (suc i) n)

complete-missing : (i : ℕ) (bs : List Bool) → all_true bs ≡ (length (missing_from i bs) == 0)
unfolding all_true missing_from
complete-missing i [] = refl
complete-missing i (b ∷ bs) = ground (arith, complete-missing (suc i) bs)

-- Whatever calls of confirm a new ledger has had, the chunks that are missing are, in order,
-- exactly those that no call confirmed with some bytes, no more than the maximum, and a hash; and
-- the transfer is complete exactly when none is missing.
pub ledger_run-missing :
    (cs : Confirmations) (n : ℕ) (l : ChunkResumeLedger)
    → new_ledger n ≡ ok l
    → (missing (ledger_run cs l) ≡ unconfirmed cs 0 n)
      × (complete (ledger_run cs l) ≡ (length (missing (ledger_run cs l)) == 0))
unfolding missing complete new_ledger
ledger_run-missing cs n l e =
    let start : l.confirmed ≡ replicate n false = ground (arith, e) in
    (
      ap (missing_from 0) (ledger_run-mark cs l ∙ ap (mark cs 0) start)
          ∙ missing-unconfirmed cs 0 n,
      complete-missing 0 (ledger_run cs l).confirmed,
    )
