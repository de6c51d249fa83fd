-- ===== src/Core/ResumeLedger.antt =====
-- core/src/workspace_sync.cpp: ChunkResumeLedger.
pub mod Confirmed
use lan_pilot.Common.{
  if◌then◌else◌, ℕ, zero, suc, ok, err, true, false, none, some, [], ◌∷◌, Result, ◌*◌, List, Bool,
  leb, ◌==◌, ◌&&◌, length, invalid_argument, replicate, ◌||◌, ltb, set,
}

-- `confirmed_`
pub record ChunkResumeLedger : Type 0 where
  pub confirmed : List Bool

abbrev pub max_chunk_size : ℕ
max_chunk_size = 4 * 1024 * 1024

unfoldable pub new_ledger : ℕ → Result ChunkResumeLedger
new_ledger chunk_count =
    if chunk_count == 0
    then err invalid_argument
    else ok record { confirmed = replicate chunk_count false }

unfoldable pub confirm : ℕ → ℕ → List ℕ → ChunkResumeLedger → Result ChunkResumeLedger
confirm chunk_index byte_count verified_chunk_hash l =
    if leb (length l.confirmed) chunk_index
      || byte_count == 0
      || ltb max_chunk_size byte_count
      || length verified_chunk_hash == 0
    then err invalid_argument
    else ok record { confirmed = set l.confirmed chunk_index true }

unfoldable pub all_true : List Bool → Bool
all_true [] = true
all_true (b ∷ bs) = b && all_true bs

unfoldable pub complete : ChunkResumeLedger → Bool
complete l = all_true l.confirmed

-- `i` is the index of the list's first chunk.
unfoldable pub missing_from : ℕ → List Bool → List ℕ
missing_from i [] = []
missing_from i (b ∷ bs) = let rest = missing_from (suc i) bs in if b then rest else i ∷ rest

unfoldable pub missing : ChunkResumeLedger → List ℕ
missing l = missing_from 0 l.confirmed
