-- ===== src/Desktop/Tests.antt =====
-- Runs of the desktop modules.
mod Codecs
mod Streams
mod States
use lan_pilot.Common.{ℕ, true, false, [], ◌∷◌, List, Bool, ◌≡◌, ltb, arith, ◌&&◌}
use lan_pilot.Desktop.Wire.{IsBytes}

abbrev pub all_bytes : List ℕ → Bool
all_bytes [] = true
all_bytes (b ∷ bs) = ltb b 256 && all_bytes bs

pub IsBytes-all_bytes : (bs : List ℕ) → all_bytes bs ≡ true → IsBytes bs
IsBytes-all_bytes [] h = tt
IsBytes-all_bytes (b ∷ bs) h = (ground arith, IsBytes-all_bytes bs (ground arith))
