-- ===== src/Desktop/Utf8.antt =====
-- valid_utf8 of desktop/src/desktop.cpp. A text is the list of its bytes; masks and shifts of a byte
-- are divisions and remainders by powers of two.
pub mod Scalars
use lan_pilot.Common.{
  ℕ, zero, suc, true, false, none, some, [], ◌∷◌, if◌then◌else◌, Option, List, Bool, ◌*◌, leb, ◌/◌,
  ◌==◌, length, ◌&&◌, ◌%◌, ◌+◌, ◌!=◌, ltb, ◌||◌,
}

-- The inner loop, `continuation` times: the code point and what is left to read.
unfoldable pub continuations : ℕ → ℕ → List ℕ → Option (ℕ × List ℕ)
continuations zero codepoint rest = some (codepoint, rest)
continuations (suc n) codepoint [] = none
continuations (suc n) codepoint (next ∷ rest) =
    let read = continuations n (codepoint * 64 + next % 64) rest in
    if next / 64 != 2 then none else read

-- The first byte: how many bytes continue it, and its own bits. `none` is the early return.
abbrev pub lead : ℕ → Option (ℕ × ℕ)
lead first =
    if first / 32 == 6
    then some (1, first % 32)
    else if first / 16 == 14
    then some (2, first % 16)
    else if first / 8 == 30
    then some (3, first % 8)
    else none

-- The last test of a round.
abbrev pub refused_codepoint : ℕ → ℕ → Bool
refused_codepoint continuation codepoint =
    continuation == 1 && ltb codepoint 128
    || continuation == 2 && ltb codepoint 2048
    || continuation == 3 && ltb codepoint 65536
    || ltb 1114111 codepoint
    || leb 55296 codepoint && leb codepoint 57343

-- After the inner loop: what the next round reads.
unfoldable pub accept_codepoint : ℕ → Option (ℕ × List ℕ) → Option (List ℕ)
accept_codepoint continuation none = none
accept_codepoint continuation (some (codepoint, rest)) =
    if refused_codepoint continuation codepoint then none else some rest

unfoldable pub continue_from : Option (ℕ × ℕ) → List ℕ → Option (List ℕ)
unfolding continuations accept_codepoint
continue_from none rest = none
continue_from (some (continuation, codepoint)) rest =
    if leb (suc (length rest)) continuation
    then none
    else accept_codepoint continuation (continuations continuation codepoint rest)

-- One round from `first` on.
unfoldable pub utf8_round : ℕ → List ℕ → Option (List ℕ)
unfolding continue_from
utf8_round first rest = if leb first 127 then some rest else continue_from (lead first) rest

-- The outer loop. Every round reads a byte, so `text.size()` rounds are enough.
unfoldable pub utf8_loop : ℕ → List ℕ → Bool
unfolding utf8_round
utf8_loop zero [] = true
utf8_loop zero (first ∷ rest) = false
utf8_loop (suc fuel) [] = true
utf8_loop (suc fuel) (first ∷ rest) = elim (utf8_round first rest) [
  | none ↦ false
  | some later ↦ utf8_loop fuel later
]

unfoldable pub valid_utf8 : List ℕ → Bool
unfolding utf8_loop
valid_utf8 text = utf8_loop (length text) text
