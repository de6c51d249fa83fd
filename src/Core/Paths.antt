-- ===== src/Core/Paths.antt =====
-- core/src/workspace_sync.cpp: is_canonical_workspace_path, with the order of std::string, which
-- a path is; and is_sha256_hex of core/src/content_hash.cpp.
pub mod Order
use lan_pilot.Common.{
  if◌then◌else◌, ℕ, true, false, [], ◌∷◌, leb, List, Bool, length, ltb, ◌||◌, codes, ◌&&◌, not,
  bytes_eq, ◌==◌, ◌-◌, contains, ◌!=◌, take,
}
use lan_pilot.Core.Identity.{is_digit, all_of}

-- `std::string::operator<`, on the bytes as unsigned characters
unfoldable pub path_less : List ℕ → List ℕ → Bool
path_less _ [] = false
path_less [] (y ∷ ys) = true
path_less (x ∷ xs) (y ∷ ys) = ltb x y || x == y && path_less xs ys

-- A component, and those after its '/'.
unfoldable pub split_path : List ℕ → List ℕ × List (List ℕ)
split_path [] = ([], [])
split_path (c ∷ cs) =
    let rest = split_path cs in if c == 47 then ([], rest.0 ∷ rest.1) else (c ∷ rest.0, rest.1)

abbrev pub components : List ℕ → List (List ℕ)
components path = (split_path path).0 ∷ (split_path path).1

abbrev pub front : List ℕ → ℕ
front [] = 0
front (c ∷ cs) = c

unfoldable pub back : List ℕ → ℕ
back [] = 0
back (c ∷ []) = c
back (c ∷ d ∷ cs) = back (d ∷ cs)

-- What Windows refuses in a name: `:*?"<>|` and the control characters.
abbrev pub is_plain : ℕ → Bool
is_plain c = not (contains (58 ∷ 42 ∷ 63 ∷ 34 ∷ 60 ∷ 62 ∷ 124 ∷ []) c || ltb c 32 || c == 127)

abbrev pub to_upper : ℕ → ℕ
to_upper c = if leb 97 c && leb c 122 then c - 32 else c

-- The part before the first '.', in upper case.
unfoldable pub device_name : List ℕ → List ℕ
device_name [] = []
device_name (c ∷ cs) = let rest = device_name cs in if c == 46 then [] else to_upper c ∷ rest

abbrev pub numbered_device : List ℕ → List ℕ → Bool
numbered_device prefix device =
    length device == 4
    && bytes_eq (take 3 device) prefix
    && leb 49 (back device)
    && leb (back device) 57

abbrev pub reserved_names : List (List ℕ)
reserved_names =
    codes "CON"
    ∷ codes "PRN"
    ∷ codes "AUX"
    ∷ codes "NUL"
    ∷ codes "CLOCK$"
    ∷ codes "CONIN$"
    ∷ codes "CONOUT$"
    ∷ []

unfoldable pub has_path : List (List ℕ) → List ℕ → Bool
has_path [] p = false
has_path (q ∷ qs) p = bytes_eq q p || has_path qs p

abbrev pub is_reserved : List ℕ → Bool
is_reserved device =
    has_path reserved_names device
    || numbered_device (codes "COM") device
    || numbered_device (codes "LPT") device

unfoldable pub is_component : List ℕ → Bool
is_component name =
    ltb 0 (length name)
    && leb (length name) 255
    && not (bytes_eq name (codes "."))
    && not (bytes_eq name (codes ".."))
    && front name != 32
    && back name != 32
    && back name != 46
    && all_of is_plain name
    && not (is_reserved (device_name name))

abbrev pub all_components : List (List ℕ) → Bool
all_components [] = true
all_components (n ∷ ns) = is_component n && all_components ns

unfoldable pub is_canonical_workspace_path : List ℕ → Bool
is_canonical_workspace_path path =
    ltb 0 (length path)
    && leb (length path) 4096
    && front path != 47
    && back path != 47
    && not (contains path 92)
    && all_components (components path)

abbrev pub is_lower_hex : ℕ → Bool
is_lower_hex c = is_digit c || leb 97 c && leb c 102

unfoldable pub is_sha256_hex : List ℕ → Bool
is_sha256_hex value = length value == 64 && all_of is_lower_hex value
