-- ===== src/Core/Workspace.antt =====
-- core/src/workspace_sync.cpp with core/include/rwn/core/workspace_sync.hpp: manifests of a
-- workspace. A std::map from paths to entries is the list of
-- its entries in the order of their paths, since an entry is only ever kept under its own path.
pub mod Index
pub mod Validated
use lan_pilot.Common.{
  if◌then◌else◌, ℕ, ok, err, true, false, none, some, [], ◌∷◌, Option, Bool, Result, List, bytes_eq,
  length, ◌⨾◌, invalid_argument, not, ◌||◌, ◌==◌, ◌&&◌, throw_if, ◌!=◌,
}
use lan_pilot.Core.Paths.{path_less, is_canonical_workspace_path, has_path, is_sha256_hex}

pub data WorkspaceEntryKind : Type 0 where
  file directory symlink : WorkspaceEntryKind

pub record WorkspaceEntry : Type 0 where
  pub path : List ℕ
  pub kind : WorkspaceEntryKind
  pub size : ℕ
  pub content_hash : List ℕ
  pub mode : ℕ
  pub symlink_target : List ℕ

pub record WorkspaceManifest : Type 0 where
  pub workspace_id : List ℕ
  pub revision : ℕ
  pub entries : List WorkspaceEntry

-- `static_cast<std::uint64_t>(kind)`
abbrev pub entry_kind : WorkspaceEntryKind → ℕ
entry_kind file = 0
entry_kind directory = 1
entry_kind symlink = 2

unfoldable pub same_entry : WorkspaceEntry → WorkspaceEntry → Bool
same_entry a b =
    bytes_eq a.path b.path
    && entry_kind a.kind == entry_kind b.kind
    && a.size == b.size
    && bytes_eq a.content_hash b.content_hash
    && a.mode == b.mode
    && bytes_eq a.symlink_target b.symlink_target

unfoldable pub same_entries : List WorkspaceEntry → List WorkspaceEntry → Bool
same_entries [] [] = true
same_entries (a ∷ xs) (b ∷ bs) = same_entry a b && same_entries xs bs
same_entries _ _ = false

-- The map's operations.
unfoldable pub find_entry : List ℕ → List WorkspaceEntry → Option WorkspaceEntry
find_entry p [] = none
find_entry p (e ∷ m) = let rest = find_entry p m in if bytes_eq e.path p then some e else rest

abbrev pub is_some {ℓ} : {A : Type ℓ} → Option A → Bool
is_some none = false
is_some (some a) = true

abbrev pub has_entry : List ℕ → List WorkspaceEntry → Bool
has_entry p m = is_some (find_entry p m)

-- `insert_or_assign`, under the entry's path
unfoldable pub put_entry : WorkspaceEntry → List WorkspaceEntry → List WorkspaceEntry
put_entry e [] = e ∷ []
put_entry e (d ∷ m) =
    let rest = put_entry e m in
    if bytes_eq d.path e.path
    then e ∷ m
    else if path_less e.path d.path
    then e ∷ d ∷ m
    else d ∷ rest

unfoldable pub erase_entry : List ℕ → List WorkspaceEntry → List WorkspaceEntry
erase_entry p [] = []
erase_entry p (d ∷ m) = let rest = erase_entry p m in if bytes_eq d.path p then m else d ∷ rest

-- `emplace` of each entry: one that is there stays.
unfoldable pub emplace_each : List WorkspaceEntry → List WorkspaceEntry → List WorkspaceEntry
emplace_each m [] = m
emplace_each m (e ∷ es) = emplace_each (if has_entry e.path m then m else put_entry e m) es

unfoldable pub index_each : List WorkspaceEntry → List WorkspaceEntry → Result (List WorkspaceEntry)
index_each m [] = ok m
index_each m (e ∷ es) =
    let rest = index_each (put_entry e m) es in
    if has_entry e.path m then err invalid_argument else rest

abbrev pub indexed : WorkspaceManifest → Result (List WorkspaceEntry)
indexed m = index_each [] m.entries

abbrev pub is_empty_path : List ℕ → Bool
is_empty_path p = length p == 0

-- validate_manifest; `paths` are those that came before, `previous_path` the last of them.
unfoldable pub refuses_entry : List (List ℕ) → List ℕ → WorkspaceEntry → Bool
refuses_entry paths previous_path e =
    not (is_canonical_workspace_path e.path)
    || has_path paths e.path
    || not (is_empty_path previous_path) && not (path_less previous_path e.path)
    || entry_kind e.kind == 0 && not (is_sha256_hex e.content_hash)
    || entry_kind e.kind != 2 && not (is_empty_path e.symlink_target)
    || entry_kind e.kind == 2 && not (is_canonical_workspace_path e.symlink_target)

unfoldable pub validate_entries : List (List ℕ) → List ℕ → List WorkspaceEntry → Result (Unit {0})
validate_entries paths previous_path [] = ok tt
validate_entries paths previous_path (e ∷ es) =
    let rest = validate_entries (e.path ∷ paths) e.path es in
    if refuses_entry paths previous_path e then err invalid_argument else rest

unfoldable pub validate_manifest : WorkspaceManifest → Result (Unit {0})
validate_manifest m =
    throw_if (is_empty_path m.workspace_id || m.revision == 0) invalid_argument
    ⨾ validate_entries [] [] m.entries
