-- ===== src/Core/WorkspaceDiff.antt =====
-- core/src/workspace_sync.cpp: diff_manifests and apply_manifest_diff.
pub mod Steps
pub mod Changes
pub mod Applied
pub mod Transfer
use lan_pilot.Common.{
  if◌then◌else◌, ℕ, ok, err, true, false, none, some, [], ◌∷◌, List, Result, Option, Bool, bytes_eq,
  ◌==◌, ◌&&◌, not, invalid_argument, ◌++◌, ◌⨾◌, ◌||◌, throw_if, leb, logic_error,
}
use lan_pilot.Core.Workspace.{
  find_entry, WorkspaceEntry, WorkspaceManifest, indexed, entry_kind, has_entry, validate_manifest,
  emplace_each, same_entry, erase_entry, put_entry, is_empty_path, same_entries,
}
use lan_pilot.Core.Paths.{has_path}

pub data WorkspaceChangeKind : Type 0 where
  create update remove rename metadata : WorkspaceChangeKind

pub record WorkspaceChange : Type 0 where
  pub kind : WorkspaceChangeKind
  pub path : List ℕ
  pub previous_path : List ℕ

abbrev pub change_kind : WorkspaceChangeKind → ℕ
change_kind create = 0
change_kind update = 1
change_kind remove = 2
change_kind rename = 3
change_kind metadata = 4

unfoldable pub same_change : WorkspaceChange → WorkspaceChange → Bool
same_change a b =
    change_kind a.kind == change_kind b.kind
    && bytes_eq a.path b.path
    && bytes_eq a.previous_path b.previous_path

unfoldable pub same_changes : List WorkspaceChange → List WorkspaceChange → Bool
same_changes [] [] = true
same_changes (a ∷ xs) (b ∷ bs) = same_change a b && same_changes xs bs
same_changes _ _ = false

unfoldable pub equivalent_content : WorkspaceEntry → WorkspaceEntry → Bool
equivalent_content left right =
    entry_kind left.kind == 0
    && entry_kind right.kind == 0
    && left.size == right.size
    && not (is_empty_path left.content_hash)
    && bytes_eq left.content_hash right.content_hash

-- diff_manifests. The first entry of the destination that may be what the entry was renamed from.
unfoldable pub find_renamed :
    List WorkspaceEntry
    → List (List ℕ)
    → WorkspaceEntry
    → List WorkspaceEntry
    → Option WorkspaceEntry
find_renamed source_index consumed e [] = none
find_renamed source_index consumed e (d ∷ ds) =
    let rest = find_renamed source_index consumed e ds in
    if not (has_entry d.path source_index)
      && not (has_path consumed d.path)
      && equivalent_content e d
    then some d
    else rest

abbrev pub create_or_rename :
    List (List ℕ) → WorkspaceEntry → Option WorkspaceEntry → List (List ℕ) × List WorkspaceChange
create_or_rename consumed e none =
    (consumed, record { kind = create; path = e.path; previous_path = [] } ∷ [])
create_or_rename consumed e (some d) =
    (d.path ∷ consumed, record { kind = rename; path = e.path; previous_path = d.path } ∷ [])

abbrev pub update_kind : WorkspaceEntry → WorkspaceEntry → WorkspaceChangeKind
update_kind e old =
    if bytes_eq e.content_hash old.content_hash && e.size == old.size then metadata else update

-- The change for one entry of the source, if any, beside the paths consumed.
unfoldable pub source_change :
    List WorkspaceEntry
    → List WorkspaceEntry
    → List (List ℕ)
    → WorkspaceEntry
    → Option WorkspaceEntry
    → List (List ℕ) × List WorkspaceChange
source_change source_index destination_index consumed e none =
    create_or_rename consumed e (find_renamed source_index consumed e destination_index)
source_change source_index destination_index consumed e (some old) =
    if same_entry e old
    then (consumed, [])
    else (consumed, record { kind = update_kind e old; path = e.path; previous_path = [] } ∷ [])

module _ (source_index destination_index : List WorkspaceEntry) where
  unfoldable pub source_changes :
      List (List ℕ) → List WorkspaceEntry → List (List ℕ) × List WorkspaceChange
  source_changes consumed [] = (consumed, [])
  source_changes consumed (e ∷ es) =
      let c =
        source_change source_index destination_index consumed e
          (find_entry e.path destination_index) in
      let rest = source_changes c.0 es in (rest.0, c.1 ++ rest.1)

  unfoldable pub removals : List (List ℕ) → List WorkspaceEntry → List WorkspaceChange
  removals consumed [] = []
  removals consumed (d ∷ ds) =
      let rest = removals consumed ds in
      if has_entry d.path source_index || has_path consumed d.path
      then rest
      else record { kind = remove; path = d.path; previous_path = [] } ∷ rest

  abbrev pub indexed_changes : List WorkspaceChange
  indexed_changes = let c = source_changes [] source_index in c.1 ++ removals c.0 destination_index

abbrev pub diff_indexes :
    Result (List WorkspaceEntry) → Result (List WorkspaceEntry) → Result (List WorkspaceChange)
diff_indexes (ok s) (ok d) = ok (indexed_changes s d)
diff_indexes (ok s) (err x) = err x
diff_indexes (err x) d = err x

unfoldable pub diff_manifests :
    WorkspaceManifest → WorkspaceManifest → Result (List WorkspaceChange)
diff_manifests source destination =
    validate_manifest source
    ⨾ validate_manifest destination
    ⨾ throw_if
        (not (bytes_eq source.workspace_id destination.workspace_id)
          || leb source.revision destination.revision)
        invalid_argument
    ⨾ diff_indexes (indexed source) (indexed destination)

-- apply_manifest_diff: one change of the map, under the index of the source
abbrev pub put_found : Option WorkspaceEntry → List WorkspaceEntry → Result (List WorkspaceEntry)
put_found none m = err invalid_argument
put_found (some e) m = ok (put_entry e m)

abbrev pub erase_one : List ℕ → List WorkspaceEntry → Result (List WorkspaceEntry)
erase_one p m = if has_entry p m then ok (erase_entry p m) else err invalid_argument

abbrev pub put_after :
    Option WorkspaceEntry → Result (List WorkspaceEntry) → Result (List WorkspaceEntry)
put_after e (ok m) = put_found e m
put_after e (err x) = err x

unfoldable pub apply_change :
    List WorkspaceEntry → WorkspaceChange → List WorkspaceEntry → Result (List WorkspaceEntry)
apply_change source_index c m = elim c.kind [
  | remove ↦ erase_one c.path m
  | rename ↦ put_after (find_entry c.path source_index) (erase_one c.previous_path m)
  | create ↦ put_found (find_entry c.path source_index) m
  | update ↦ put_found (find_entry c.path source_index) m
  | metadata ↦ put_found (find_entry c.path source_index) m
]

-- A change after one that threw is not made.
unfoldable pub apply_after :
    List WorkspaceEntry
    → WorkspaceChange
    → Result (List WorkspaceEntry)
    → Result (List WorkspaceEntry)
apply_after source_index c (ok m) = apply_change source_index c m
apply_after source_index c (err x) = err x

unfoldable pub apply_changes :
    List WorkspaceEntry
    → List WorkspaceChange
    → Result (List WorkspaceEntry)
    → Result (List WorkspaceEntry)
apply_changes source_index [] m = m
apply_changes source_index (c ∷ cs) m = apply_changes source_index cs (apply_after source_index c m)

abbrev pub finish_apply :
    WorkspaceManifest → Result (List WorkspaceEntry) → Result WorkspaceManifest
finish_apply source (err x) = err x
finish_apply source (ok m) =
    let applied : WorkspaceManifest = record source { entries = m } in
    validate_manifest applied
    ⨾ throw_if (not (same_entries applied.entries source.entries)) logic_error
    ⨾ ok applied

abbrev pub apply_indexed :
    WorkspaceManifest
    → WorkspaceManifest
    → List WorkspaceChange
    → Result (List WorkspaceEntry)
    → Result WorkspaceManifest
apply_indexed source destination changes (err x) = err x
apply_indexed source destination changes (ok source_index) =
    finish_apply source
      (apply_changes source_index changes (ok (emplace_each [] destination.entries)))

abbrev pub apply_expected :
    WorkspaceManifest
    → WorkspaceManifest
    → List WorkspaceChange
    → Result (List WorkspaceChange)
    → Result WorkspaceManifest
apply_expected source destination changes (err x) = err x
apply_expected source destination changes (ok expected) =
    if same_changes changes expected
    then apply_indexed source destination changes (indexed source)
    else err invalid_argument

unfoldable pub apply_manifest_diff :
    WorkspaceManifest → WorkspaceManifest → List WorkspaceChange → Result WorkspaceManifest
apply_manifest_diff source destination changes =
    apply_expected source destination changes (diff_manifests source destination)
