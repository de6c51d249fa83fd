-- ===== src/Core/Tests/Workspaces.antt =====
-- Runs of the workspace manifests.
use lan_pilot.Common.{
  ℕ, [], ◌∷◌, refl, ok, err, invalid_argument, List, codes, replicate, ◌≡◌, bytes_eq,
}
use Prim.Native.String.{String}
use lan_pilot.Core.Workspace.{
  file, WorkspaceManifest, WorkspaceEntry, validate_manifest, validate_entries, refuses_entry,
  find_entry, put_entry, index_each, same_entry,
}
use lan_pilot.Core.WorkspaceDiff.{
  update, remove, rename, metadata, create, diff_manifests, WorkspaceChange, apply_manifest_diff,
  equivalent_content, find_renamed, source_change, source_changes, removals,
}
use lan_pilot.Core.WorkspaceDiff.Transfer.{by_difference, apply_manifest_diff_lem}
use lan_pilot.Core.Paths.{
  is_canonical_workspace_path, split_path, back, device_name, has_path, is_component, is_sha256_hex,
  path_less,
}

-- A hash of one digit over and over.
abbrev digits : ℕ → List ℕ
digits c = replicate 64 c

abbrev file_at : String → ℕ → ℕ → WorkspaceEntry
file_at path size digit = record {
  path = codes path;
  kind = file;
  size = size;
  content_hash = digits digit;
  mode = 420;
  symlink_target = [];
}

abbrev old_tree : WorkspaceManifest
old_tree = record {
  workspace_id = codes "main";
  revision = 3;
  entries =
      file_at "a.txt" 5 97
      ∷ file_at "b.txt" 6 98
      ∷ file_at "c.txt" 7 99
      ∷ file_at "d.txt" 8 100
      ∷ [];
}

-- `a.txt` was moved to `src/a.txt`, `b.txt` was changed, `c.txt` touched, `d.txt` removed and
-- `e.txt` made.
abbrev new_tree : WorkspaceManifest
new_tree = record {
  workspace_id = codes "main";
  revision = 4;
  entries =
      file_at "b.txt" 6 102
      ∷ record (file_at "c.txt" 7 99) { mode = 493 }
      ∷ file_at "e.txt" 1 101
      ∷ file_at "src/a.txt" 5 97
      ∷ [];
}

abbrev changes : List WorkspaceChange
changes =
    record { kind = update; path = codes "b.txt"; previous_path = [] }
    ∷ record { kind = metadata; path = codes "c.txt"; previous_path = [] }
    ∷ record { kind = create; path = codes "e.txt"; previous_path = [] }
    ∷ record { kind = rename; path = codes "src/a.txt"; previous_path = codes "a.txt" }
    ∷ record { kind = remove; path = codes "d.txt"; previous_path = [] }
    ∷ []

changes_found : diff_manifests new_tree old_tree ≡ ok changes
unfolding bytes_eq diff_manifests validate_manifest validate_entries refuses_entry
    is_canonical_workspace_path split_path back device_name has_path is_component is_sha256_hex
    path_less find_entry put_entry index_each same_entry equivalent_content find_renamed
    source_change source_changes removals
changes_found = refl

apply_manifest_diff_lem_example :
    apply_manifest_diff new_tree old_tree changes
    ≡ by_difference new_tree changes (diff_manifests new_tree old_tree)
apply_manifest_diff_lem_example = apply_manifest_diff_lem new_tree old_tree changes

-- The other way round the revision goes back.
not_backwards : diff_manifests old_tree new_tree ≡ err invalid_argument
unfolding bytes_eq diff_manifests validate_manifest validate_entries refuses_entry
    is_canonical_workspace_path split_path back device_name has_path is_component is_sha256_hex
    path_less
not_backwards = refl
