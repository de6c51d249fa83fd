-- ===== src/Core/WorkspaceDiff/Transfer.antt =====
-- diff_manifests and apply_manifest_diff of core/src/workspace_sync.cpp, together.
use lan_pilot.Common.{
  if◌then◌else◌, ℕ, zero, suc, ok, err, true, [], ◌∷◌, refl, List, ◌≡◌, arith, ⨾-eq-ok, Result, sym,
  bytes_eq_sound, ◌∙◌, invalid_argument, Bool-cases, ap, inl, inr,
}
use lan_pilot.Core.Workspace.{WorkspaceManifest, indexed, validate_manifest}
use lan_pilot.Core.Workspace.Index.{Ascending}
use lan_pilot.Core.WorkspaceDiff.{
  create, update, remove, rename, metadata, diff_manifests, apply_manifest_diff, same_changes,
  same_change, WorkspaceChangeKind, WorkspaceChange, finish_apply, change_kind, indexed_changes,
  apply_indexed, apply_expected,
}
use lan_pilot.Core.Workspace.Validated.{
  index_each-Ascending, validate_manifest-Ascending, emplace_each-Ascending, Follows-nil,
}
use lan_pilot.Core.WorkspaceDiff.Applied.{indexed_changes-applied, same_entries_refl}

abbrev change_kind_of : ℕ → WorkspaceChangeKind
change_kind_of zero = create
change_kind_of (suc zero) = update
change_kind_of (suc (suc zero)) = remove
change_kind_of (suc (suc (suc zero))) = rename
change_kind_of (suc (suc (suc (suc n)))) = metadata

change_kind_of-change_kind : (k : WorkspaceChangeKind) → change_kind_of (change_kind k) ≡ k
change_kind_of-change_kind create = refl
change_kind_of-change_kind update = refl
change_kind_of-change_kind remove = refl
change_kind_of-change_kind rename = refl
change_kind_of-change_kind metadata = refl

change_kind_injective : (j k : WorkspaceChangeKind) → change_kind j ≡ change_kind k → j ≡ k
change_kind_injective j k h =
    sym (change_kind_of-change_kind j) ∙ ap change_kind_of h ∙ change_kind_of-change_kind k

same_change_sound : (a b : WorkspaceChange) → same_change a b ≡ true → a ≡ b
unfolding same_change
same_change_sound a b h = ground (
  arith,
  h,
  bytes_eq_sound a.path b.path,
  bytes_eq_sound a.previous_path b.previous_path,
  change_kind_injective a.kind b.kind,
)

same_changes_sound : (xs ys : List WorkspaceChange) → same_changes xs ys ≡ true → xs ≡ ys
unfolding same_changes
same_changes_sound [] [] h = refl
same_changes_sound [] (y ∷ ys) h = ground (arith, h)
same_changes_sound (x ∷ xs) [] h = ground (arith, h)
same_changes_sound (x ∷ xs) (y ∷ ys) h =
    ground (arith, h, same_change_sound x y, same_changes_sound xs ys)

pub indexed-Ascending : (m : WorkspaceManifest) → Ascending m.entries → indexed m ≡ ok m.entries
indexed-Ascending m a = index_each-Ascending [] m.entries (Follows-nil m.entries) a

-- A difference that is given is of manifests that are valid.
record Comparable (source destination : WorkspaceManifest) : Type 0 where
  source_valid : validate_manifest source ≡ ok tt
  destination_valid : validate_manifest destination ≡ ok tt

diff-Comparable :
    (source destination : WorkspaceManifest) (changes : List WorkspaceChange)
    → diff_manifests source destination ≡ ok changes
    → Comparable source destination
unfolding diff_manifests
diff-Comparable source destination changes h =
    let parts = ⨾-eq-ok (validate_manifest source) _ h in
    record {
      source_valid = parts.0;
      destination_valid = (⨾-eq-ok (validate_manifest destination) _ parts.1).0;
    }

diff-changes :
    (source destination : WorkspaceManifest) (changes : List WorkspaceChange)
    → diff_manifests source destination ≡ ok changes
    → changes ≡ indexed_changes source.entries destination.entries
unfolding diff_manifests
diff-changes source destination changes h =
    let c = diff-Comparable source destination changes h in
    let s = indexed-Ascending source (validate_manifest-Ascending source c.source_valid) in
    let d =
      indexed-Ascending destination (validate_manifest-Ascending destination c.destination_valid) in
    ground (arith, h, s, d, c.source_valid, c.destination_valid)

finish_apply-entries :
    (source : WorkspaceManifest)
    → validate_manifest source ≡ ok tt
    → finish_apply source (ok source.entries) ≡ ok source
finish_apply-entries source v = rw (v, same_entries_refl source.entries) refl

apply_indexed-diff :
    (source destination : WorkspaceManifest) (changes : List WorkspaceChange)
    → diff_manifests source destination ≡ ok changes
    → apply_indexed source destination changes (indexed source) ≡ ok source
apply_indexed-diff source destination changes h =
    let c = diff-Comparable source destination changes h in
    let a = validate_manifest-Ascending source c.source_valid in
    let b = validate_manifest-Ascending destination c.destination_valid in
    rw
      (
        indexed-Ascending source a,
        emplace_each-Ascending [] destination.entries (Follows-nil destination.entries) b,
        diff-changes source destination changes h,
        indexed_changes-applied source.entries destination.entries a b,
      )
      (finish_apply-entries source c.source_valid)

-- What apply_manifest_diff answers, by the difference of the manifests.
abbrev pub by_difference :
    WorkspaceManifest
    → List WorkspaceChange
    → Result (List WorkspaceChange)
    → Result WorkspaceManifest
by_difference source changes (err x) = err x
by_difference source changes (ok expected) =
    if same_changes changes expected then ok source else err invalid_argument

by_expected :
    (source destination : WorkspaceManifest) (changes : List WorkspaceChange)
    (r : Result (List WorkspaceChange))
    → diff_manifests source destination ≡ r
    → apply_expected source destination changes r ≡ by_difference source changes r
by_expected source destination changes (err x) h = refl
by_expected source destination changes (ok expected) h =
    elim (Bool-cases (same_changes changes expected)) [
      | inl k ↦
          let same = same_changes_sound changes expected k in
          rw k (apply_indexed-diff source destination changes (h ∙ ap (λ x. ok x) (sym same)))
      | inr k ↦ rw k refl
    ]

-- apply_manifest_diff makes the manifest of the source of that of the destination, whenever the
-- changes are the difference of the two; it throws invalid_argument for any other changes, and whatever
-- diff_manifests throws where that throws. So it never throws anything else, and no change of a
-- difference refers to an entry that is missing.
pub apply_manifest_diff_lem :
    (source destination : WorkspaceManifest) (changes : List WorkspaceChange)
    → apply_manifest_diff source destination changes
      ≡ by_difference source changes (diff_manifests source destination)
unfolding apply_manifest_diff
apply_manifest_diff_lem source destination changes =
    by_expected source destination changes (diff_manifests source destination) refl
