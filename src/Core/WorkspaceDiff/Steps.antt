-- ===== src/Core/WorkspaceDiff/Steps.antt =====
-- What one change of apply_manifest_diff, of core/src/workspace_sync.cpp, does to the map.
use lan_pilot.Common.{
  if◌then◌else◌, ℕ, zero, suc, true, false, none, some, [], ◌∷◌, refl, List, Option, ◌≡◌, arith,
  bytes_eq_refl, inl, ◌&&◌, bytes_eq_sound, not, inr, ◌||◌, subst, Option-cases, ◌∙◌, sym, ap,
}
use lan_pilot.Core.Workspace.{
  file, directory, symlink, WorkspaceEntry, find_entry, WorkspaceEntryKind, same_entry, entry_kind,
  has_entry, put_entry, erase_entry,
}
use lan_pilot.Core.Workspace.Index.{Ascending, find-put_entry, find-first, find-erase_entry}
use lan_pilot.Core.Paths.{has_path}
use lan_pilot.Core.Paths.Order.{path-cases, same-path}

abbrev kind_of : ℕ → WorkspaceEntryKind
kind_of zero = file
kind_of (suc zero) = directory
kind_of (suc (suc n)) = symlink

kind_of-entry_kind : (a : WorkspaceEntryKind) → kind_of (entry_kind a) ≡ a
kind_of-entry_kind file = refl
kind_of-entry_kind directory = refl
kind_of-entry_kind symlink = refl

entry_kind_injective : (a b : WorkspaceEntryKind) → entry_kind a ≡ entry_kind b → a ≡ b
entry_kind_injective a b h = sym (kind_of-entry_kind a) ∙ ap kind_of h ∙ kind_of-entry_kind b

pub same_entry_sound : (a b : WorkspaceEntry) → same_entry a b ≡ true → a ≡ b
unfolding same_entry
same_entry_sound a b h = ground (
  arith,
  h,
  bytes_eq_sound a.path b.path,
  bytes_eq_sound a.content_hash b.content_hash,
  bytes_eq_sound a.symlink_target b.symlink_target,
  entry_kind_injective a.kind b.kind,
)

pub same_entry_refl : (a : WorkspaceEntry) → same_entry a a ≡ true
unfolding same_entry
same_entry_refl a =
    ground
      (arith, bytes_eq_refl a.path, bytes_eq_refl a.content_hash, bytes_eq_refl a.symlink_target)

module _ (source destination : List WorkspaceEntry) where
  -- What the map has under a path while the entries `es` are still to be brought over.
  abbrev pub bringing : List WorkspaceEntry → List (List ℕ) → List ℕ → Option WorkspaceEntry
  bringing es consumed p =
      if has_entry p source
      then if has_entry p es then find_entry p destination else find_entry p source
      else if has_path consumed p
      then none
      else find_entry p destination

  -- And while those of `ds` that are no longer there are still to be removed.
  abbrev pub removing : List WorkspaceEntry → List (List ℕ) → List ℕ → Option WorkspaceEntry
  removing ds consumed p =
      if has_entry p source
      then find_entry p source
      else if has_entry p ds && not (has_path consumed p)
      then find_entry p destination
      else none

  -- An entry that is brought over, and one that still has to be but is there already.
  brought :
      (e : WorkspaceEntry) (es : List WorkspaceEntry) (consumed : List (List ℕ)) (p : List ℕ)
      → find_entry e.path source ≡ some e
      → find_entry e.path es ≡ none
      → e.path ≡ p
      → bringing es consumed p ≡ some e
  brought e es consumed p s n i = subst (λ r. bringing es consumed r ≡ some e) i (rw (s, n) refl)

  there_already :
      (e : WorkspaceEntry) (es : List WorkspaceEntry) (consumed : List (List ℕ)) (p : List ℕ)
      → find_entry e.path source ≡ some e
      → find_entry e.path destination ≡ some e
      → e.path ≡ p
      → bringing (e ∷ es) consumed p ≡ some e
  there_already e es consumed p s d i =
      subst (λ r. bringing (e ∷ es) consumed r ≡ some e) i (rw (s, find-first e es, d) refl)

  pub put-bringing :
      (e : WorkspaceEntry) (es m : List WorkspaceEntry) (consumed : List (List ℕ)) (p : List ℕ)
      → find_entry e.path source ≡ some e
      → find_entry e.path es ≡ none
      → find_entry p m ≡ bringing (e ∷ es) consumed p
      → find_entry p (put_entry e m) ≡ bringing es consumed p
  unfolding find_entry
  put-bringing e es m consumed p s n h = elim (path-cases e.path p) [
    | inl i ↦ rw (find-put_entry p e m, same-path e.path p i) (sym (brought e es consumed p s n i))
    | inr i ↦ ground (arith, find-put_entry p e m, i, h)
  ]

  pub rename-bringing :
      (e : WorkspaceEntry) (es m : List WorkspaceEntry) (consumed : List (List ℕ)) (q p : List ℕ)
      → Ascending m
      → find_entry e.path source ≡ some e
      → find_entry e.path es ≡ none
      → has_entry q source ≡ false
      → find_entry p m ≡ bringing (e ∷ es) consumed p
      → find_entry p (put_entry e (erase_entry q m)) ≡ bringing es (q ∷ consumed) p
  unfolding find_entry has_path
  rename-bringing e es m consumed q p a s n g h = elim (path-cases e.path p) [
    | inl i ↦
        rw (find-put_entry p e (erase_entry q m), same-path e.path p i)
          (sym (brought e es (q ∷ consumed) p s n i))
    | inr i ↦ elim (path-cases q p) [
      | inl j ↦
          let k : has_entry p source ≡ false = subst (λ r. has_entry r source ≡ false) j g in
          ground (
            arith,
            find-put_entry p e (erase_entry q m),
            find-erase_entry p q m a,
            i,
            k,
            same-path q p j,
          )
      | inr j ↦
          ground (arith, find-put_entry p e (erase_entry q m), find-erase_entry p q m a, i, j, h)
    ]
  ]

  pub keep-bringing :
      (e : WorkspaceEntry) (es m : List WorkspaceEntry) (consumed : List (List ℕ)) (p : List ℕ)
      → find_entry e.path source ≡ some e
      → find_entry e.path es ≡ none
      → find_entry e.path destination ≡ some e
      → find_entry p m ≡ bringing (e ∷ es) consumed p
      → find_entry p m ≡ bringing es consumed p
  unfolding find_entry
  keep-bringing e es m consumed p s n d h = elim (path-cases e.path p) [
    | inl i ↦ h ∙ there_already e es consumed p s d i ∙ sym (brought e es consumed p s n i)
    | inr i ↦ ground (arith, i, h)
  ]

  pub bringing-removing :
      (consumed : List (List ℕ)) (p : List ℕ)
      → bringing [] consumed p ≡ removing destination consumed p
  unfolding find_entry
  bringing-removing consumed p = elim (Option-cases (find_entry p destination)) [
    | inl i ↦ ground (arith, i)
    | inr (d, i) ↦ ground (arith, i)
  ]

  pub erase-removing :
      (d : WorkspaceEntry) (ds m : List WorkspaceEntry) (consumed : List (List ℕ)) (p : List ℕ)
      → Ascending m
      → has_entry d.path source ≡ false
      → find_entry d.path ds ≡ none
      → find_entry p m ≡ removing (d ∷ ds) consumed p
      → find_entry p (erase_entry d.path m) ≡ removing ds consumed p
  unfolding find_entry
  erase-removing d ds m consumed p a g n h = elim (path-cases d.path p) [
    | inl i ↦
        let k : removing ds consumed p ≡ none =
          subst (λ r. removing ds consumed r ≡ none) i (rw (g, n) refl) in
        ground (arith, find-erase_entry p d.path m a, k, same-path d.path p i)
    | inr i ↦ ground (arith, find-erase_entry p d.path m a, i, h)
  ]

  pub keep-removing :
      (d : WorkspaceEntry) (ds m : List WorkspaceEntry) (consumed : List (List ℕ)) (p : List ℕ)
      → (has_entry d.path source || has_path consumed d.path) ≡ true
      → find_entry p m ≡ removing (d ∷ ds) consumed p
      → find_entry p m ≡ removing ds consumed p
  unfolding find_entry
  keep-removing d ds m consumed p g h = elim (path-cases d.path p) [
    | inl i ↦
        let k : (has_entry p source || has_path consumed p) ≡ true =
          subst (λ r. (has_entry r source || has_path consumed r) ≡ true) i g in
        ground (arith, h, k)
    | inr i ↦ ground (arith, h, i)
  ]
