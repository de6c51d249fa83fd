-- ===== src/Core/WorkspaceDiff/Changes.antt =====
-- The changes of diff_manifests for one entry, of core/src/workspace_sync.cpp.
use lan_pilot.Common.{
  ℕ, ok, false, none, some, [], ◌∷◌, refl, List, ◌≡◌, Option, arith, Bool-cases, not, ◌∙◌, ◌&&◌, ap,
  inl, subst, inr, ◌||◌, bytes_eq, ◌==◌, sym,
}
use lan_pilot.Core.Workspace.{
  WorkspaceEntry, find_entry, has_entry, put_entry, erase_entry, same_entry,
}
use lan_pilot.Core.Workspace.Index.{Ascending-put, Ascending-erase, Ascending, Within, find-first}
use lan_pilot.Core.WorkspaceDiff.{
  remove, find_renamed, rename, apply_changes, WorkspaceChange, apply_after, apply_change,
  put_found, equivalent_content, source_change, create_or_rename, update_kind,
}
use lan_pilot.Core.WorkspaceDiff.Steps.{
  bringing, keep-bringing, put-bringing, rename-bringing, removing, same_entry_sound,
  erase-removing,
}
use lan_pilot.Core.Paths.{has_path}

-- The changes bring a map to one with the given lookups.
pub record Leads (s : List WorkspaceEntry) (cs : List WorkspaceChange) (m : List WorkspaceEntry)
    (f : List ℕ → Option WorkspaceEntry) : Type 0 where
  pub result : List WorkspaceEntry
  pub runs : apply_changes s cs (ok m) ≡ ok result
  pub ascending : Ascending result
  pub holds : (p : List ℕ) → find_entry p result ≡ f p

module _ (s d : List WorkspaceEntry) (consumed : List (List ℕ)) where
  abbrev IsOld : WorkspaceEntry → Type 0
  IsOld x =
      (has_entry x.path s ≡ false)
      × (has_path consumed x.path ≡ false)
      × (find_entry x.path d ≡ some x)

  find_renamed-IsOld :
      (e old : WorkspaceEntry) (ds : List WorkspaceEntry)
      → Within d ds
      → find_renamed s consumed e ds ≡ some old
      → IsOld old
  unfolding find_renamed
  find_renamed-IsOld e old [] w h = absurd (ground (arith, h))
  find_renamed-IsOld e old (x ∷ ds) w h =
      elim (Bool-cases
        (not (has_entry x.path s) && not (has_path consumed x.path) && equivalent_content e x)) [
          | inl k ↦
              let same : x ≡ old = ground (arith, h, k) in
              subst IsOld same (ground (arith, k), ground (arith, k), w.0)
          | inr k ↦ find_renamed-IsOld e old ds w.1 (ground (arith, h, k))
        ]

  module _ (e : WorkspaceEntry) (es m : List WorkspaceEntry) (a : Ascending m)
      (i : find_entry e.path s ≡ some e) (n : find_entry e.path es ≡ none)
      (h : (p : List ℕ) → find_entry p m ≡ bringing s d (e ∷ es) consumed p) where
    put-Leads :
        (c : WorkspaceChange)
        → apply_change s c m ≡ put_found (find_entry e.path s) m
        → Leads s (c ∷ []) m (bringing s d es consumed)
    unfolding apply_changes apply_after
    put-Leads c r = record {
      result = put_entry e m;
      runs = r ∙ ap (λ x. put_found x m) i;
      ascending = Ascending-put e m a;
      holds = λ p. put-bringing s d e es m consumed p i n (h p);
    }

    rename-Leads :
        (old : WorkspaceEntry)
        → IsOld old
        → Leads s
            (record { kind = rename; path = e.path; previous_path = old.path } ∷ [])
            m
            (bringing s d es (old.path ∷ consumed))
    unfolding apply_changes apply_after apply_change
    rename-Leads old o =
        let there : find_entry old.path m ≡ some old = h old.path ∙ rw (o.0, o.1) o.2 in
        record {
          result = put_entry e (erase_entry old.path m);
          runs = rw (there, i) refl;
          ascending = Ascending-put e (erase_entry old.path m) (Ascending-erase old.path m a);
          holds = λ p. rename-bringing s d e es m consumed old.path p a i n o.0 (h p);
        }

    keep-Leads : find_entry e.path d ≡ some e → Leads s [] m (bringing s d es consumed)
    unfolding apply_changes
    keep-Leads k = record {
      result = m;
      runs = refl;
      ascending = a;
      holds = λ p. keep-bringing s d e es m consumed p i n k (h p);
    }

    created_or_renamed-Leads :
        (o : Option WorkspaceEntry)
        → find_renamed s consumed e d ≡ o
        → Within d d
        → Leads s
            (create_or_rename consumed e o).1
            m
            (bringing s d es (create_or_rename consumed e o).0)
    unfolding apply_change
    created_or_renamed-Leads none r w = put-Leads _ refl
    created_or_renamed-Leads (some old) r w = rename-Leads old (find_renamed-IsOld e old d w r)

    apply-update :
        (x : WorkspaceEntry)
        → apply_change s (record { kind = update_kind e x; path = e.path; previous_path = [] }) m
          ≡ put_found (find_entry e.path s) m
    unfolding apply_change
    apply-update x =
        elim (Bool-cases (bytes_eq e.content_hash x.content_hash && e.size == x.size)) [
          | inl k ↦ rw k refl
          | inr k ↦ rw k refl
        ]

    pub source_change-Leads :
        (o : Option WorkspaceEntry)
        → find_entry e.path d ≡ o
        → Within d d
        → Leads s
            (source_change s d consumed e o).1
            m
            (bringing s d es (source_change s d consumed e o).0)
    unfolding source_change
    source_change-Leads none r w = created_or_renamed-Leads (find_renamed s consumed e d) refl w
    source_change-Leads (some x) r w = elim (Bool-cases (same_entry e x)) [
      | inl k ↦ rw k (keep-Leads (r ∙ ap (λ y. some y) (sym (same_entry_sound e x k))))
      | inr k ↦ rw k (put-Leads _ (apply-update x))
    ]

  pub removed-Leads :
      (x : WorkspaceEntry) (ds m : List WorkspaceEntry)
      → Ascending m
      → find_entry x.path ds ≡ none
      → find_entry x.path d ≡ some x
      → (has_entry x.path s || has_path consumed x.path) ≡ false
      → ((p : List ℕ) → find_entry p m ≡ removing s d (x ∷ ds) consumed p)
      → Leads s
          (record { kind = remove; path = x.path; previous_path = [] } ∷ [])
          m
          (removing s d ds consumed)
  unfolding apply_changes apply_after apply_change
  removed-Leads x ds m a n i g h =
      let away : has_entry x.path s ≡ false = ground (arith, g) in
      let kept : has_path consumed x.path ≡ false = ground (arith, g) in
      let there : find_entry x.path m ≡ some x = h x.path ∙ rw (away, kept, find-first x ds) i in
      record {
        result = erase_entry x.path m;
        runs = rw there refl;
        ascending = Ascending-erase x.path m a;
        holds = λ p. erase-removing s d x ds m consumed p a away n (h p);
      }
