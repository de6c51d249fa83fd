-- ===== src/Core/WorkspaceDiff/Applied.antt =====
-- apply_manifest_diff of core/src/workspace_sync.cpp, given the difference.
use lan_pilot.Common.{
  true, [], ◌∷◌, refl, List, ◌≡◌, Result, arith, bytes_eq_refl, ◌++◌, ℕ, Option, Option-cases, inl,
  ok, ◌∙◌, inr, ap, Bool-cases, ◌||◌,
}
use lan_pilot.Core.Workspace.Index.{Ascending}
use lan_pilot.Core.Workspace.{WorkspaceEntry, same_entries, find_entry, has_entry}
use lan_pilot.Core.WorkspaceDiff.{
  same_changes, apply_changes, same_change, WorkspaceChange, apply_after, removals, source_changes,
  indexed_changes, source_change, remove,
}
use lan_pilot.Core.WorkspaceDiff.Steps.{
  removing, same_entry_refl, bringing, bringing-removing, keep-removing,
}
use lan_pilot.Core.Paths.{has_path}
use lan_pilot.Core.WorkspaceDiff.Changes.{Leads, source_change-Leads, removed-Leads}
use lan_pilot.Core.Workspace.Index.{Within-Ascending, Within, same_lookups, Above-none}

apply_changes-append :
    (s : List WorkspaceEntry) (xs ys : List WorkspaceChange) (m : Result (List WorkspaceEntry))
    → apply_changes s (xs ++ ys) m ≡ apply_changes s ys (apply_changes s xs m)
unfolding apply_changes
apply_changes-append s [] ys m = refl
apply_changes-append s (x ∷ xs) ys m = apply_changes-append s xs ys (apply_after s x m)

same_changes_refl : (xs : List WorkspaceChange) → same_changes xs xs ≡ true
unfolding same_changes same_change
same_changes_refl [] = refl
same_changes_refl (x ∷ xs) =
    ground (arith, same_changes_refl xs, bytes_eq_refl x.path, bytes_eq_refl x.previous_path)

pub same_entries_refl : (xs : List WorkspaceEntry) → same_entries xs xs ≡ true
unfolding same_entries
same_entries_refl [] = refl
same_entries_refl (x ∷ xs) = ground (arith, same_entries_refl xs, same_entry_refl x)

Leads-append :
    (s m : List WorkspaceEntry) (cs ds : List WorkspaceChange)
    (f g : List ℕ → Option WorkspaceEntry)
    → (l : Leads s cs m f) → Leads s ds l.result g
    → Leads s (cs ++ ds) m g
Leads-append s m cs ds f g l k = record {
  result = k.result;
  runs = apply_changes-append s cs ds (ok m) ∙ ap (λ x. apply_changes s ds x) l.runs ∙ k.runs;
  ascending = k.ascending;
  holds = k.holds;
}

module _ (s d : List WorkspaceEntry) where
  source_changes-Leads :
      (consumed : List (List ℕ)) (es m : List WorkspaceEntry)
      → Ascending es
      → Within s es
      → Within d d
      → Ascending m
      → ((p : List ℕ) → find_entry p m ≡ bringing s d es consumed p)
      → Leads s
          (source_changes s d consumed es).1
          m
          (bringing s d [] (source_changes s d consumed es).0)
  unfolding source_changes apply_changes
  source_changes-Leads consumed [] m b i w a h = record {
    result = m;
    runs = refl;
    ascending = a;
    holds = h;
  }
  source_changes-Leads consumed (e ∷ es) m b i w a h =
      let none_left = Above-none e.path es b.0 in
      let step =
        source_change-Leads s d consumed e es m a i.0 none_left h (find_entry e.path d) refl w in
      let change = source_change s d consumed e (find_entry e.path d) in
      Leads-append s m change.1 (source_changes s d change.0 es).1 _ _ step
        (source_changes-Leads change.0 es step.result b.1 i.1 w step.ascending step.holds)

  removals-Leads :
      (consumed : List (List ℕ)) (ds m : List WorkspaceEntry)
      → Ascending ds
      → Within d ds
      → Ascending m
      → ((p : List ℕ) → find_entry p m ≡ removing s d ds consumed p)
      → Leads s (removals s d consumed ds) m (removing s d [] consumed)
  unfolding removals apply_changes
  removals-Leads consumed [] m b i a h = record {
    result = m;
    runs = refl;
    ascending = a;
    holds = h;
  }
  removals-Leads consumed (x ∷ ds) m b i a h =
      elim (Bool-cases (has_entry x.path s || has_path consumed x.path)) [
        | inl k ↦ rw k (
            removals-Leads consumed ds m b.1 i.1 a
              (λ p. keep-removing s d x ds m consumed p k (h p)))
        | inr k ↦
            let step = removed-Leads s d consumed x ds m a (Above-none x.path ds b.0) i.0 k h in
            rw k (
              Leads-append s m (record { kind = remove; path = x.path; previous_path = [] } ∷ [])
                (removals s d consumed ds) _ _ step
                (removals-Leads consumed ds step.result b.1 i.1 step.ascending step.holds))
      ]

  removed_all :
      (consumed : List (List ℕ)) (p : List ℕ) → removing s d [] consumed p ≡ find_entry p s
  unfolding find_entry
  removed_all consumed p = elim (Option-cases (find_entry p s)) [
    | inl i ↦ rw i refl
    | inr (x, i) ↦ rw i refl
  ]

  started : (p : List ℕ) → find_entry p d ≡ bringing s d s [] p
  unfolding find_entry has_path
  started p = ground arith

  -- The changes between two indexes make the one of the other.
  pub indexed_changes-applied :
      Ascending s → Ascending d → apply_changes s (indexed_changes s d) (ok d) ≡ ok s
  indexed_changes-applied a b =
      let c = source_changes s d [] s in
      let brings =
        source_changes-Leads [] s d a (Within-Ascending s a) (Within-Ascending d b) b started in
      let removes =
        removals-Leads c.0 d brings.result b (Within-Ascending d b) brings.ascending
          (λ p. brings.holds p ∙ bringing-removing s d c.0 p) in
      let all = Leads-append s d c.1 (removals s d c.0 d) _ _ brings removes in
      all.runs
      ∙ ap (λ x. ok x)
          (same_lookups all.result s all.ascending a (λ p. all.holds p ∙ removed_all c.0 p))
