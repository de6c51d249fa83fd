-- ===== src/Core/Workspace/Validated.antt =====
-- The entries of a manifest that validate_manifest of core/src/workspace_sync.cpp accepts.
use lan_pilot.Common.{
  ℕ, ok, true, false, none, [], ◌∷◌, refl, List, ◌≡◌, ◌++◌, arith, ◌⊎◌, append-nil, ◌∙◌, ap,
  append_assoc,
}
use lan_pilot.Core.Paths.{path_less, is_canonical_workspace_path}
use lan_pilot.Core.Workspace.{
  WorkspaceEntry, find_entry, refuses_entry, index_each, validate_manifest, put_entry,
  validate_entries, emplace_each, is_empty_path, WorkspaceManifest,
}
use lan_pilot.Core.Workspace.Index.{Ascending, Above, Above-less}
use lan_pilot.Core.Paths.Order.{path_less_trans, less-apart, less-not}

-- Every path of the map is less than `p`.
abbrev Below : List WorkspaceEntry → List ℕ → Type 0
Below [] p = Unit {0}
Below (e ∷ m) p = (path_less e.path p ≡ true) × Below m p

abbrev Follows : List WorkspaceEntry → List WorkspaceEntry → Type 0
Follows m [] = Unit {0}
Follows m (e ∷ es) = Below m e.path

Below-less : (m : List WorkspaceEntry) (p q : List ℕ) → path_less p q ≡ true → Below m p → Below m q
Below-less [] p q h b = tt
Below-less (e ∷ m) p q h b = (path_less_trans e.path p q b.0 h, Below-less m p q h b.1)

Below-append :
    (m : List WorkspaceEntry) (e : WorkspaceEntry) (q : List ℕ)
    → path_less e.path q ≡ true
    → Below m e.path
    → Below (m ++ e ∷ []) q
Below-append [] e q h b = (h, tt)
Below-append (d ∷ m) e q h b = (path_less_trans d.path e.path q b.0 h, Below-append m e q h b.1)

Below-find : (m : List WorkspaceEntry) (p : List ℕ) → Below m p → find_entry p m ≡ none
unfolding find_entry
Below-find [] p b = refl
Below-find (e ∷ m) p b = rw (less-apart e.path p b.0) (Below-find m p b.1)

put_last :
    (m : List WorkspaceEntry) (e : WorkspaceEntry) → Below m e.path → put_entry e m ≡ m ++ e ∷ []
unfolding put_entry
put_last [] e b = refl
put_last (d ∷ m) e b =
    rw (less-apart d.path e.path b.0, less-not d.path e.path b.0, put_last m e b.1) refl

step-Follows :
    (m : List WorkspaceEntry) (e : WorkspaceEntry) (es : List WorkspaceEntry)
    → Below m e.path
    → Above e.path es
    → Follows (m ++ e ∷ []) es
step-Follows m e [] b a = tt
step-Follows m e (d ∷ es) b a = Below-append m e d.path a.0 b

pub index_each-Ascending :
    (m es : List WorkspaceEntry) → Follows m es → Ascending es → index_each m es ≡ ok (m ++ es)
unfolding index_each
index_each-Ascending m [] f a = rw (append-nil m)
index_each-Ascending m (e ∷ es) f a =
    rw (Below-find m e.path f, put_last m e f)
      (index_each-Ascending (m ++ e ∷ []) es (step-Follows m e es f a.0) a.1
        ∙ ap (λ x. ok x) (append_assoc m (e ∷ []) es))

pub emplace_each-Ascending :
    (m es : List WorkspaceEntry) → Follows m es → Ascending es → emplace_each m es ≡ m ++ es
unfolding emplace_each
emplace_each-Ascending m [] f a = rw (append-nil m)
emplace_each-Ascending m (e ∷ es) f a =
    rw (Below-find m e.path f, put_last m e f)
      (emplace_each-Ascending (m ++ e ∷ []) es (step-Follows m e es f a.0) a.1
        ∙ append_assoc m (e ∷ []) es)

canonical-not_empty : (p : List ℕ) → is_canonical_workspace_path p ≡ true → is_empty_path p ≡ false
unfolding is_canonical_workspace_path
canonical-not_empty [] h = absurd (ground (arith, h))
canonical-not_empty (c ∷ p) h = ground arith

accepted_entry :
    (paths : List (List ℕ)) (previous : List ℕ) (e : WorkspaceEntry)
    → refuses_entry paths previous e ≡ false
    → (is_empty_path e.path ≡ false)
      × ((is_empty_path previous ≡ true) ⊎ (path_less previous e.path ≡ true))
unfolding refuses_entry
accepted_entry paths previous e h =
    (canonical-not_empty e.path (ground (arith, h)), ground (arith, h))

pub validate_entries-Ascending :
    (paths : List (List ℕ)) (previous : List ℕ) (es : List WorkspaceEntry)
    → is_empty_path previous ≡ false
    → validate_entries paths previous es ≡ ok tt
    → Above previous es × Ascending es
unfolding validate_entries
validate_entries-Ascending paths previous [] n h = (tt, tt)
validate_entries-Ascending paths previous (e ∷ es) n h =
    let accepted : refuses_entry paths previous e ≡ false = ground (arith, h) in
    let facts = accepted_entry paths previous e accepted in
    let rest = validate_entries-Ascending (e.path ∷ paths) e.path es facts.0 (ground (arith, h)) in
    let less : path_less previous e.path ≡ true = ground (arith, facts.1, n) in
    ((less, Above-less previous e.path es less rest.0), rest)

pub entries-Ascending :
    (es : List WorkspaceEntry) → validate_entries [] [] es ≡ ok tt → Ascending es
unfolding validate_entries
entries-Ascending [] h = tt
entries-Ascending (e ∷ es) h =
    let accepted : refuses_entry [] [] e ≡ false = ground (arith, h) in
    validate_entries-Ascending (e.path ∷ []) e.path es (accepted_entry [] [] e accepted).0
      (ground (arith, h))

pub validate_manifest-Ascending :
    (m : WorkspaceManifest) → validate_manifest m ≡ ok tt → Ascending m.entries
unfolding validate_manifest
validate_manifest-Ascending m h = entries-Ascending m.entries (ground (arith, h))

pub Follows-nil : (es : List WorkspaceEntry) → Follows [] es
Follows-nil [] = tt
Follows-nil (e ∷ es) = tt
