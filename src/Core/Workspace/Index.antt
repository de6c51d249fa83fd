-- ===== src/Core/Workspace/Index.antt =====
-- The index of a manifest's entries by their paths, of core/src/workspace_sync.cpp.
use lan_pilot.Common.{
  if◌then◌else◌, ℕ, true, false, none, some, [], ◌∷◌, refl, List, arith, Bool-cases, ◌≡◌, inl,
  bytes_eq, inr, bytes_eq_sound, ap, subst, bytes_eq_refl, sym, ap₂, ◌∙◌, All,
}
use lan_pilot.Core.Paths.{path_less}
use lan_pilot.Core.Paths.Order.{
  path_less_trans, path-cases, less-differ, path_less_total, same-path, less-not, less-apart,
}
use lan_pilot.Core.Workspace.{WorkspaceEntry, find_entry, erase_entry, put_entry}

-- Every path of the map is greater than `p`.
abbrev pub Above : List ℕ → List WorkspaceEntry → Type 0
Above p [] = Unit {0}
Above p (e ∷ m) = (path_less p e.path ≡ true) × Above p m

abbrev pub Ascending : List WorkspaceEntry → Type 0
Ascending [] = Unit {0}
Ascending (e ∷ m) = Above e.path m × Ascending m

pub find_entry-path :
    (p : List ℕ) (m : List WorkspaceEntry) (e : WorkspaceEntry)
    → find_entry p m ≡ some e
    → e.path ≡ p
unfolding find_entry
find_entry-path p [] e h = absurd (ground arith)
find_entry-path p (d ∷ m) e h = elim (Bool-cases (bytes_eq d.path p)) [
  | inl k ↦
      let q : d.path ≡ p = bytes_eq_sound d.path p k in
      let same : d ≡ e = ground (arith, h, k) in ap (λ x. x.path) (sym same) ∙ q
  | inr k ↦ find_entry-path p m e (ground (arith, h, k))
]

pub Above-less :
    (p q : List ℕ) (m : List WorkspaceEntry) → path_less p q ≡ true → Above q m → Above p m
Above-less p q [] h a = tt
Above-less p q (e ∷ m) h a = (path_less_trans p q e.path h a.0, Above-less p q m h a.1)

pub Above-none : (p : List ℕ) (m : List WorkspaceEntry) → Above p m → find_entry p m ≡ none
unfolding find_entry
Above-none p [] a = refl
Above-none p (e ∷ m) a = rw (less-differ p e.path a.0) (Above-none p m a.1)

pub Above-find :
    (p q : List ℕ) (m : List WorkspaceEntry) (e : WorkspaceEntry)
    → Above p m
    → find_entry q m ≡ some e
    → path_less p q ≡ true
unfolding find_entry
Above-find p q [] e a h = absurd (ground arith)
Above-find p q (d ∷ m) e a h = elim (path-cases d.path q) [
  | inl k ↦ subst (λ r. path_less p r ≡ true) k a.0
  | inr k ↦ Above-find p q m e a.1 (ground (arith, h, k))
]

pub Above-put :
    (p : List ℕ) (e : WorkspaceEntry) (m : List WorkspaceEntry)
    → path_less p e.path ≡ true
    → Above p m
    → Above p (put_entry e m)
unfolding put_entry
Above-put p e [] h a = (h, tt)
Above-put p e (d ∷ m) h a = ground (arith, Above-put p e m h a.1, a.0, a.1)

pub Above-erase : (p q : List ℕ) (m : List WorkspaceEntry) → Above p m → Above p (erase_entry q m)
unfolding erase_entry
Above-erase p q [] a = tt
Above-erase p q (d ∷ m) a = ground (arith, Above-erase p q m a.1, a.0, a.1)

pub Ascending-put :
    (e : WorkspaceEntry) (m : List WorkspaceEntry) → Ascending m → Ascending (put_entry e m)
unfolding put_entry
Ascending-put e [] h = (tt, tt)
Ascending-put e (d ∷ m) h = elim (Bool-cases (bytes_eq d.path e.path)) [
  | inl k ↦ rw k (subst (λ r. Above r m) (bytes_eq_sound d.path e.path k) h.0, h.1)
  | inr k ↦ elim (path_less_total e.path d.path) [
    | inl i ↦ absurd (ground (arith, k, same-path d.path e.path (sym i)))
    | inr (inl i) ↦ rw (k, i) ((i, Above-less e.path d.path m i h.0), h)
    | inr (inr i) ↦
        rw (k, less-not d.path e.path i) (Above-put d.path e m i h.0, Ascending-put e m h.1)
  ]
]

pub Ascending-erase :
    (q : List ℕ) (m : List WorkspaceEntry) → Ascending m → Ascending (erase_entry q m)
unfolding erase_entry
Ascending-erase q [] h = tt
Ascending-erase q (d ∷ m) h = elim (Bool-cases (bytes_eq d.path q)) [
  | inl k ↦ rw k h.1
  | inr k ↦ rw k (Above-erase d.path q m h.0, Ascending-erase q m h.1)
]

pub find-put_entry :
    (p : List ℕ) (e : WorkspaceEntry) (m : List WorkspaceEntry)
    → find_entry p (put_entry e m) ≡ (if bytes_eq e.path p then some e else find_entry p m)
unfolding find_entry put_entry
find-put_entry p e [] = refl
find-put_entry p e (d ∷ m) = elim (Bool-cases (bytes_eq d.path e.path)) [
  | inl k ↦
      let q : bytes_eq d.path p ≡ bytes_eq e.path p =
        ap (λ r. bytes_eq r p) (bytes_eq_sound d.path e.path k) in
      ground (arith, k, q)
  | inr k ↦ elim (path-cases e.path p) [
    | inl i ↦
        let q : bytes_eq d.path p ≡ false = subst (λ r. bytes_eq d.path r ≡ false) i k in
        ground (arith, k, q, same-path e.path p i, find-put_entry p e m)
    | inr i ↦ ground (arith, k, i, find-put_entry p e m)
  ]
]

pub find-erase_entry :
    (p q : List ℕ) (m : List WorkspaceEntry)
    → Ascending m
    → find_entry p (erase_entry q m) ≡ (if bytes_eq q p then none else find_entry p m)
unfolding find_entry erase_entry
find-erase_entry p q [] h = ground arith
find-erase_entry p q (d ∷ m) h = elim (Bool-cases (bytes_eq d.path q)) [
  | inl k ↦ elim (path-cases q p) [
    | inl i ↦
        let none_left : find_entry p m ≡ none =
          Above-none p m (subst (λ r. Above r m) (bytes_eq_sound d.path q k ∙ i) h.0) in
        ground (arith, k, same-path q p i, none_left)
    | inr i ↦
        let j : bytes_eq d.path p ≡ false =
          subst (λ r. bytes_eq r p ≡ false) (sym (bytes_eq_sound d.path q k)) i in
        ground (arith, k, i, j)
  ]
  | inr k ↦ elim (path-cases q p) [
    | inl i ↦
        let j : bytes_eq d.path p ≡ false = subst (λ r. bytes_eq d.path r ≡ false) i k in
        ground (arith, k, j, same-path q p i, find-erase_entry p q m h.1)
    | inr i ↦ ground (arith, k, i, find-erase_entry p q m h.1)
  ]
]

pub find-first : (e : WorkspaceEntry) (m : List WorkspaceEntry) → find_entry e.path (e ∷ m) ≡ some e
unfolding find_entry
find-first e m = rw (bytes_eq_refl e.path)

-- A map that begins after an entry does not begin with it in other maps.
not_before :
    (e d : WorkspaceEntry) (m n : List WorkspaceEntry)
    → Above d.path n
    → find_entry e.path (e ∷ m) ≡ find_entry e.path (d ∷ n)
    → path_less e.path d.path ≡ false
not_before e d m n b f = elim (Bool-cases (path_less e.path d.path)) [
  | inl i ↦
      let gone : find_entry e.path (d ∷ n) ≡ none =
        Above-none e.path (d ∷ n) (i, Above-less e.path d.path n i b) in
      absurd (ground (arith, sym (find-first e m) ∙ f ∙ gone))
  | inr i ↦ i
]

same_heads :
    (e d : WorkspaceEntry) (m n : List WorkspaceEntry)
    → Ascending (e ∷ m)
    → Ascending (d ∷ n)
    → ((p : List ℕ) → find_entry p (e ∷ m) ≡ find_entry p (d ∷ n))
    → e ≡ d
same_heads e d m n a b f = elim (path_less_total e.path d.path) [
  | inl i ↦
      let found : find_entry e.path (d ∷ n) ≡ some d =
        subst (λ r. find_entry r (d ∷ n) ≡ some d) (sym i) (find-first d n) in
      ground (arith, sym (find-first e m) ∙ f e.path ∙ found)
  | inr (inl i) ↦ absurd (ground (arith, i, not_before e d m n b.0 (f e.path)))
  | inr (inr i) ↦ absurd (ground (arith, i, not_before d e n m a.0 (sym (f d.path))))
]

same_tails :
    (e : WorkspaceEntry) (m n : List WorkspaceEntry)
    → Above e.path m
    → Above e.path n
    → (p : List ℕ) → find_entry p (e ∷ m) ≡ find_entry p (e ∷ n)
    → find_entry p m ≡ find_entry p n
unfolding find_entry
same_tails e m n a b p f = elim (path-cases e.path p) [
  | inl i ↦
      subst (λ r. find_entry r m ≡ find_entry r n) i
        (Above-none e.path m a ∙ sym (Above-none e.path n b))
  | inr i ↦ ground (arith, f, i)
]

-- What a map holds decides it.
pub same_lookups :
    (m n : List WorkspaceEntry)
    → Ascending m
    → Ascending n
    → ((p : List ℕ) → find_entry p m ≡ find_entry p n)
    → m ≡ n
unfolding find_entry
same_lookups [] [] a b f = refl
same_lookups [] (d ∷ n) a b f = absurd (ground (arith, f d.path ∙ find-first d n))
same_lookups (e ∷ m) [] a b f = absurd (ground (arith, sym (f e.path) ∙ find-first e m))
same_lookups (e ∷ m) (d ∷ n) a b f =
    let heads : e ≡ d = same_heads e d m n a b f in
    let above : Above e.path n = subst (λ x. Above x.path n) (sym heads) b.0 in
    let tails : (p : List ℕ) → find_entry p m ≡ find_entry p n = λ p.
      same_tails e m n a.0 above p
        (subst (λ x. find_entry p (e ∷ m) ≡ find_entry p (x ∷ n)) (sym heads) (f p)) in
    ap₂ (λ x y. x ∷ y) heads (same_lookups m n a.1 b.1 tails)

-- Every entry is the one that the map has under its path.
abbrev pub Within : List WorkspaceEntry → List WorkspaceEntry → Type 0
Within m es = All (λ e. find_entry e.path m ≡ some e) es

Within-skip :
    (e : WorkspaceEntry) (m es : List WorkspaceEntry)
    → Above e.path es
    → Within m es
    → Within (e ∷ m) es
unfolding find_entry
Within-skip e m [] a w = tt
Within-skip e m (d ∷ es) a w = (rw (less-apart e.path d.path a.0) w.0, Within-skip e m es a.1 w.1)

pub Within-Ascending : (m : List WorkspaceEntry) → Ascending m → Within m m
Within-Ascending [] a = tt
Within-Ascending (e ∷ m) a = (find-first e m, Within-skip e m m a.0 (Within-Ascending m a.1))
