-- ===== src/Desktop/Rects/Disjoint.antt =====
-- The pixels of the rectangles that RawRectTransactionGuard::accept has taken.
use lan_pilot.Common.{
  ℕ, suc, true, false, [], ◌∷◌, Bool, ◌≡◌, ◌≤◌, List, ◌<◌, ◌++◌, Bool-cases, arith, All, length,
  All-append, ap, inr, refl, inl,
}
use lan_pilot.Desktop.Rects.{
  Bounds, RawRectTransactionGuard, accept_rect, refuses_rect, no_rects, other_transaction,
  overlaps_any, bounds_of,
}
use lan_pilot.Desktop.Headers.{VisualMessageHeader}
use lan_pilot.Desktop.Updates.{VisualRawRect}
use lan_pilot.Desktop.Updates.RectCodec.{RectShape}
use lan_pilot.Desktop.Limits.{maximum_raw_rect_protocol_bytes, maximum_raw_rect_transaction_count}

abbrev pub HasPixel : Bounds → ℕ → ℕ → Type 0
HasPixel b px py = (b.left ≤ px) × (px < b.right) × (b.top ≤ py) × (py < b.bottom)

-- No pixel lies in both.
abbrev pub Apart : Bounds → Bounds → Type 0
Apart a b = (px py : ℕ) → HasPixel a px py → HasPixel b px py → ⊥

abbrev pub AllApart : List Bounds → Type 0
AllApart [] = Unit {0}
AllApart (b ∷ bs) = All (Apart b) bs × AllApart bs

abbrev pub Within : ℕ → ℕ → Bounds → Type 0
Within w h b = (b.left < b.right) × (b.top < b.bottom) × (b.right ≤ w) × (b.bottom ≤ h)

overlaps_any-Apart :
    (b : Bounds) (bs : List Bounds) → overlaps_any b bs ≡ false → All (λ e. Apart e b) bs
overlaps_any-Apart b [] h = tt
overlaps_any-Apart b (e ∷ es) h =
    ((λ px py inE inB. ground arith), overlaps_any-Apart b es (ground arith))

AllApart-append :
    (bs : List Bounds) (b : Bounds)
    → AllApart bs
    → All (λ e. Apart e b) bs
    → AllApart (bs ++ (b ∷ []))
AllApart-append [] b a p = (tt, tt)
AllApart-append (c ∷ cs) b a p =
    (All-append (Apart c) cs (b ∷ []) a.0 (p.0, tt), AllApart-append cs b a.1 p.1)

length-push : (bs : List Bounds) (b : Bounds) → length (bs ++ (b ∷ [])) ≡ suc (length bs)
length-push [] b = refl
length-push (c ∷ cs) b = ap suc (length-push cs b)

pub record RectsInv (g : RawRectTransactionGuard) : Type 0 where
  pub unopened : g.active ≡ false → g.rectangles ≡ []
  pub few : length g.rectangles ≤ maximum_raw_rect_transaction_count
  pub small : g.packed_bytes ≤ maximum_raw_rect_protocol_bytes
  pub apart : AllApart g.rectangles
  pub within : All (Within g.width g.height) g.rectangles

pub no_rects-RectsInv : RectsInv no_rects
no_rects-RectsInv = ground arith

-- What a rectangle changes when it is taken.
record Taken (g g' : RawRectTransactionGuard) (r : VisualRawRect) : Type 0 where
  active : g'.active ≡ true
  rectangles : g'.rectangles ≡ g.rectangles ++ (bounds_of r ∷ [])
  width : g'.width ≡ r.surface_width
  height : g'.height ≡ r.surface_height
  room : length g.rectangles < maximum_raw_rect_transaction_count
  small : g'.packed_bytes ≤ maximum_raw_rect_protocol_bytes
  fresh : overlaps_any (bounds_of r) g.rectangles ≡ false
  same : g.active ≡ true → (g.width ≡ r.surface_width) × (g.height ≡ r.surface_height)

accept_rect-Taken :
    (g : RawRectTransactionGuard) (header : VisualMessageHeader) (r : VisualRawRect)
    → g.packed_bytes ≤ maximum_raw_rect_protocol_bytes
    → (accept_rect g header r).1 ≡ true
    → Taken g (accept_rect g header r).0 r
unfolding accept_rect refuses_rect other_transaction
accept_rect-Taken g header r small e = ground arith

-- A refused rectangle leaves the guard as it was.
pub refused_rect :
    (g : RawRectTransactionGuard) (header : VisualMessageHeader) (r : VisualRawRect)
    → RectsInv g
    → (accept_rect g header r).1 ≡ false
    → (accept_rect g header r).0 ≡ g
unfolding accept_rect
refused_rect g header r v e = ground (arith, v.unopened)

bounds_of-Within :
    (r : VisualRawRect) → RectShape r → Within r.surface_width r.surface_height (bounds_of r)
bounds_of-Within r s =
    ground (arith, s.right, s.bottom, s.wide, s.high, s.surface_width, s.surface_height)

Within-before :
    (g : RawRectTransactionGuard) (r : VisualRawRect) (b : Bool)
    → g.active ≡ b
    → RectsInv g
    → (b ≡ true → (g.width ≡ r.surface_width) × (g.height ≡ r.surface_height))
    → All (Within r.surface_width r.surface_height) g.rectangles
Within-before g r true e v same = let (w, h) = same refl in rw (← w, ← h) v.within
Within-before g r false e v same = rw (v.unopened e) tt

pub accept_rect-RectsInv :
    (g : RawRectTransactionGuard) (header : VisualMessageHeader) (r : VisualRawRect)
    → RectShape r
    → RectsInv g
    → RectsInv (accept_rect g header r).0
accept_rect-RectsInv g header r s v = elim (Bool-cases (accept_rect g header r).1) [
  | inr refused ↦ rw (refused_rect g header r v refused) v
  | inl taken ↦
      let t = accept_rect-Taken g header r v.small taken in
      record {
        unopened = λ off. absurd (cc);
        few = rw t.rectangles (omega (arith, length-push g.rectangles (bounds_of r), t.room));
        small = t.small;
        apart = rw t.rectangles (
            AllApart-append g.rectangles (bounds_of r) v.apart
              (overlaps_any-Apart (bounds_of r) g.rectangles t.fresh));
        within =
            rw (t.rectangles, t.width, t.height)
              (All-append (Within r.surface_width r.surface_height) g.rectangles (bounds_of r ∷ [])
                (Within-before g r g.active refl v t.same) (bounds_of-Within r s, tt));
      }
]

-- The receiver's loop over rectangles that were decoded, refusals included.
unfoldable pub accept_rects :
    RawRectTransactionGuard → List (VisualMessageHeader × VisualRawRect) → RawRectTransactionGuard
accept_rects g [] = g
accept_rects g ((header, r) ∷ rest) = accept_rects (accept_rect g header r).0 rest
