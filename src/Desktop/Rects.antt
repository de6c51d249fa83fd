-- ===== src/Desktop/Rects.antt =====
-- RawRectTransactionGuard of desktop/src/desktop.cpp: the raw rectangles of one commit.
pub mod Disjoint
use lan_pilot.Common.{
  ℕ, zero, suc, true, false, none, some, [], ◌∷◌, if◌then◌else◌, Bool, not, List, ◌+◌, ltb, ◌%◌,
  ◌!=◌, ◌&&◌, ◌||◌, ◌==◌, ◌^◌, ◌++◌, length, leb, ◌-◌,
}
use lan_pilot.Desktop.VisualMessageType
use lan_pilot.Desktop.Headers.{VisualMessageHeader}
use lan_pilot.Desktop.Updates.{VisualRawRect, VisualFrameCommit}
use lan_pilot.Desktop.Limits.{maximum_raw_rect_transaction_count, maximum_raw_rect_protocol_bytes}

pub record Bounds : Type 0 where
  pub left : ℕ
  pub top : ℕ
  pub right : ℕ
  pub bottom : ℕ

pub record RawRectTransactionGuard : Type 0 where
  pub active : Bool
  pub session_generation : ℕ
  pub representation_epoch : ℕ
  pub base_frame_id : ℕ
  pub target_frame_id : ℕ
  pub width : ℕ
  pub height : ℕ
  pub packed_bytes : ℕ
  pub rectangles : List Bounds

-- `cancel` resets to this value.
abbrev pub no_rects : RawRectTransactionGuard
no_rects = record {
  active = false;
  session_generation = 0;
  representation_epoch = 0;
  base_frame_id = 0;
  target_frame_id = 0;
  width = 0;
  height = 0;
  packed_bytes = 0;
  rectangles = [];
}

-- The first condition. `packed_bytes_` never passes the limit that it is subtracted from.
unfoldable pub refuses_rect : RawRectTransactionGuard → VisualMessageHeader → VisualRawRect → Bool
refuses_rect g header r =
    header.type != VisualMessageType.raw_rect
    || header.session_generation == 0
    || header.representation_epoch == 0
    || header.frame_id == 0
    || r.base_frame_id == 0
    || leb header.frame_id r.base_frame_id
    || r.surface_width == 0
    || r.surface_height == 0
    || r.width == 0
    || r.height == 0
    || leb maximum_raw_rect_transaction_count (length g.rectangles)
    || ltb (maximum_raw_rect_protocol_bytes - g.packed_bytes) (length r.bgra)

-- The `else if` condition.
unfoldable pub other_transaction :
    RawRectTransactionGuard → VisualMessageHeader → VisualRawRect → Bool
other_transaction g header r =
    header.session_generation != g.session_generation
    || header.representation_epoch != g.representation_epoch
    || header.frame_id != g.target_frame_id
    || r.base_frame_id != g.base_frame_id
    || r.surface_width != g.width
    || r.surface_height != g.height

-- The sums are std::uint32_t.
abbrev pub bounds_of : VisualRawRect → Bounds
bounds_of r = record {
  left = r.x;
  top = r.y;
  right = (r.x + r.width) % 2 ^ 32;
  bottom = (r.y + r.height) % 2 ^ 32;
}

abbrev pub overlap : Bounds → Bounds → Bool
overlap bounds existing =
    ltb bounds.left existing.right
    && ltb existing.left bounds.right
    && ltb bounds.top existing.bottom
    && ltb existing.top bounds.bottom

abbrev pub overlaps_any : Bounds → List Bounds → Bool
overlaps_any bounds [] = false
overlaps_any bounds (existing ∷ rest) = overlap bounds existing || overlaps_any bounds rest

-- The `if (!active_)` branch.
abbrev pub activate :
    RawRectTransactionGuard → VisualMessageHeader → VisualRawRect → RawRectTransactionGuard
activate g header r =
    if not g.active
    then record g {
      active = true;
      session_generation = header.session_generation;
      representation_epoch = header.representation_epoch;
      base_frame_id = r.base_frame_id;
      target_frame_id = header.frame_id;
      width = r.surface_width;
      height = r.surface_height;
    }
    else g

unfoldable pub accept_rect :
    RawRectTransactionGuard → VisualMessageHeader → VisualRawRect → RawRectTransactionGuard × Bool
unfolding refuses_rect other_transaction
accept_rect g header r =
    let opened = activate g header r in
    let bounds = bounds_of r in
    if refuses_rect g header r
    then (g, false)
    else if g.active && other_transaction g header r
    then (g, false)
    else if overlaps_any bounds opened.rectangles
    then (opened, false)
    else (
      record opened {
        rectangles = opened.rectangles ++ (bounds ∷ []);
        packed_bytes = (opened.packed_bytes + length r.bgra) % 2 ^ 64;
      },
      true,
    )

abbrev pub is_empty : List Bounds → Bool
is_empty [] = true
is_empty (_ ∷ _) = false

unfoldable pub rects_ready :
    RawRectTransactionGuard → VisualMessageHeader → VisualFrameCommit → Bool
rects_ready g header commit =
    g.active
    && not (is_empty g.rectangles)
    && header.type == VisualMessageType.frame_commit
    && header.session_generation == g.session_generation
    && header.representation_epoch == g.representation_epoch
    && header.frame_id == g.target_frame_id
    && commit.base_frame_id == g.base_frame_id
