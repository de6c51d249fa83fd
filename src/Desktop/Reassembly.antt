-- ===== src/Desktop/Reassembly.antt =====
-- FrameReassembler of desktop/src/desktop.cpp.
pub mod Slots
pub mod Assembly
pub mod Delivery
use lan_pilot.Common.{
  ℕ, true, false, none, List, length, Result, Option, Bool, ◌%◌, ◌+◌, some, ltb, ◌++◌, ◌⨾◌, ◌^◌,
  take, replicate, ok, [], ◌!=◌, if◌then◌else◌, err, ◌&&◌, logic_error, leb, min, throw_if,
  invalid_argument, suc, ◌||◌, ◌-◌, ◌*◌, ◌∷◌, set, not, ◌/◌, drop, get_elem?, ◌==◌, zero,
  length_error, differ,
}
use lan_pilot.Desktop.Limits.{
  validate_dimensions, maximum_encoded_frame_size, maximum_video_payload,
}
use lan_pilot.Desktop.Fragment.{VideoFrame, VideoFragment, validate_fragment}

-- The members of FrameReassembler.
pub record FrameReassembler : Type 0 where
  pub current : Option VideoFragment
  pub fragments : List (Option (List ℕ))
  pub received_bytes : ℕ
  pub received_count : ℕ
  pub keyframe_required : Bool
  pub dropped_frames : ℕ
  pub last_completed_frame_id : ℕ

abbrev pub fresh : FrameReassembler
fresh = record {
  current = none;
  fragments = [];
  received_bytes = 0;
  received_count = 0;
  keyframe_required = true;
  dropped_frames = 0;
  last_completed_frame_id = 0;
}

abbrev pub drop_one : FrameReassembler → FrameReassembler
drop_one s = record s { dropped_frames = (s.dropped_frames + 1) % 2 ^ 64 }

-- `begin`. Its argument was validated by `receive`.
abbrev pub begin : FrameReassembler → VideoFragment → FrameReassembler
begin s f = record s {
  current = some f;
  fragments = replicate f.fragment_count none;
  received_bytes = 0;
  received_count = 0;
}

abbrev pub count_dropped : FrameReassembler → Option VideoFragment → FrameReassembler
count_dropped s none = s
count_dropped s (some c) = if s.received_count != c.fragment_count then drop_one s else s

unfoldable pub abandon_incomplete : FrameReassembler → FrameReassembler
abandon_incomplete s =
    let t = count_dropped s s.current in
    record t { current = none; fragments = []; received_bytes = 0; received_count = 0 }

unfoldable pub notify_loss : FrameReassembler → FrameReassembler
unfolding abandon_incomplete
notify_loss s = let t = abandon_incomplete s in record t { keyframe_required = true }

abbrev pub is_older : VideoFragment → Option VideoFragment → Bool
is_older f none = false
is_older f (some c) = ltb f.frame_id c.frame_id

abbrev pub is_newer : VideoFragment → Option VideoFragment → Bool
is_newer f none = true
is_newer f (some c) = ltb c.frame_id f.frame_id

-- `if (current_) { abandon_incomplete(); keyframe_required_ = true; }`
leave : FrameReassembler → Option VideoFragment → FrameReassembler
unfolding notify_loss
leave s none = s
leave s (some c) = notify_loss s

-- A fragment of a frame that is not being assembled; `false` is the early return.
start : FrameReassembler → VideoFragment → FrameReassembler × Bool
start s f =
    if s.keyframe_required && not f.keyframe
    then (if f.fragment_index == 0 then drop_one s else s, false)
    else (begin s f, true)

abbrev pub is_inconsistent : VideoFragment → VideoFragment → Bool
is_inconsistent c f =
    f.frame_id != c.frame_id
    || f.captured_at_us != c.captured_at_us
    || f.width != c.width
    || f.height != c.height
    || f.codec != c.codec
    || differ f.keyframe c.keyframe
    || f.fragment_count != c.fragment_count
    || f.total_size != c.total_size

-- The write to `destination`; a slot that is taken is left alone.
place :
    FrameReassembler
    → VideoFragment
    → VideoFragment
    → Option (List ℕ)
    → FrameReassembler × Result (Unit {0})
unfolding notify_loss
place s c f (some taken) = (s, ok tt)
place s c f none =
    let total = (s.received_bytes + length f.payload) % 2 ^ 64 in
    let s' = record s { received_bytes = total } in
    if ltb c.total_size total then (notify_loss s', err invalid_argument) else (
      record s' {
        fragments = set s.fragments f.fragment_index (some f.payload);
        received_count = (s.received_count + 1) % 2 ^ 16;
      },
      ok tt,
    )

-- The loop that joins the parts. At that point every slot is taken.
unfoldable pub join_parts : List (Option (List ℕ)) → List ℕ
join_parts [] = []
join_parts (some part ∷ parts) = part ++ join_parts parts
join_parts (none ∷ parts) = join_parts parts

-- A fragment carries no representation epoch, so the frame has the default of its declaration.
complete : FrameReassembler → VideoFragment → FrameReassembler × Result (Option VideoFrame)
unfolding join_parts
complete s c = (
  record s {
    current = none;
    fragments = [];
    received_bytes = 0;
    received_count = 0;
    keyframe_required = if c.keyframe then false else s.keyframe_required;
    last_completed_frame_id = c.frame_id;
  },
  ok (
      some (record {
        frame_id = c.frame_id;
        representation_epoch = 1;
        captured_at_us = c.captured_at_us;
        width = c.width;
        height = c.height;
        codec = c.codec;
        keyframe = c.keyframe;
        encoded = join_parts s.fragments;
      })),
)

pub settle :
    FrameReassembler × Result (Unit {0})
    → VideoFragment
    → FrameReassembler × Result (Option VideoFrame)
unfolding complete notify_loss
settle (s, err e) c = (s, err e)
settle (s, ok _) c =
    if s.received_count != c.fragment_count
    then (s, ok none)
    else if s.received_bytes != c.total_size
    then (notify_loss s, err invalid_argument)
    else complete s c

-- `fragments_.at(index)` throws std::out_of_range, a std::logic_error.
pub store :
    FrameReassembler
    → VideoFragment
    → VideoFragment
    → Option (Option (List ℕ))
    → FrameReassembler × Result (Option VideoFrame)
unfolding place settle
store s c f none = (s, err logic_error)
store s c f (some slot) = settle (place s c f slot) c

-- From the consistency check on. `current_` is set here, so the first clause is never met.
unfoldable pub consume :
    FrameReassembler
    → VideoFragment
    → Option VideoFragment
    → FrameReassembler × Result (Option VideoFrame)
unfolding store
consume s f none = (s, err logic_error)
consume s f (some c) =
    if is_inconsistent c f
    then (s, err invalid_argument)
    else store s c f (get_elem? s.fragments f.fragment_index)

abbrev pub continue :
    VideoFragment → FrameReassembler × Bool → FrameReassembler × Result (Option VideoFrame)
continue f (s, true) = consume s f s.current
continue f (s, false) = (s, ok none)

unfoldable pub receive_valid :
    FrameReassembler → VideoFragment → FrameReassembler × Result (Option VideoFrame)
unfolding leave start consume
receive_valid s f =
    if leb f.frame_id s.last_completed_frame_id || is_older f s.current
    then (s, ok none)
    else continue f (if is_newer f s.current then start (leave s s.current) f else (s, true))

-- The state is returned beside the exception, since some throws come after a change of state.
unfoldable pub receive :
    FrameReassembler → VideoFragment → FrameReassembler × Result (Option VideoFrame)
unfolding receive_valid
receive s f = elim (validate_fragment f) [ err e ↦ (s, err e) | ok _ ↦ receive_valid s f ]
