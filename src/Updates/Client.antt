-- ===== src/Updates/Client.antt =====
-- The regions of a client, in libvncserver/main.c and libvncserver/rfbserver.c: what is scheduled for
-- it, what it requests, and what an update of its screen takes.
use libvncserver.Base.{Bool, false, not, ◌&&◌, ◌||◌, if◌then◌else◌, List, map, Option, none, some}
use libvncserver.Base.Int.{ℤ, pos, ◌+ℤ◌, ◌-ℤ◌, eqb_ℤ, ltb_ℤ, leb_ℤ}
use libvncserver.Region.Nested.{Region}
use libvncserver.Region.Rgn.{
  create, create_rect, rgn_and, rgn_or, rgn_subtract, rgn_empty, offset, bbox, pop_rect,
}

-- The fields of a screen: its size, the place, the hot spot and the size of its cursor, and
-- `progressiveSliceHeight`.
pub record Screen : Type 0 where
  pub width : ℤ
  pub height : ℤ
  pub cursor_x : ℤ
  pub cursor_y : ℤ
  pub xhot : ℤ
  pub yhot : ℤ
  pub cursor_width : ℤ
  pub cursor_height : ℤ
  pub slice_height : ℤ

-- The fields of a client: `modifiedRegion`, `copyRegion` with `copyDX` and `copyDY`,
-- `requestedRegion`, what it can do, the place of its cursor, and `progressiveSliceY`.
pub record Client : Type 0 where
  pub modified : Region
  pub copy : Region
  pub copy_dx : ℤ
  pub copy_dy : ℤ
  pub requested : Region
  pub use_copy_rect : Bool
  pub enable_cursor_shape_updates : Bool
  pub cursor_x : ℤ
  pub cursor_y : ℤ
  pub slice_y : ℤ

-- A new client: all of the screen is modified.
unfoldable pub new_client : Screen → Client
unfolding create create_rect
new_client s = record {
  modified = create_rect (pos 0) (pos 0) s.width s.height;
  copy = create;
  copy_dx = pos 0;
  copy_dy = pos 0;
  requested = create;
  use_copy_rect = false;
  enable_cursor_shape_updates = false;
  cursor_x = s.cursor_x;
  cursor_y = s.cursor_y;
  slice_y = pos 0;
}

abbrev pub negate : ℤ → ℤ
negate a = pos 0 -ℤ a

-- What becomes of a copy that was not executed yet: "in this case it could be source of the new
-- copyRect or modified anyway."
unfoldable pub treat_old_copy : Region → ℤ → ℤ → Client → Client
unfolding create rgn_and rgn_or rgn_empty offset
treat_old_copy r dx dy c =
    if rgn_empty c.copy
    then c
    else if not (eqb_ℤ c.copy_dx dx) || not (eqb_ℤ c.copy_dy dy)
    then record c { modified = rgn_or c.modified c.copy; copy = create }
    else record c {
      modified = rgn_or c.modified (rgn_and (offset r (negate dx) (negate dy)) c.copy).0;
    }

-- "if there were modified regions, which are now copied, mark them as modified, because the source of
-- these can be overlapped either by new modified or now copied regions."
unfoldable pub add_copy : Region → ℤ → ℤ → Client → Client
unfolding rgn_and rgn_or offset
add_copy r dx dy c =
    let copy = rgn_or c.copy r in
    record c {
      copy = copy;
      copy_dx = dx;
      copy_dy = dy;
      modified = rgn_or c.modified (rgn_and (offset c.modified dx dy) copy).0;
    }

-- A region that is marked as modified where it overlaps the copy.
unfoldable pub mark_overlap : Region → Client → Client
unfolding rgn_and rgn_or rgn_empty
mark_overlap area c =
    let part = (rgn_and area c.copy).0 in
    if rgn_empty part then c else record c { modified = rgn_or c.modified part }

-- For a client that has the cursor in its pixels: the cursor's rectangle, as a destination of the
-- copy, and moved, as a source.
unfoldable pub mark_cursor : Screen → ℤ → ℤ → Client → Client
unfolding create_rect mark_overlap offset
mark_cursor s dx dy c =
    let x = c.cursor_x -ℤ s.xhot in
    let y = c.cursor_y -ℤ s.yhot in
    let area = create_rect x y (x +ℤ s.cursor_width) (y +ℤ s.cursor_height) in
    if c.enable_cursor_shape_updates
    then c
    else mark_overlap (offset area dx dy) (mark_overlap area c)

-- `rfbScheduleCopyRegion` for a client, and for all.
unfoldable pub schedule_copy : Screen → Region → ℤ → ℤ → Client → Client
unfolding treat_old_copy add_copy mark_cursor rgn_or
schedule_copy s r dx dy c =
    if c.use_copy_rect
    then mark_cursor s dx dy (add_copy r dx dy (treat_old_copy r dx dy c))
    else record c { modified = rgn_or c.modified r }

unfoldable pub schedule_copy_region : Screen → Region → ℤ → ℤ → List Client → List Client
unfolding schedule_copy
schedule_copy_region s r dx dy = map (schedule_copy s r dx dy)

-- `rfbMarkRegionAsModified` for a client, and for all.
unfoldable pub mark_modified : Region → Client → Client
unfolding rgn_or
mark_modified r c = record c { modified = rgn_or c.modified r }

unfoldable pub mark_region_as_modified : Region → List Client → List Client
unfolding mark_modified
mark_region_as_modified r = map (mark_modified r)

-- The bounds of `rfbMarkRectAsModified` on an axis: none where it returns at once.
unfoldable pub clamp : ℤ → ℤ → ℤ → Option (ℤ × ℤ)
clamp size a b =
    let low = if ltb_ℤ b a then b else a in
    let high = if ltb_ℤ b a then a else b in
    let from = if ltb_ℤ low (pos 0) then pos 0 else low in
    let to = if ltb_ℤ size high then size else high in
    if eqb_ℤ from to then none else some (from, to)

-- `rfbMarkRectAsModified`, without the copies of the screen at other scales.
unfoldable pub mark_rect_as_modified : Screen → ℤ → ℤ → ℤ → ℤ → List Client → List Client
unfolding clamp mark_region_as_modified create_rect
mark_rect_as_modified s x1 y1 x2 y2 cs = elim (clamp s.width x1 x2) [
  | none ↦ cs
  | some (a, b) ↦ elim (clamp s.height y1 y2) [
    | none ↦ cs
    | some (i, j) ↦ mark_region_as_modified (create_rect a i b j) cs
  ]
]

-- `rfbFramebufferUpdateRequest`, of a rectangle that was clipped to the screen; `refused` says that
-- `rfbSetClientColourMap` was called and has failed.
unfoldable pub request : Bool → Bool → ℤ → ℤ → ℤ → ℤ → Client → Client
unfolding create_rect rgn_or rgn_subtract
request refused incremental x y w h c =
    let area = create_rect x y (x +ℤ w) (y +ℤ h) in
    let requested = rgn_or c.requested area in
    if incremental || refused then record c { requested = requested } else record c {
      requested = requested;
      modified = rgn_or c.modified area;
      copy = (rgn_subtract c.copy area).0;
    }

-- What an update sends: pixels, and pixels that the client copies on its screen.
pub record Update : Type 0 where
  pub drawn : Region
  pub copied : Region
  pub dx : ℤ
  pub dy : ℤ

-- The slice of a progressive update: the rows that are sent, and the row of the next slice.
unfoldable pub slice : Screen → Region → ℤ → Region × ℤ
unfolding bbox pop_rect create_rect rgn_and
slice s given y =
    if ltb_ℤ (pos 0) s.slice_height
    then (let r : Region × ℤ = elim (pop_rect false false (bbox given)) [
      | none ↦ (given, y)
      | some (rect, left) ↦
          let y' = if ltb_ℤ y rect.y1 || leb_ℤ rect.y2 y then rect.y1 else y in
          ((rgn_and given (create_rect (pos 0) y' s.width (y' +ℤ s.slice_height))).0, y')
    ] in
        let next = r.1 +ℤ s.slice_height in (r.0, if leb_ℤ s.height next then pos 0 else next))
    else (given, y)

-- The regions of `rfbSendFramebufferUpdate`, from "The modifiedRegion may overlap" on: `quiet` says
-- that there is nothing else to send.
unfoldable pub prepare_update : Screen → Bool → Region → Client → Client × Option Update
unfolding create rgn_and rgn_or rgn_subtract rgn_empty offset slice
prepare_update s quiet given c =
    let copy = (rgn_subtract c.copy c.modified).0 in
    let sliced = slice s given c.slice_y in
    let r = rgn_and (rgn_or sliced.0 copy) c.requested in
    if not r.1 && (rgn_empty r.0 && quiet)
    then (record c { copy = copy; slice_y = sliced.1 }, none)
    else (let copied =
          (rgn_and (rgn_and copy c.requested).0 (offset c.requested c.copy_dx c.copy_dy)).0 in
        let pixels = (rgn_subtract r.0 copied).0 in
        let modified = (rgn_subtract (rgn_subtract (rgn_or c.modified copy) pixels).0 copied).0 in
        (
          record c {
            modified = modified;
            copy = create;
            requested = create;
            copy_dx = pos 0;
            copy_dy = pos 0;
            slice_y = sliced.1;
          },
          some (record { drawn = pixels; copied = copied; dx = c.copy_dx; dy = c.copy_dy }),
        ))
