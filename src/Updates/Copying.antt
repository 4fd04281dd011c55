-- ===== src/Updates/Copying.antt =====
-- The copies of pixels: `rfbDoCopyRegion` of libvncserver/main.c in the server's frame buffer,
-- `rfbSendCopyRegion` of libvncserver/rfbserver.c, and what the client does with its messages, in
-- libvncclient/rfbproto.c and libvncclient/vncviewer.c.
use libvncserver.Base.{
  ℕ, zero, suc, ◌+◌, ◌-◌, ◌%◌, Bool, true, false, not, ◌&&◌, ◌||◌, if◌then◌else◌, List, [], ◌∷◌,
  map, Option, none, some,
}
use libvncserver.Base.Int.{ℤ, pos, negsuc, pos_part, ◌+ℤ◌, ◌-ℤ◌, eqb_ℤ, ltb_ℤ, leb_ℤ}
use libvncserver.Region.Laws.{within}
use libvncserver.Region.Nested.{Region}
use libvncserver.Region.Rgn.{Rect, create_rect, count_rects}
use libvncserver.Region.Iterator.{get_reverse_iterator, iterate}
use libvncserver.Updates.Sync.{Pixels}
use libvncserver.Updates.Client.{Screen, Client, schedule_copy_region}

-- The pixel that is `dx` to the left and `dy` above, written to its place.
abbrev pub move_pixel : ℤ → ℤ → ℤ → ℤ → Pixels → Pixels
move_pixel dx dy i j s = λ a b. if eqb_ℤ a i && eqb_ℤ b j then s (i -ℤ dx) (j -ℤ dy) else s a b

-- The next place of a loop that counts up or down.
abbrev pub advance : Bool → ℤ → ℤ
advance down i = if down then i -ℤ pos 1 else i +ℤ pos 1

-- A loop over columns from `i` on, up or down, with the columns to go.
unfoldable pub copy_columns : ℤ → ℤ → Bool → ℤ → ℕ → ℤ → Pixels → Pixels
copy_columns dx dy down j zero i s = s
copy_columns dx dy down j (suc left) i s =
    copy_columns dx dy down j left (advance down i) (move_pixel dx dy i j s)

-- A loop over rows from `j` on, up or down, with the rows to go.
unfoldable pub copy_rows : (ℤ → Pixels → Pixels) → Bool → ℕ → ℤ → Pixels → Pixels
copy_rows row down zero j s = s
copy_rows row down (suc left) j s = copy_rows row down left (advance down j) (row j s)

-- Where a loop over `n` places from `from` on starts.
abbrev pub first_place : Bool → ℤ → ℕ → ℤ
first_place down from n = if down then (from +ℤ pos n) -ℤ pos 1 else from

-- `CheckRect`, of a client's screen
abbrev pub fits : ℤ → ℤ → ℤ → ℤ → ℤ → ℤ → Bool
fits width height x y w h = leb_ℤ (x +ℤ w) width && leb_ℤ (y +ℤ h) height

-- `CopyRectangleFromRectangle`, on a screen that is there.
unfoldable pub copy_rectangle : ℤ → ℤ → ℤ → ℤ → ℤ → ℤ → ℤ → ℤ → Pixels → Pixels
unfolding copy_rows copy_columns
copy_rectangle width height src_x src_y w h dest_x dest_y s =
    let columns = pos_part w in
    let rows = pos_part h in
    let left = not (ltb_ℤ dest_x src_x) in
    let up = not (ltb_ℤ dest_y src_y) in
    let row = λ (j : ℤ).
      copy_columns (dest_x -ℤ src_x) (dest_y -ℤ src_y) left j columns
        (first_place left dest_x columns) in
    if not (fits width height src_x src_y w h) || not (fits width height dest_x dest_y w h)
    then s
    else copy_rows row up rows (first_place up dest_y rows) s

-- `memmove` of the pixels of a row, all at once, where the row and its source are on the screen
-- (`do_copy_region` sees to that).
unfoldable pub move_row : ℤ → ℤ → ℤ → ℤ → ℤ → Pixels → Pixels
move_row dx dy x1 x2 j s =
    λ a b. if within x1 x2 a && eqb_ℤ b j then s (a -ℤ dx) (b -ℤ dy) else s a b

-- A rectangle in `rfbDoCopyRegion`
unfoldable pub copy_rect : ℤ → ℤ → Rect → Pixels → Pixels
unfolding copy_rows move_row
copy_rect dx dy r s =
    let rows = pos_part (r.y2 -ℤ r.y1) in
    let down = not (ltb_ℤ dy (pos 0)) in
    copy_rows (move_row dx dy r.x1 r.x2) down rows (first_place down r.y1 rows) s

-- A loop over rectangles.
unfoldable pub copy_rects : (Rect → Pixels → Pixels) → List Rect → Pixels → Pixels
copy_rects copy [] s = s
copy_rects copy (r ∷ rs) s = copy_rects copy rs (copy r s)

-- A rectangle is on the screen: all its rows are parts of rows of the frame buffer.
unfoldable pub is_on_screen : Screen → Rect → Bool
is_on_screen s r =
    (leb_ℤ (pos 0) r.x1 && leb_ℤ r.x1 r.x2 && leb_ℤ r.x2 s.width)
    && (leb_ℤ (pos 0) r.y1 && leb_ℤ r.y1 r.y2 && leb_ℤ r.y2 s.height)

-- The source of a rectangle.
abbrev pub source_of : ℤ → ℤ → Rect → Rect
source_of dx dy r = record { x1 = r.x1 -ℤ dx; y1 = r.y1 -ℤ dy; x2 = r.x2 -ℤ dx; y2 = r.y2 -ℤ dy }

unfoldable pub all_on_screen : Screen → ℤ → ℤ → List Rect → Bool
unfolding is_on_screen
all_on_screen s dx dy [] = true
all_on_screen s dx dy (r ∷ rs) =
    (is_on_screen s r && is_on_screen s (source_of dx dy r)) && all_on_screen s dx dy rs

-- `rfbDoCopyRegion`: the frame buffer, and what is scheduled for the clients. The code does not look
-- whether the rectangles and their sources are on the screen. Where one is not, `memmove` works on the pixels of other
-- rows or outside the frame buffer; this model says none.
unfoldable pub do_copy_region :
    Screen → Region → ℤ → ℤ → Pixels → List Client → Option (Pixels × List Client)
unfolding get_reverse_iterator iterate count_rects copy_rects copy_rect all_on_screen
    schedule_copy_region
do_copy_region screen r dx dy s cs =
    let i = get_reverse_iterator r (ltb_ℤ dx (pos 0)) (ltb_ℤ dy (pos 0)) in
    elim (iterate (count_rects r + 1) i) [
      | none ↦ none
      | some rs ↦
          if all_on_screen screen dx dy rs
          then some (copy_rects (copy_rect dx dy) rs s, schedule_copy_region screen r dx dy cs)
          else none
    ]

-- `rfbDoCopyRect`
unfoldable pub do_copy_rect :
    Screen → ℤ → ℤ → ℤ → ℤ → ℤ → ℤ → Pixels → List Client → Option (Pixels × List Client)
unfolding do_copy_region create_rect
do_copy_rect screen x1 y1 x2 y2 = do_copy_region screen (create_rect x1 y1 x2 y2)

-- `rfbScheduleCopyRect`
unfoldable pub schedule_copy_rect : Screen → ℤ → ℤ → ℤ → ℤ → ℤ → ℤ → List Client → List Client
unfolding schedule_copy_region create_rect
schedule_copy_rect screen x1 y1 x2 y2 = schedule_copy_region screen (create_rect x1 y1 x2 y2)

-- An `int` in a field of `uint16_t`.
unfoldable pub to_u16 : ℤ → ℕ
to_u16 (pos n) = n % 65536
to_u16 (negsuc n) = 65535 - n % 65536

-- `rfbFramebufferUpdateRectHeader` with `rfbEncodingCopyRect`, and `rfbCopyRect`.
pub record CopyMessage : Type 0 where
  pub x : ℕ
  pub y : ℕ
  pub w : ℕ
  pub h : ℕ
  pub src_x : ℕ
  pub src_y : ℕ

unfoldable pub copy_message : ℤ → ℤ → Rect → CopyMessage
unfolding to_u16
copy_message dx dy r = record {
  x = to_u16 r.x1;
  y = to_u16 r.y1;
  w = to_u16 (r.x2 -ℤ r.x1);
  h = to_u16 (r.y2 -ℤ r.y1);
  src_x = to_u16 (r.x1 -ℤ dx);
  src_y = to_u16 (r.y1 -ℤ dy);
}

-- `rfbSendCopyRegion`, of a screen that is not scaled: the messages.
unfoldable pub send_copy_region : Region → ℤ → ℤ → Option (List CopyMessage)
unfolding get_reverse_iterator iterate count_rects copy_message
send_copy_region r dx dy =
    let i = get_reverse_iterator r (ltb_ℤ (pos 0) dx) (ltb_ℤ (pos 0) dy) in
    elim (iterate (count_rects r + 1) i) [
      | none ↦ none
      | some rs ↦ some (map (copy_message dx dy) rs)
    ]

-- The client at a message: none where its rectangle is "too large".
unfoldable pub handle_copy_rect : ℤ → ℤ → CopyMessage → Pixels → Option Pixels
unfolding copy_rectangle
handle_copy_rect width height m s =
    if not (fits width height (pos m.x) (pos m.y) (pos m.w) (pos m.h))
    then none
    else some (
        copy_rectangle width height (pos m.src_x) (pos m.src_y) (pos m.w) (pos m.h) (pos m.x)
          (pos m.y) s)

-- The messages of an update, one behind the other.
unfoldable pub handle_copy_rects : ℤ → ℤ → List CopyMessage → Pixels → Option Pixels
unfolding handle_copy_rect
handle_copy_rects width height [] s = some s
handle_copy_rects width height (m ∷ ms) s = elim (handle_copy_rect width height m s) [
  | none ↦ none
  | some t ↦ handle_copy_rects width height ms t
]

-- The rectangles of ordinary pixel data that `rfbSendFramebufferUpdate` goes through.
unfoldable pub send_pixels : Region → Option (List Rect)
unfolding get_reverse_iterator iterate count_rects
send_pixels r = iterate (count_rects r + 1) (get_reverse_iterator r false false)

-- A client at the rectangles of pixel data, in encodings without loss.
unfoldable pub draw_rects : Pixels → List Rect → Pixels → Pixels
draw_rects server [] s = s
draw_rects server (r ∷ rs) s =
    draw_rects server rs
      (λ x y. if within r.x1 r.x2 x && within r.y1 r.y2 y then server x y else s x y)
