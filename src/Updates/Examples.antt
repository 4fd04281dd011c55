-- ===== src/Updates/Examples.antt =====
-- Libvncserver/main.c and libvncserver/rfbserver.c with a client of a screen of four by four pixels.
use libvncserver.Base.{true, false, ◌≡◌, ◌&&◌, if◌then◌else◌, refl, arith, [], ◌∷◌, map}
use libvncserver.Base.Int.{ℤ, pos, ◌-ℤ◌}
use libvncserver.Region.Nested.{Region, IsRegion, contains}
use libvncserver.Region.Rgn.{create_rect}
use libvncserver.Region.Boolean.{create_rect_lem}
use libvncserver.Updates.Client.{
  Screen, new_client, schedule_copy, prepare_update, request, mark_rect_as_modified, mark_modified,
}
use libvncserver.Updates.Sync.{Pixels, InSync, on_screen}
use libvncserver.Updates.Copy.{Copied, schedule_copy-InSync}
use libvncserver.Updates.Send.{shown, prepare_update-InSync}
use libvncserver.Base.{ℕ, some, none, Option, List}
use libvncserver.Base.Int.{◌+ℤ◌}
use libvncserver.Updates.Client.{Client, negate}
use libvncserver.Region.Laws.{within}
use libvncserver.Updates.Copying.{
  CopyMessage, copy_rectangle, send_copy_region, handle_copy_rects, do_copy_rect, do_copy_region,
  is_on_screen,
}
use libvncserver.Updates.Copies.{Copies}
use libvncserver.Updates.Moved.{copy_rectangle_lem}
use libvncserver.Updates.Delivered.{Delivered, send_copy_region_lem, do_copy_rect_lem}
use libvncserver.Updates.Mark.{between, mark_rect_as_modified_lem}
use libvncserver.Updates.Run.{
  State, Run, start, step, requested, sent, copied, set_up, Follows, IsScreen, updated, refreshed,
  set, requests_all, Run-Follows, Run-shows,
}

abbrev screen : Screen
screen = record {
  width = pos 4;
  height = pos 4;
  cursor_x = pos 0;
  cursor_y = pos 0;
  xhot = pos 0;
  yhot = pos 0;
  cursor_width = pos 1;
  cursor_height = pos 1;
  slice_height = pos 0;
}

screen-IsScreen : IsScreen screen
screen-IsScreen = (omega arith, omega arith, omega arith, omega arith)

abbrev black : Pixels
black x y = 0

abbrev stripes : Pixels
stripes x y = if contains (create_rect (pos 0) (pos 0) (pos 4) (pos 1)) x y then 9 else 0

abbrev middle : Region
middle = create_rect (pos 1) (pos 1) (pos 3) (pos 3)

middle-IsRegion : IsRegion middle
middle-IsRegion = (create_rect_lem (pos 1) (pos 1) (pos 3) (pos 3) (omega arith) (omega arith)).0

-- The frame buffer behind a copy by a column and a row.
abbrev after_copy : Pixels
after_copy x y = if contains middle x y then stripes (x -ℤ pos 1) (y -ℤ pos 1) else stripes x y

stripes-Copied : Copied screen middle (pos 1) (pos 1) stripes after_copy
unfolding ◌-ℤ◌
stripes-Copied = record {
  source = λ x y h k.
      let m = create_rect_lem (pos 1) (pos 1) (pos 3) (pos 3) (omega arith) (omega arith) in
      ground (arith, h, k, m.1 x y);
  moved = λ x y h. refl;
}

-- A client that copies asks for the screen, gets it, and the server copies a part of it.
abbrev first : State
first = record { server = stripes; client = black; regions = new_client screen }

abbrev ready : State
ready = record first {
  regions =
      set
        (record {
          use_copy_rect = true;
          enable_cursor_shape_updates = false;
          cursor_x = pos 2;
          cursor_y = pos 2;
        })
        first.regions;
}

abbrev asking : State
asking = record ready {
  regions = request false false (pos 0) (pos 0) (pos 4) (pos 4) ready.regions;
}

abbrev served : State
served = updated screen true asking.regions.modified asking

abbrev copying : State
copying = record served {
  server = after_copy;
  regions = schedule_copy screen middle (pos 1) (pos 1) served.regions;
}

ready-Run : Run screen ready
ready-Run = step (start stripes black) (
    set_up (record {
      use_copy_rect = true;
      enable_cursor_shape_updates = false;
      cursor_x = pos 2;
      cursor_y = pos 2;
    }))

asking-Run : Run screen asking
asking-Run =
    step ready-Run
      (requested false false (pos 0) (pos 0) (pos 4) (pos 4) (omega arith) (omega arith))

asking-Follows : Follows screen asking
asking-Follows = Run-Follows screen asking screen-IsScreen asking-Run

served-Run : Run screen served
served-Run = step asking-Run (sent true asking.regions.modified asking-Follows.modified_IsRegion)

served-Follows : Follows screen served
served-Follows = Run-Follows screen served screen-IsScreen served-Run

copying-Run : Run screen copying
unfolding updated
copying-Run =
    step served-Run (copied after_copy middle (pos 1) (pos 1) middle-IsRegion stripes-Copied)

Run-Follows_example : Follows screen copying
Run-Follows_example = Run-Follows screen copying screen-IsScreen copying-Run

Run-shows_example :
    (refreshed screen false true true copying).client (pos 2) (pos 1)
    ≡ (refreshed screen false true true copying).server (pos 2) (pos 1)
Run-shows_example =
    Run-shows screen copying false true true screen-IsScreen (omega arith) copying-Run (pos 2)
      (pos 1) refl

served_stripes : InSync screen stripes served.client served.regions
unfolding updated
served_stripes = served-Follows

schedule_copy-InSync_example :
    InSync screen after_copy served.client
      (schedule_copy screen middle (pos 1) (pos 1) served.regions)
schedule_copy-InSync_example =
    schedule_copy-InSync screen stripes after_copy served.client middle (pos 1) (pos 1)
      middle-IsRegion served.regions (omega arith) (omega arith) stripes-Copied served_stripes

asked : contains asking.regions.requested (pos 1) (pos 0) ≡ true
asked =
    requests_all screen false false ready.regions screen-IsScreen
      (Run-Follows screen ready screen-IsScreen ready-Run).requested_IsRegion (pos 1) (pos 0) refl

prepare_update-InSync_example :
    InSync screen stripes
      (shown stripes black (prepare_update screen true asking.regions.modified asking.regions).1)
      (prepare_update screen true asking.regions.modified asking.regions).0
prepare_update-InSync_example =
    prepare_update-InSync screen stripes black asking.regions.modified asking.regions (omega arith)
      asking-Follows.modified_IsRegion asking-Follows true

mark_rect_as_modified_lem_example :
    (r : Region) × IsRegion r
    × ((a b : ℤ)
        → contains r a b
          ≡ on_screen screen a b && (between (pos 7) (pos 2) a && between (pos 1) (pos 3) b))
    × (mark_rect_as_modified screen (pos 7) (pos 1) (pos 2) (pos 3) (new_client screen ∷ [])
        ≡ map (mark_modified r) (new_client screen ∷ []))
mark_rect_as_modified_lem_example =
    mark_rect_as_modified_lem screen (pos 7) (pos 1) (pos 2) (pos 3) (pos 3) (pos 2)
      (new_client screen ∷ []) refl refl

-- A copy that overlaps its source, in either direction.
copy_rectangle_lem_example :
    Copies
      (pos 1 -ℤ pos 0)
      (pos 1 -ℤ pos 0)
      (λ x y. within (pos 1) (pos 1 +ℤ pos 2) x && within (pos 1) (pos 1 +ℤ pos 2) y)
      stripes
      (copy_rectangle (pos 4) (pos 4) (pos 0) (pos 0) (pos 2) (pos 2) (pos 1) (pos 1) stripes)
unfolding ◌+ℤ◌
copy_rectangle_lem_example =
    copy_rectangle_lem (pos 4) (pos 4) (pos 0) (pos 0) (pos 1) (pos 1) 2 2 stripes refl refl

middle-on :
    (x y : ℤ)
    → contains middle x y ≡ true
    → (on_screen screen x y ≡ true) × (on_screen screen (x -ℤ pos 1) (y -ℤ pos 1) ≡ true)
unfolding ◌-ℤ◌
middle-on x y h =
    let m = create_rect_lem (pos 1) (pos 1) (pos 3) (pos 3) (omega arith) (omega arith) in
    (ground (arith, h, m.1 x y), ground (arith, h, m.1 x y))

send_copy_region_lem_example :
    (ms : List CopyMessage) × (after : Pixels) × (send_copy_region middle (pos 1) (pos 1) ≡ some ms)
    × (handle_copy_rects (pos 4) (pos 4) ms stripes ≡ some after)
    × Copies (pos 1) (pos 1) (contains middle) stripes after
send_copy_region_lem_example =
    send_copy_region_lem screen middle (pos 1) (pos 1) stripes middle-IsRegion (omega arith)
      (omega arith) middle-on

do_copy_rect_lem_example :
    (after : Pixels) × (do_copy_rect screen
        (pos 1)
        (pos 1)
        (pos 3)
        (pos 3)
        (pos 1)
        (pos 1)
        stripes
        (served.regions ∷ [])
      ≡ some (after, map (schedule_copy screen middle (pos 1) (pos 1)) (served.regions ∷ [])))
    × Copies (pos 1) (pos 1) (contains middle) stripes after
    × ((client : Pixels) (c : Client)
        → InSync screen stripes client c
        → InSync screen after client (schedule_copy screen middle (pos 1) (pos 1) c))
unfolding is_on_screen ◌-ℤ◌
do_copy_rect_lem_example =
    do_copy_rect_lem screen (pos 1) (pos 1) (pos 3) (pos 3) (pos 1) (pos 1) stripes
      (served.regions ∷ []) (omega arith) (omega arith) (omega arith) (omega arith) refl refl

-- Two rows that overlap, moved up by one: the lower is copied first, and the upper has its pixels.
abbrev stairs : Region
stairs =
    record {
      start = pos 1;
      end = pos 2;
      sub = record { start = pos 0; end = pos 1; sub = tt } ∷ [];
    }
    ∷ record {
      start = pos 2;
      end = pos 3;
      sub = record { start = pos 0; end = pos 2; sub = tt } ∷ [];
    }
    ∷ []

abbrev numbered : Pixels
numbered x y = if contains (create_rect (pos 0) (pos 3) (pos 4) (pos 4)) x y then 5 else 7

abbrev pixel_of : Option (Pixels × List Client) → ℕ
pixel_of none = 0
pixel_of (some (p, cs)) = p (pos 0) (pos 1)

stairs_corrupted : pixel_of (do_copy_region screen stairs (pos 0) (negate (pos 1)) numbered []) ≡ 5
unfolding do_copy_region create_rect ◌-ℤ◌ ◌+ℤ◌
stairs_corrupted = refl
