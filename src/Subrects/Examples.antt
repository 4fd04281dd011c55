-- ===== src/Subrects/Examples.antt =====
-- Libvncserver/rre.c and libvncserver/corre.c on an image of three by three pixels.
use libvncserver.Base.{
  ℕ, ◌≤◌, ◌<◌, ◌==◌, ◌&&◌, if◌then◌else◌, ◌≡◌, refl, arith, List, [], ◌∷◌, ◌++◌, none, some, inr,
  true,
}
use libvncserver.Base.Bytes.{limit}
use libvncserver.Subrects.Image.{Image, Subrect, fill, fill_rows, fill_row}
use libvncserver.Subrects.Encode.{
  Sizes, subrect_encode, bg_colour, encode_rows, encode_row, encode_pixel, find_subrect, scan_rows,
  scan_row, run_end, choose, pixels,
}
use libvncserver.Subrects.Background.{occurrences, bg_colour_prevalent}
use libvncserver.Subrects.Draws.{Draws, subrect_encode-Draws}
use libvncserver.Subrects.Wire.{
  Viewer, put_rectangle, put_small, put_body, handle_rre, handle_corre,
}
use libvncserver.Subrects.Loop.{blank}
use libvncserver.Subrects.Canvas.{Shows}
use libvncserver.Subrects.Shown.{handle_rre_lem, handle_corre_lem}
use libvncserver.Subrects.Send.{Sender, Sent, sent, Calls}
use libvncserver.Subrects.Outcome.{Outcome}
use libvncserver.Subrects.Tiles.{
  Area, send_corre, send_each, AllCut, covered, in_area, send_corre_lem,
}

-- A dot in the middle.
abbrev dot : Image
dot x y = if x == 1 && y == 1 then 7 else 3

abbrev rre_sizes : Sizes
rre_sizes = record { pixel = 4; rect = 8; room = 100 }

abbrev corre_sizes : Sizes
corre_sizes = record { pixel = 4; rect = 4; room = 100 }

abbrev dot_subs : List Subrect
dot_subs = record { colour = 7; x = 1; y = 1; w = 1; h = 1 } ∷ []

dot_rre : subrect_encode rre_sizes dot 3 3 ≡ some (3, dot_subs)
unfolding subrect_encode bg_colour encode_rows encode_row encode_pixel find_subrect scan_rows
    scan_row run_end choose fill fill_rows fill_row
dot_rre = refl

dot_corre : subrect_encode corre_sizes dot 3 3 ≡ some (3, dot_subs)
unfolding subrect_encode bg_colour encode_rows encode_row encode_pixel find_subrect scan_rows
    scan_row run_end choose fill fill_rows fill_row
dot_corre = refl

subrect_encode-Draws_example : Draws rre_sizes dot 3 3 3 dot_subs
subrect_encode-Draws_example = subrect_encode-Draws rre_sizes dot 3 3 3 dot_subs dot_rre

bg_colour_prevalent_example :
    occurrences 7 (pixels dot 3 3 0) ≤ occurrences (bg_colour 1 dot 3 3) (pixels dot 3 3 0)
bg_colour_prevalent_example = bg_colour_prevalent dot 3 3 7

abbrev screen : Viewer
screen = record { width = 10; height = 10; frame = some (blank 0) }

dot_below : (i j : ℕ) → dot i j < limit 4
dot_below i j = ground arith

handle_rre_lem_example :
    (v' : Viewer) × (g : Image) × (handle_rre 4 2 5 3 3 screen
        (put_body put_rectangle 4 3 dot_subs ++ 9 ∷ [])
      ≡ some (v', 9 ∷ []))
    × (v'.frame ≡ some g)
    × Shows 2 5 3 3 dot (blank 0) g
handle_rre_lem_example =
    handle_rre_lem rre_sizes dot (blank 0) 3 3 2 5 3 dot_subs screen (9 ∷ []) (inr (inr refl))
      dot_below refl (omega arith) (omega arith) dot_rre (omega arith) (omega arith)

handle_corre_lem_example :
    (v' : Viewer) × (g : Image) × (handle_corre 4 2 5 3 3 screen
        (put_body put_small 4 3 dot_subs ++ 9 ∷ [])
      ≡ some (v', 9 ∷ []))
    × (v'.frame ≡ some g)
    × Shows 2 5 3 3 dot (blank 0) g
handle_corre_lem_example =
    handle_corre_lem corre_sizes dot (blank 0) 3 3 2 5 3 dot_subs screen (9 ∷ []) (inr (inr refl))
      dot_below refl (omega arith) (omega arith) dot_corre refl (omega arith) (omega arith)

-- A socket whose world is the list of what was written.
abbrev calls : Calls (List ℕ)
calls = record {
  write = λ bytes w. some (w ++ bytes);
  malloc = λ size. true;
  stat_room = true;
  translate = λ x y w h. dot;
  send_raw = λ x y w h s. sent s;
}

abbrev same : List ℕ → List ℕ
same w = w

abbrev sender : Sender (List ℕ)
sender = record {
  stats = record { enc_list = []; msg_list = [] };
  update_buf = 1 ∷ 2 ∷ [];
  before_enc = none;
  after_enc = none;
  world = [];
}

abbrev nothing : Area → Sender (List ℕ) → Sent (List ℕ)
nothing a s = sent s

abbrev wide : Area
wide = record { x = 0; y = 0; w = 100; h = 50 }

send_corre_lem_example :
    (pieces : List Area) × ((s : Sender (List ℕ))
      → send_corre nothing 48 48 200 wide s ≡ send_each nothing pieces s)
    × AllCut 48 48 pieces
    × ((i j : ℕ) → covered i j pieces ≡ (if in_area i j wide then 1 else 0))
send_corre_lem_example =
    send_corre_lem nothing 48 48 200 wide (omega arith) (omega arith) (omega arith)
