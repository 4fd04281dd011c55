-- ===== src/Hextile/Rectangle.antt =====
-- A client of libvncclient/hextile.c shows a rectangle that libvncserver/hextile.c encodes.
use libvncserver.Base.{
  ℕ, zero, suc, ◌+◌, ◌-◌, ◌*◌, ◌≤◌, ◌<◌, false, ltb, ◌≡◌, ◌⊎◌, inl, inr, refl, arith, ◌∙◌, sym, ap₂,
  List, ◌++◌, Option, none, some, Bool-cases,
}
use mathlib.Core.List.{append_assoc}
use libvncserver.Base.Bytes.{limit}
use libvncserver.Subrects.Image.{Image, Subrect, in_rect}
use libvncserver.Subrects.Shown.{IsDepth}
use libvncserver.Subrects.Wire.{Viewer}
use libvncserver.Subrects.Canvas.{Shows}
use libvncserver.Hextile.Tile.{Known, Pens, encode_tile}
use libvncserver.Hextile.Tiles.{side, send_hextiles, handle_hextile}
use libvncserver.Hextile.Rounds.{
  rounds, rounds-IsLeft, row_sent, rows_sent, row_read, rows_read, send_rows_lem, read_rows_lem,
}
use libvncserver.Hextile.Shown.{Agrees, encode_tile_lem}

-- The tiles in front of the one at a column and a row.
abbrev Before : ℕ → ℕ → ℕ → ℕ → Type 0
Before x y i j = (j < y) ⊎ ((j < y + 16) × (i < x))

side_le : (all at : ℕ) → at ≤ all → at + side all at ≤ all
unfolding side
side_le all at h = ground (arith, h)

side_small : (all at : ℕ) → side all at ≤ 16
unfolding side
side_small all at = ground arith

side_full : (all at i : ℕ) → i < all → i < at + 16 → i < at + side all at
unfolding side
side_full all at i a b = ground (arith, a, b)

module _ (pixel rx ry rwidth rheight : ℕ) (im base : Image) (width height : ℕ)
    (depth : IsDepth pixel) (below : (i j : ℕ) → im i j < limit pixel) (wide : rx + rwidth ≤ width)
    (high : ry + rheight ≤ height) where
  -- The tiles in front are shown, and what is not in the rectangle is as it was.
  record Progress (x y : ℕ) (g : Image) : Type 0 where
    inside : (i j : ℕ) → i < rwidth → j < rheight → Before x y i j → g (rx + i) (ry + j) ≡ im i j
    outside :
        (a b : ℕ)
        → in_rect (record { colour = 0; x = rx; y = ry; w = rwidth; h = rheight }) a b ≡ false
        → g a b ≡ base a b

  not_in_tile :
      (x y i j : ℕ)
      → i < rwidth
      → j < rheight
      → Before (x + 16) y i j
      → in_rect
          (record { colour = 0; x = rx + x; y = ry + y; w = side rwidth x; h = side rheight y })
          (rx + i)
          (ry + j)
        ≡ false
      → Before x y i j
  not_in_tile x y i j a b (inl d) e = inl d
  not_in_tile x y i j a b (inr d) e = elim (Bool-cases (ltb j y)) [
    | inl p ↦ inl (ground (arith, p))
    | inr p ↦ elim (Bool-cases (ltb i x)) [
      | inl q ↦ inr (d.0, ground (arith, q))
      | inr q ↦
          let i_in = side_full rwidth x i a d.1 in
          let j_in = side_full rheight y j b d.0 in absurd (ground (arith, e, p, q, i_in, j_in))
    ]
  ]

  tile-Progress :
      (x y : ℕ) (g g' : Image)
      → x ≤ rwidth
      → y ≤ rheight
      → Progress x y g
      → Shows (rx + x) (ry + y) (side rwidth x) (side rheight y) (λ i j. im (x + i) (y + j)) g g'
      → Progress (x + 16) y g'
  tile-Progress x y g g' hx hy s t =
      let r : Subrect = record {
        colour = 0;
        x = rx + x;
        y = ry + y;
        w = side rwidth x;
        h = side rheight y;
      } in
      record {
        inside = λ i j a b d. elim (Bool-cases (in_rect r (rx + i) (ry + j))) [
          | inl e ↦
              let c : x ≤ i = ground (arith, e) in
              let d : y ≤ j = ground (arith, e) in
              let i_in : i - x < side rwidth x = ground (arith, e, c) in
              let j_in : j - y < side rheight y = ground (arith, e, d) in
              let column : rx + x + (i - x) ≡ rx + i = omega (arith, c) in
              let row : ry + y + (j - y) ≡ ry + j = omega (arith, d) in
              sym (ap₂ g' column row)
              ∙ t.inside (i - x) (j - y) i_in j_in
              ∙ ap₂ im (omega (arith, c)) (omega (arith, d))
          | inr e ↦ t.outside (rx + i) (ry + j) e ∙ s.inside i j a b (not_in_tile x y i j a b d e)
        ];
        outside = λ a b e.
            let off : in_rect r a b ≡ false =
              ground (arith, e, side_le rwidth x hx, side_le rheight y hy) in
            t.outside a b off ∙ s.outside a b e;
      }

  -- What the client makes of some tiles.
  record Reads (sent : List ℕ × Known) (P : Image → Type 0) (v : Viewer)
      (read : List ℕ → Option (Viewer × Pens × List ℕ)) (rest : List ℕ) : Type 0 where
    viewer : Viewer
    pens : Pens
    g : Image
    reads : read (sent.0 ++ rest) ≡ some (viewer, pens, rest)
    frame : viewer.frame ≡ some g
    shows : P g
    agrees : Agrees sent.1 pens
    width_kept : viewer.width ≡ width
    height_kept : viewer.height ≡ height

  row-Reads :
      (left x y : ℕ) (k : Known) (v : Viewer) (p : Pens) (g : Image) (rest : List ℕ)
      → rwidth ≤ x + 16 * left
      → x + 16 * left < rwidth + 16
      → y < rheight
      → v.frame ≡ some g
      → v.width ≡ width
      → v.height ≡ height
      → Agrees k p
      → Progress x y g
      → Reads
          (row_sent pixel im rwidth rheight left x y k)
          (Progress 0 (y + 16))
          v
          (row_read pixel rx ry rwidth rheight left x y v p)
          rest
  unfolding row_sent row_read
  row-Reads zero x y k v p g rest full few hy f vw vh a s = record {
    viewer = v;
    pens = p;
    g = g;
    reads = refl;
    frame = f;
    shows = record {
      inside = λ i j m n d. s.inside i j m n (elim d [
        | inl e ↦ elim (Bool-cases (ltb j y)) [
          | inl q ↦ inl (ground (arith, q))
          | inr q ↦ inr (e, omega (arith, m, full))
        ]
        | inr e ↦ absurd (omega (arith, e.1))
      ]);
      outside = s.outside;
    };
    agrees = a;
    width_kept = vw;
    height_kept = vh;
  }
  row-Reads (suc left) x y k v p g rest full few hy f vw vh a s =
      let tile : Image = λ i j. im (x + i) (y + j) in
      let sent = encode_tile pixel tile (side rwidth x) (side rheight y) k in
      let behind = row_sent pixel im rwidth rheight left (x + 16) y sent.1 in
      let hx : x ≤ rwidth = omega (arith, few) in
      let t =
        encode_tile_lem pixel (side rwidth x) (side rheight y) (rx + x) (ry + y) tile g v p k
          (behind.0 ++ rest) depth (side_small rwidth x) (side_small rheight y)
          (λ i j. below (x + i) (y + j)) f (omega (arith, side_le rwidth x hx, vw, wide))
          (omega (arith, side_le rheight y (omega (arith, hy)), vh, high)) a in
      let q =
        row-Reads left (x + 16) y sent.1 t.viewer t.pens t.g rest (omega (arith, full))
          (omega (arith, few)) hy t.frame_shown (t.width_kept ∙ vw) (t.height_kept ∙ vh)
          t.agrees_still (tile-Progress x y g t.g hx (omega (arith, hy)) s t.shows) in
      record {
        viewer = q.viewer;
        pens = q.pens;
        g = q.g;
        reads = rw (append_assoc sent.0 behind.0 rest, t.reads) q.reads;
        frame = q.frame;
        shows = q.shows;
        agrees = q.agrees;
        width_kept = q.width_kept;
        height_kept = q.height_kept;
      }

  rows-Reads :
      (left y : ℕ) (k : Known) (v : Viewer) (p : Pens) (g : Image) (rest : List ℕ)
      → rheight ≤ y + 16 * left
      → y + 16 * left < rheight + 16
      → v.frame ≡ some g
      → v.width ≡ width
      → v.height ≡ height
      → Agrees k p
      → Progress 0 y g
      → Reads
          (rows_sent pixel im rwidth rheight left y k)
          (Shows rx ry rwidth rheight im base)
          v
          (rows_read pixel rx ry rwidth rheight left y v p)
          rest
  unfolding rows_sent rows_read
  rows-Reads zero y k v p g rest full few f vw vh a s = record {
    viewer = v;
    pens = p;
    g = g;
    reads = refl;
    frame = f;
    shows = record {
      inside = λ i j m n. s.inside i j m n (inl (omega (arith, n, full)));
      outside = s.outside;
    };
    agrees = a;
    width_kept = vw;
    height_kept = vh;
  }
  rows-Reads (suc left) y k v p g rest full few f vw vh a s =
      let sent = row_sent pixel im rwidth rheight (rounds rwidth) 0 y k in
      let behind = rows_sent pixel im rwidth rheight left (y + 16) sent.1 in
      let t =
        row-Reads (rounds rwidth) 0 y k v p g (behind.0 ++ rest) (omega arith) (omega arith)
          (omega (arith, few)) f vw vh a s in
      let q =
        rows-Reads left (y + 16) sent.1 t.viewer t.pens t.g rest (omega (arith, full))
          (omega (arith, few)) t.frame t.width_kept t.height_kept t.agrees t.shows in
      record {
        viewer = q.viewer;
        pens = q.pens;
        g = q.g;
        reads = rw (append_assoc sent.0 behind.0 rest, t.reads) q.reads;
        frame = q.frame;
        shows = q.shows;
        agrees = q.agrees;
        width_kept = q.width_kept;
        height_kept = q.height_kept;
      }

  -- For an image of pixels of 1, 2 or 4 bytes and any sides, in a rectangle within the client's frame
  -- buffer, the loops over its tiles end on both sides by their tests: the server sends some bytes, the client
  -- reads all of them, and no more, and
  -- then shows the image in the rectangle, with the rest of the frame buffer as it was.
  pub handle_hextile_lem :
      (v : Viewer) (fg : ℕ) (rest : List ℕ)
      → v.frame ≡ some base
      → v.width ≡ width
      → v.height ≡ height
      → (bytes : List ℕ) × (v' : Viewer) × (p' : Pens) × (g : Image) × (send_hextiles pixel im
            rwidth rheight
          ≡ some bytes)
        × (handle_hextile pixel rx ry rwidth rheight fg v (bytes ++ rest) ≡ some (v', p', rest))
        × (v'.frame ≡ some g)
        × Shows rx ry rwidth rheight im base g
  unfolding handle_hextile send_hextiles
  handle_hextile_lem v fg rest f vw vh =
      let known : Known = record { bg = none; fg = none } in
      let pens : Pens = record { bg = 0; fg = fg } in
      let sent = rows_sent pixel im rwidth rheight (rounds rheight) 0 known in
      let left = rounds-IsLeft rheight in
      let q =
        rows-Reads (rounds rheight) 0 known v pens base rest (omega arith) (omega arith) f vw vh
          (record { bg = λ c e. cc; fg = λ c e. cc })
          (record { inside = λ i j m n d. absurd (omega (arith, d)); outside = λ a b e. refl }) in
      (
        sent.0,
        q.viewer,
        q.pens,
        q.g,
        rw (send_hextiles, send_rows_lem pixel im rwidth rheight (rounds rheight) 0 known left)
            refl,
        read_rows_lem pixel rx ry rwidth rheight (rounds rheight) 0 v pens (sent.0 ++ rest) left
            ∙ q.reads,
        q.frame,
        q.shows,
      )
