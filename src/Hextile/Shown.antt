-- ===== src/Hextile/Shown.antt =====
-- A client of libvncclient/hextile.c shows a tile that libvncserver/hextile.c encodes.
use libvncserver.Base.{
  ℕ, zero, suc, ◌+◌, ◌*◌, ◌≤◌, ◌<◌, Bool, true, false, not, ◌≡◌, ◌≢◌, ◌⊎◌, inl, inr, refl, arith,
  ◌∙◌, sym, ap, List, [], ◌∷◌, ◌++◌, Option, none, some, Bool-cases, All, All-map, All-both,
}
use libvncserver.Base.Bytes.{limit}
use libvncserver.Subrects.Image.{Image, Subrect, fill_all}
use libvncserver.Subrects.Encode.{pixels}
use libvncserver.Subrects.Loop.{blank, AllParts}
use libvncserver.Subrects.Shown.{IsDepth}
use libvncserver.Subrects.Wire.{Viewer}
use libvncserver.Subrects.Canvas.{Shows, view_all, view_all-Views, background-Views}
use libvncserver.Hextile.Colours.{Colours, others, test_colours, test_colours_lem, test_colours-lt}
use libvncserver.Hextile.Tile.{
  Known, Pens, is_new, flag, put_if, get_if, tile_costs, tile_subrects, put_tile, encode_tile,
  decode_tile,
}
use libvncserver.Hextile.Drawn.{IsTile, tile_subrects-IsTile, tile_number, parts-IsTiny}
use libvncserver.Hextile.Bitmap.{length-pixels, pixels-All, pixels-at, copy_bitmap-Shows}
use libvncserver.Hextile.Places.{get_if-put_if}
use libvncserver.Hextile.Read.{old_colour, filled, solid_read, raw_read, subrects_read}

-- The client has the colours that the server takes it to have.
pub record Agrees (k : Known) (p : Pens) : Type 0 where
  pub bg : (c : ℕ) → k.bg ≡ some c → p.bg ≡ c
  pub fg : (c : ℕ) → k.fg ≡ some c → p.fg ≡ c

limit-positive : (n : ℕ) → 0 < limit n
limit-positive zero = omega arith
limit-positive (suc n) = omega (arith, limit-positive n)

some_same : (a b : ℕ) → ◌≡◌ {A = Option ℕ} (some a) (some b) → a ≡ b
some_same a b e = cc

nothing_read :
    (pixel c d : ℕ) (rest : List ℕ)
    → get_if false pixel c (put_if false pixel d ++ rest) ≡ some (c, rest)
unfolding get_if
nothing_read pixel c d rest = refl

-- The colour of a part is that of a pixel.
parts-All :
    (P : ℕ → Type 0) (w h : ℕ) (im : Image) (rs : List Subrect)
    → ((i j : ℕ) → i < w → j < h → P (im i j))
    → AllParts w h im rs
    → All (λ (r : Subrect). P r.colour) rs
parts-All P w h im [] f parts = tt
parts-All P w h im (r ∷ rs) f parts =
    let p = parts.0 in
    let column = p.column in
    let row = p.row in
    let width = p.width in
    let height = p.height in
    (rw p.colour (f r.x r.y (omega arith) (omega arith)), parts-All P w h im rs f parts.1)

module _ (pixel w h x y : ℕ) (im base : Image) (v : Viewer) (p : Pens) (k : Known) (rest : List ℕ)
    (depth : IsDepth pixel) (w16 : w ≤ 16) (h16 : h ≤ 16) (below : (i j : ℕ) → im i j < limit pixel)
    (frame : v.frame ≡ some base) (wide : x + w ≤ v.width) (high : y + h ≤ v.height)
    (agrees : Agrees k p) where
  -- The client reads a tile to its end and shows it, and agrees with the server again.
  pub record Shown (sent : List ℕ × Known) : Type 0 where
    pub viewer : Viewer
    pub pens : Pens
    pub g : Image
    pub reads : decode_tile pixel x y w h v p (sent.0 ++ rest) ≡ some (viewer, pens, rest)
    pub frame_shown : viewer.frame ≡ some g
    pub shows : Shows x y w h im base g
    pub agrees_still : Agrees sent.1 pens
    pub width_kept : viewer.width ≡ v.width
    pub height_kept : viewer.height ≡ v.height

  raw-Shown : (c : Colours) → Shown (put_tile pixel im w h k c none)
  unfolding put_tile
  raw-Shown c =
      let ps = pixels im w h 0 in
      let b = copy_bitmap-Shows im base w h x y v frame wide high in
      record {
        viewer = record v { frame = some b.0 };
        pens = p;
        g = b.0;
        reads =
            raw_read pixel x y w h v p ps rest (length-pixels im w h 0)
              (pixels-All (λ q. q < limit pixel) im w h 0 below)
            ∙ ap (λ u. some (u, p, rest)) b.1;
        frame_shown = refl;
        shows = b.2;
        agrees_still = record { bg = λ d e. cc; fg = λ d e. cc };
        width_kept = refl;
        height_kept = refl;
      }

  -- What rectangles show that draw the tile.
  drawn_shown :
      (bg : ℕ) (rs : List Subrect)
      → ((i j : ℕ) → i < w → j < h → fill_all rs (blank bg) i j ≡ im i j)
      → AllParts w h im rs
      → (g : Image) × ((view_all x y (filled pixel x y w h v p bg) rs).frame ≡ some g)
        × Shows x y w h im base g
        × ((view_all x y (filled pixel x y w h v p bg) rs).width ≡ v.width)
        × ((view_all x y (filled pixel x y w h v p bg) rs).height ≡ v.height)
  drawn_shown bg rs drawn parts =
      let s =
        view_all-Views x y w h base im v.width v.height (blank bg) (filled pixel x y w h v p bg) rs
          wide high parts (background-Views x y w h bg base v frame wide high) in
      (
        s.g,
        s.frame,
        record {
          inside = λ i j a b. s.shows.inside i j a b ∙ drawn i j a b;
          outside = s.shows.outside;
        },
        s.width_kept,
        s.height_kept,
      )

  -- A tile of one colour.
  solid-Shown :
      (c : ℕ) (new_bg : Bool)
      → c < limit pixel
      → (new_bg ≡ false → p.bg ≡ c)
      → All (λ q. q ≡ c) (pixels im w h 0)
      → Shown (flag new_bg 2 ∷ put_if new_bg pixel c, record { bg = some c; fg = k.fg })
  unfolding fill_all
  solid-Shown c new_bg l old same =
      let d = drawn_shown c [] (λ i j a b. sym (pixels-at (λ q. q ≡ c) im w h same i j a b)) tt in
      record {
        viewer = filled pixel x y w h v p c;
        pens = record { bg = c; fg = p.fg };
        g = d.0;
        reads = solid_read pixel x y w h v p new_bg c rest l old;
        frame_shown = d.1;
        shows = d.2;
        agrees_still = record { bg = λ d e. cc; fg = agrees.fg };
        width_kept = d.3;
        height_kept = d.4;
      }

  -- A tile with rectangles, of two colours or of more.
  subrects-Shown :
      (mono solid : Bool) (bg fg : ℕ) (rs : List Subrect)
      → IsTile (tile_costs pixel (not mono) w h) im w h bg rs
      → bg < limit pixel
      → fg < limit pixel
      → (mono ≡ true
          → All (λ q. (q ≡ bg) ⊎ (q ≡ fg)) (pixels im w h 0)
            × (others bg (pixels im w h 0) * 2 ≤ w * h))
      → Shown (
          put_tile pixel im w h k
            (record { mono = mono; solid = solid; bg = bg; fg = fg })
            (some rs))
  unfolding put_tile
  subrects-Shown true solid bg fg rs t lb lf two =
      let d = drawn_shown bg rs t.drawn t.parts in
      let new_fg = is_new k.fg fg in
      let either =
        parts-All (λ q. (q ≡ bg) ⊎ (q ≡ fg)) w h im rs
          (pixels-at (λ q. (q ≡ bg) ⊎ (q ≡ fg)) im w h (two refl).0) t.parts in
      let all_fg : All (λ (r : Subrect). r.colour ≡ fg) rs =
        All-map (λ (r : Subrect). ((r.colour ≡ bg) ⊎ (r.colour ≡ fg)) × (r.colour ≢ bg))
          (λ r. r.colour ≡ fg) rs (λ r q. elim q.0 [ inl e ↦ absurd (q.1 e) | inr e ↦ e ])
          (All-both (λ (r : Subrect). (r.colour ≡ bg) ⊎ (r.colour ≡ fg))
            (λ (r : Subrect). r.colour ≢ bg) rs either t.foreign) in
      let q =
        subrects_read pixel x y w h v p (is_new k.bg bg) new_fg false bg fg fg rs rest lb
          (old_colour k.bg bg p.bg agrees.bg)
          (λ rest. get_if-put_if new_fg pixel fg p.fg rest lf (old_colour k.fg fg p.fg agrees.fg))
          (tile_number pixel false im w h bg rs t depth w16 h16 (λ e. (two refl).1))
          (parts-IsTiny w h (limit pixel) im rs w16 h16 below t.parts) (λ e. all_fg) in
      record {
        viewer = view_all x y (filled pixel x y w h v p bg) rs;
        pens = record { bg = bg; fg = q.0 };
        g = d.0;
        reads = q.1;
        frame_shown = d.1;
        shows = d.2;
        agrees_still = record { bg = λ d e. cc; fg = λ d e. q.2 refl ∙ some_same fg d e };
        width_kept = d.3;
        height_kept = d.4;
      }
  subrects-Shown false solid bg fg rs t lb lf two =
      let d = drawn_shown bg rs t.drawn t.parts in
      let q =
        subrects_read pixel x y w h v p (is_new k.bg bg) false true bg p.fg fg rs rest lb
          (old_colour k.bg bg p.bg agrees.bg) (λ rest. nothing_read pixel p.fg fg rest)
          (tile_number pixel true im w h bg rs t depth w16 h16 (λ e. cc))
          (parts-IsTiny w h (limit pixel) im rs w16 h16 below t.parts) (λ e. cc) in
      record {
        viewer = view_all x y (filled pixel x y w h v p bg) rs;
        pens = record { bg = bg; fg = q.0 };
        g = d.0;
        reads = q.1;
        frame_shown = d.1;
        shows = d.2;
        agrees_still = record { bg = λ d e. cc; fg = λ d e. cc };
        width_kept = d.3;
        height_kept = d.4;
      }

  -- The tile as it is sent, by what is said of its pixels.
  encoded-Shown :
      (c : Colours) (o : Option (List Subrect))
      → c.bg < limit pixel
      → c.fg < limit pixel
      → (c.mono ≡ true
          → All (λ q. (q ≡ c.bg) ⊎ (q ≡ c.fg)) (pixels im w h 0)
            × (others c.bg (pixels im w h 0) * 2 ≤ w * h))
      → ((rs : List Subrect)
          → o ≡ some rs
          → IsTile (tile_costs pixel (not c.mono) w h) im w h c.bg rs)
      → Shown (put_tile pixel im w h k c o)
  encoded-Shown c none lb lf two f = raw-Shown c
  encoded-Shown c (some rs) lb lf two f =
      subrects-Shown c.mono c.solid c.bg c.fg rs (f rs refl) lb lf two

  -- For a tile of at most 16 columns and rows within the frame buffer of a client that has the colours which the server
  -- takes it to have, the client reads what is sent for the tile to its end, shows its
  -- image there with the rest of the frame buffer as it was, and again has the colours which the server takes it to have.
  pub encode_tile_lem : Shown (encode_tile pixel im w h k)
  unfolding encode_tile
  encode_tile_lem =
      let ps = pixels im w h 0 in
      let c = test_colours ps in
      let t = test_colours_lem ps in
      let l =
        test_colours-lt (limit pixel) ps (limit-positive pixel)
          (pixels-All (λ q. q < limit pixel) im w h 0 below) in
      elim (Bool-cases c.solid) [
        | inl e ↦ rw e (
            solid-Shown c.bg (is_new k.bg c.bg) l.0 (old_colour k.bg c.bg p.bg agrees.bg) (t.0 e).1)
        | inr e ↦ rw e (
            encoded-Shown c (tile_subrects pixel (not c.mono) im w h c.bg) l.0 l.1
              (λ m. let q = t.1 m in (q.0, rw (length-pixels im w h 0) at q.1))
              (λ rs. tile_subrects-IsTile pixel (not c.mono) im w h c.bg rs))
      ]
