-- ===== src/Updates/Moved.antt =====
-- `CopyRectangleFromRectangle` of libvncclient/vncviewer.c, `rfbSendCopyRegion` of
-- libvncserver/rfbserver.c with its client, and `rfbDoCopyRect` of libvncserver/main.c.
use libvncserver.Base.{
  All, ℕ, true, not, ◌&&◌, ◌≡◌, refl, sym, ap, ap₂, ◌∙◌, arith, List, [], ◌∷◌, map, Bool-cases, inl,
  inr, subst, some,
}
use libvncserver.Base.Int.{
  ℤ, pos, negsuc, eq_of_parts, ◌+ℤ◌, ◌-ℤ◌, ◌≤ℤ◌, ◌<ℤ◌, ltb_ℤ, leb_ℤ, +ℤ_parts, -ℤ_parts,
}
use libvncserver.Region.Laws.{within, within_intro, within_low, within_high}
use libvncserver.Region.Rgn.{Rect}
use libvncserver.Region.Tight.{range_within}
use libvncserver.Region.Order.{in_rectangle, in_some, IsFree, Ordered, IsOpen}
use libvncserver.Updates.Sync.{Pixels}
use libvncserver.Updates.Copying.{
  copy_columns, copy_rows, first_place, fits, copy_rectangle, to_u16, copy_message,
  handle_copy_rect, handle_copy_rects,
}
use libvncserver.Updates.Copies.{
  Copies, Suits, run, run_first, copy_columns-Copies, copy_rows-Copies, Copies-same, Copies-Copies,
  some-free,
}

difference-Suits : (a b : ℤ) → Suits (not (ltb_ℤ a b)) (a -ℤ b)
difference-Suits a b =
    let p = -ℤ_parts a b in
    elim (Bool-cases (ltb_ℤ a b)) [
      | inl e ↦ subst (λ c. Suits (not c) (a -ℤ b)) (sym e) (ground (arith, e, p))
      | inr e ↦ subst (λ c. Suits (not c) (a -ℤ b)) (sym e) (ground (arith, e, p))
    ]

-- On a client's screen, with both rectangles inside, `CopyRectangleFromRectangle` copies all pixels
-- as if at once, also where the rectangles overlap.
pub copy_rectangle_lem :
    (width height src_x src_y dest_x dest_y : ℤ) (w h : ℕ) (s : Pixels)
    → fits width height src_x src_y (pos w) (pos h) ≡ true
    → fits width height dest_x dest_y (pos w) (pos h) ≡ true
    → Copies
        (dest_x -ℤ src_x)
        (dest_y -ℤ src_y)
        (λ x y. within dest_x (dest_x +ℤ pos w) x && within dest_y (dest_y +ℤ pos h) y)
        s
        (copy_rectangle width height src_x src_y (pos w) (pos h) dest_x dest_y s)
unfolding copy_rectangle
copy_rectangle_lem width height src_x src_y dest_x dest_y w h s f g =
    let dx = dest_x -ℤ src_x in
    let dy = dest_y -ℤ src_y in
    let left = not (ltb_ℤ dest_x src_x) in
    let up = not (ltb_ℤ dest_y src_y) in
    let row = λ (j : ℤ). copy_columns dx dy left j w (first_place left dest_x w) in
    let rows =
      copy_rows-Copies dx dy (run left (first_place left dest_x w) w) row
        (λ j s.
          copy_columns-Copies dx dy left j w (first_place left dest_x w) s
            (difference-Suits dest_x src_x))
        up h (first_place up dest_y h) s (difference-Suits dest_y src_y) in
    rw (copy_rectangle, f, g)
      (Copies-same dx dy
        (λ x y. run left (first_place left dest_x w) w x && run up (first_place up dest_y h) h y)
        (λ x y. within dest_x (dest_x +ℤ pos w) x && within dest_y (dest_y +ℤ pos h) y) s
        (copy_rows row up h (first_place up dest_y h) s)
        (λ x y. ap₂ (λ a b. a && b) (run_first left dest_x w x) (run_first up dest_y h y)) rows)

-- What the message of a rectangle needs: the rectangle and its source are on a screen of 16 bits.
pub record IsSendable (width height dx dy : ℤ) (r : Rect) : Type 0 where
  wide : r.x1 <ℤ r.x2
  high : r.y1 <ℤ r.y2
  left : pos 0 ≤ℤ r.x1
  right : r.x2 ≤ℤ width
  top : pos 0 ≤ℤ r.y1
  bottom : r.y2 ≤ℤ height
  src_left : pos 0 ≤ℤ r.x1 -ℤ dx
  src_right : r.x2 -ℤ dx ≤ℤ width
  src_top : pos 0 ≤ℤ r.y1 -ℤ dy
  src_bottom : r.y2 -ℤ dy ≤ℤ height

to_u16_exact : (a : ℤ) → pos 0 ≤ℤ a → a ≤ℤ pos 65535 → pos (to_u16 a) ≡ a
unfolding to_u16
to_u16_exact (pos n) h k = ap pos (omega arith)
to_u16_exact (negsuc n) h k = absurd (omega (arith, h))

-- A difference of two coordinates, as a field.
size_exact :
    (a b m : ℤ) → a <ℤ b → pos 0 ≤ℤ a → b ≤ℤ m → m ≤ℤ pos 65535 → a +ℤ pos (to_u16 (b -ℤ a)) ≡ b
size_exact a b m h p q n =
    let d = -ℤ_parts b a in
    let e = to_u16_exact (b -ℤ a) (omega (arith, d, h)) (omega (arith, d, p, q, n)) in
    let f = +ℤ_parts a (b -ℤ a) in
    ap (λ z. a +ℤ z) e ∙ eq_of_parts (a +ℤ (b -ℤ a)) b (omega (arith, d, f))

back_shift : (a d : ℤ) → a -ℤ (a -ℤ d) ≡ d
back_shift a d = eq_of_parts (a -ℤ (a -ℤ d)) d (omega (arith, -ℤ_parts a d, -ℤ_parts a (a -ℤ d)))

-- The end of the source is the source of the end.
source_end : (a b d : ℤ) (n : ℕ) → a +ℤ pos n ≡ b → (a -ℤ d) +ℤ pos n ≡ b -ℤ d
source_end a b d n e = rw⁻¹ e (
    eq_of_parts ((a -ℤ d) +ℤ pos n) ((a +ℤ pos n) -ℤ d) (
      omega (
        arith,
        -ℤ_parts a d,
        +ℤ_parts (a -ℤ d) (pos n),
        +ℤ_parts a (pos n),
        -ℤ_parts (a +ℤ pos n) d,
      )))

module _ (width height dx dy : ℤ) (w16 : width ≤ℤ pos 65535) (h16 : height ≤ℤ pos 65535) where
  -- The client reads the rectangle and the source that the server meant.
  record Reads (r : Rect) : Type 0 where
    x : pos (copy_message dx dy r).x ≡ r.x1
    y : pos (copy_message dx dy r).y ≡ r.y1
    end_x : r.x1 +ℤ pos (copy_message dx dy r).w ≡ r.x2
    end_y : r.y1 +ℤ pos (copy_message dx dy r).h ≡ r.y2
    src_x : pos (copy_message dx dy r).src_x ≡ r.x1 -ℤ dx
    src_y : pos (copy_message dx dy r).src_y ≡ r.y1 -ℤ dy

  IsSendable-Reads : (r : Rect) → IsSendable width height dx dy r → Reads r
  unfolding copy_message
  IsSendable-Reads r k =
      let p = -ℤ_parts r.x1 dx in
      let q = -ℤ_parts r.y1 dy in
      let m = -ℤ_parts r.x2 dx in
      let n = -ℤ_parts r.y2 dy in
      record {
        x = to_u16_exact r.x1 k.left (omega (arith, k.wide, k.right, w16));
        y = to_u16_exact r.y1 k.top (omega (arith, k.high, k.bottom, h16));
        end_x = size_exact r.x1 r.x2 width k.wide k.left k.right w16;
        end_y = size_exact r.y1 r.y2 height k.high k.top k.bottom h16;
        src_x =
            to_u16_exact (r.x1 -ℤ dx) k.src_left (omega (arith, k.wide, p, m, k.src_right, w16));
        src_y =
            to_u16_exact (r.y1 -ℤ dy) k.src_top (omega (arith, k.high, q, n, k.src_bottom, h16));
      }

  leb_of_le : (a b : ℤ) → a ≤ℤ b → leb_ℤ a b ≡ true
  leb_of_le a b h = ground arith

  fits_of_le :
      (x y x' y' : ℤ) (w h : ℕ)
      → x +ℤ pos w ≡ x'
      → y +ℤ pos h ≡ y'
      → x' ≤ℤ width
      → y' ≤ℤ height
      → fits width height x y (pos w) (pos h) ≡ true
  fits_of_le x y x' y' w h p q k l = rw (p, q, leb_of_le x' width k, leb_of_le y' height l) refl

  -- The client executes one message.
  record Executes (r : Rect) (s : Pixels) : Type 0 where
    result : Pixels
    handles : handle_copy_rect width height (copy_message dx dy r) s ≡ some result
    copies : Copies dx dy (in_rectangle r) s result

  message-Executes : (r : Rect) (s : Pixels) → IsSendable width height dx dy r → Executes r s
  unfolding handle_copy_rect
  message-Executes r s k =
      let m = copy_message dx dy r in
      let e = IsSendable-Reads r k in
      let end_x : pos m.x +ℤ pos m.w ≡ r.x2 = ap (λ z. z +ℤ pos m.w) e.x ∙ e.end_x in
      let end_y : pos m.y +ℤ pos m.h ≡ r.y2 = ap (λ z. z +ℤ pos m.h) e.y ∙ e.end_y in
      let f = fits_of_le (pos m.x) (pos m.y) r.x2 r.y2 m.w m.h end_x end_y k.right k.bottom in
      let g =
        fits_of_le (pos m.src_x) (pos m.src_y) (r.x2 -ℤ dx) (r.y2 -ℤ dy) m.w m.h
          (ap (λ z. z +ℤ pos m.w) e.src_x ∙ source_end r.x1 r.x2 dx m.w e.end_x)
          (ap (λ z. z +ℤ pos m.h) e.src_y ∙ source_end r.y1 r.y2 dy m.h e.end_y) k.src_right
          k.src_bottom in
      let t =
        copy_rectangle width height (pos m.src_x) (pos m.src_y) (pos m.w) (pos m.h) (pos m.x)
          (pos m.y) s in
      let c =
        copy_rectangle_lem width height (pos m.src_x) (pos m.src_y) (pos m.x) (pos m.y) m.w m.h s g
          f in
      let shift_x : pos m.x -ℤ pos m.src_x ≡ dx =
        ap₂ (λ a b. a -ℤ b) e.x e.src_x ∙ back_shift r.x1 dx in
      let shift_y : pos m.y -ℤ pos m.src_y ≡ dy =
        ap₂ (λ a b. a -ℤ b) e.y e.src_y ∙ back_shift r.y1 dy in
      let area = λ (x y : ℤ).
        within (pos m.x) (pos m.x +ℤ pos m.w) x && within (pos m.y) (pos m.y +ℤ pos m.h) y in
      record {
        result = t;
        handles = rw (handle_copy_rect, f) refl;
        copies =
            Copies-same dx dy area (in_rectangle r) s t
              (λ x y.
                ap₂ (λ a b. a && b) (ap₂ (λ a b. within a b x) e.x end_x)
                  (ap₂ (λ a b. within a b y) e.y end_y))
              (subst (λ d. Copies d dy area s t) shift_x
                (subst (λ d. Copies (pos m.x -ℤ pos m.src_x) d area s t) shift_y c));
      }

  -- The client executes some messages, each after those in front of it.
  pub record ExecutesAll (rs : List Rect) (s : Pixels) : Type 0 where
    pub result : Pixels
    pub handles : handle_copy_rects width height (map (copy_message dx dy) rs) s ≡ some result
    pub copies : Copies dx dy (in_some rs) s result

  pub messages-Execute :
      (rs : List Rect) (s : Pixels)
      → All (IsSendable width height dx dy) rs
      → Ordered (IsFree dx dy) rs
      → ExecutesAll rs s
  unfolding handle_copy_rects
  messages-Execute [] s k o = record { result = s; handles = refl; copies = λ x y. refl }
  messages-Execute (r ∷ rs) s k o =
      let e = message-Executes r s k.0 in
      let i = messages-Execute rs e.result k.1 o.1 in
      record {
        result = i.result;
        handles = rw (handle_copy_rects, e.handles) i.handles;
        copies =
            Copies-Copies dx dy (in_rectangle r) (in_some rs) s e.result i.result e.copies i.copies
              (some-free dx dy r rs o.0);
      }

  -- A pixel and its source are on the screen.
  abbrev pub IsOnBoth : ℤ → ℤ → Type 0
  IsOnBoth x y =
      ((within (pos 0) width x && within (pos 0) height y) ≡ true)
      × ((within (pos 0) width (x -ℤ dx) && within (pos 0) height (y -ℤ dy)) ≡ true)

  within-shift : (d m x : ℤ) → within (pos 0) m (x -ℤ d) ≡ true → within d (m +ℤ d) x ≡ true
  within-shift d m x h =
      let p = -ℤ_parts x d in
      let q = +ℤ_parts m d in
      let a = within_low (pos 0) m (x -ℤ d) h in
      let b = within_high (pos 0) m (x -ℤ d) h in
      within_intro d (m +ℤ d) x (omega (arith, p, a)) (omega (arith, p, q, b))

  pub both-IsSendable :
      (r : Rect)
      → IsOpen r
      → ((x y : ℤ) → in_rectangle r x y ≡ true → IsOnBoth x y)
      → IsSendable width height dx dy r
  both-IsSendable r o f =
      let start_x : within r.x1 r.x2 r.x1 ≡ true = let h = o.0 in ground (arith, h) in
      let start_y : within r.y1 r.y2 r.y1 ≡ true = let h = o.1 in ground (arith, h) in
      let row =
        λ (x : ℤ) (e : within r.x1 r.x2 x ≡ true). f x r.y1 (ap₂ (λ a b. a && b) e start_y) in
      let column =
        λ (y : ℤ) (e : within r.y1 r.y2 y ≡ true). f r.x1 y (ap₂ (λ a b. a && b) start_x e) in
      let a =
        range_within r.x1 r.x2 (pos 0) width o.0
          (λ x e. let k = (row x e).0 in ground (arith, k)) in
      let b =
        range_within r.y1 r.y2 (pos 0) height o.1
          (λ y e. let k = (column y e).0 in ground (arith, k)) in
      let c =
        range_within r.x1 r.x2 dx (width +ℤ dx) o.0
          (λ x e. let k = (row x e).1 in within-shift dx width x (ground (arith, k))) in
      let d =
        range_within r.y1 r.y2 dy (height +ℤ dy) o.1
          (λ y e. let k = (column y e).1 in within-shift dy height y (ground (arith, k))) in
      let p = +ℤ_parts width dx in
      let q = +ℤ_parts height dy in
      record {
        wide = o.0;
        high = o.1;
        left = a.0;
        right = a.1;
        top = b.0;
        bottom = b.1;
        src_left = omega (arith, c.0, -ℤ_parts r.x1 dx);
        src_right = omega (arith, c.1, p, -ℤ_parts r.x2 dx);
        src_top = omega (arith, d.0, -ℤ_parts r.y1 dy);
        src_bottom = omega (arith, d.1, q, -ℤ_parts r.y2 dy);
      }
