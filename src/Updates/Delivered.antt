-- ===== src/Updates/Delivered.antt =====
-- The regions of an update, as the messages that the client executes: `rfbSendCopyRegion` and the pixel
-- data of `rfbSendFramebufferUpdate` in libvncserver/rfbserver.c, and `rfbDoCopyRect` of
-- libvncserver/main.c.
use libvncserver.Base.{
  All-map, All-both, ◌+◌, Bool, true, false, ◌&&◌, ◌≡◌, refl, sym, ap, ap₂, ◌∙◌, arith, List, [],
  ◌∷◌, map, some,
}
use libvncserver.Base.Int.{ℤ, pos, ◌-ℤ◌, ◌≤ℤ◌, ◌<ℤ◌, ltb_ℤ, leb_ℤ, -ℤ_parts}
use libvncserver.Region.Laws.{within, within_low, within_high, within_intro, leb_ℤ_true}
use libvncserver.Region.Nested.{Region, IsRegion, contains}
use libvncserver.Region.Rgn.{Rect, create_rect, count_rects}
use libvncserver.Region.Iterator.{rects, iterate, get_reverse_iterator}
use libvncserver.Region.Iterate.{iterate_lem}
use libvncserver.Region.Order.{
  in_rectangle, in_some, rects_points, rects-Ordered, IsOpen, rects-IsOpen, each_of_some,
}
use libvncserver.Updates.Sync.{Pixels, on_screen, InSync}
use libvncserver.Updates.Client.{Screen, Client, Update, schedule_copy, schedule_copy_region}
use libvncserver.Region.Boolean.{create_rect_lem}
use libvncserver.Updates.Copy.{schedule_copy-InSync}
use libvncserver.Updates.Send.{shown}
use libvncserver.Updates.Copying.{
  CopyMessage, copy_message, send_copy_region, handle_copy_rects, send_pixels, draw_rects,
  do_copy_rect, copy_rect, copy_rects, do_copy_region, is_on_screen, source_of, all_on_screen,
}
use libvncserver.Updates.Copies.{Copies, Copies-same, copy_rect-Copies}
use libvncserver.Updates.Moved.{IsSendable, both-IsSendable, messages-Execute}

-- On a screen of at most 65535 columns and rows, for a well-formed region that is on the screen with the
-- sources of its pixels, `rfbSendCopyRegion` ends, and a client that executes its messages one
-- behind the other comes to the screen on which all pixels of the region are copied at once.
pub send_copy_region_lem :
    (s : Screen) (r : Region) (dx dy : ℤ) (before : Pixels)
    → IsRegion r
    → s.width ≤ℤ pos 65535
    → s.height ≤ℤ pos 65535
    → ((x y : ℤ)
        → contains r x y ≡ true
        → (on_screen s x y ≡ true) × (on_screen s (x -ℤ dx) (y -ℤ dy) ≡ true))
    → (ms : List CopyMessage) × (after : Pixels) × (send_copy_region r dx dy ≡ some ms)
      × (handle_copy_rects s.width s.height ms before ≡ some after)
      × Copies dx dy (contains r) before after
unfolding send_copy_region
send_copy_region_lem s r dx dy before v w h f =
    let rs = rects (ltb_ℤ (pos 0) dx) (ltb_ℤ (pos 0) dy) r in
    let at = rects_points (ltb_ℤ (pos 0) dx) (ltb_ℤ (pos 0) dy) r in
    let i = (iterate_lem (ltb_ℤ (pos 0) dx) (ltb_ℤ (pos 0) dy) r v).0 in
    let inside =
      each_of_some (λ x y. (on_screen s x y ≡ true) × (on_screen s (x -ℤ dx) (y -ℤ dy) ≡ true)) rs
        (λ x y e. f x y (sym (at x y) ∙ e)) in
    let proper = rects-IsOpen (ltb_ℤ (pos 0) dx) (ltb_ℤ (pos 0) dy) r v in
    let all =
      All-map
        (λ q.
          IsOpen q
          × ((x y : ℤ)
              → in_rectangle q x y ≡ true
              → (on_screen s x y ≡ true) × (on_screen s (x -ℤ dx) (y -ℤ dy) ≡ true)))
        (IsSendable s.width s.height dx dy) rs
        (λ q p. both-IsSendable s.width s.height dx dy w h q p.0 p.1)
        (All-both IsOpen
          (λ q.
            (x y : ℤ)
            → in_rectangle q x y ≡ true
            → (on_screen s x y ≡ true) × (on_screen s (x -ℤ dx) (y -ℤ dy) ≡ true))
          rs proper inside) in
    let e = messages-Execute s.width s.height dx dy w h rs before all (rects-Ordered dx dy r v) in
    (
      map (copy_message dx dy) rs,
      e.result,
      rw (send_copy_region, i) refl,
      e.handles,
      Copies-same dx dy (in_some rs) (contains r) before e.result at e.copies,
    )

module _ (s : Screen) (server client : Pixels) (given : Region) (c : Client) (quiet : Bool)
    (wide : pos 0 <ℤ s.width) (w16 : s.width ≤ℤ pos 65535) (h16 : s.height ≤ℤ pos 65535)
    (given_IsRegion : IsRegion given) (i : InSync s server client c)
    (requests : (x y : ℤ) → contains c.requested x y ≡ true → on_screen s x y ≡ true) where
  -- The messages of an update, and what the client has behind them.
  pub record Delivered (u : Update) : Type 0 where
    pub copies : List CopyMessage
    pub copied : Pixels
    pub drawn : List Rect
    pub sends_copies : send_copy_region u.copied u.dx u.dy ≡ some copies
    pub handles : handle_copy_rects s.width s.height copies client ≡ some copied
    pub sends_pixels : send_pixels u.drawn ≡ some drawn
    pub shows : (x y : ℤ) → draw_rects server drawn copied x y ≡ shown server client (some u) x y

both : (a b : Bool) → (a && b) ≡ true → (a ≡ true) × (b ≡ true)
both true b h = (refl, h)
both false b h = absurd cc

rects_single :
    (a b : Bool) (x1 y1 x2 y2 : ℤ)
    → rects a b (create_rect x1 y1 x2 y2) ≡ record { x1 = x1; y1 = y1; x2 = x2; y2 = y2 } ∷ []
unfolding rects create_rect
rects_single false false x1 y1 x2 y2 = refl
rects_single false true x1 y1 x2 y2 = refl
rects_single true false x1 y1 x2 y2 = refl
rects_single true true x1 y1 x2 y2 = refl

do_copy_region_of :
    (s : Screen) (r : Region) (dx dy : ℤ) (server : Pixels) (cs : List Client) (rs : List Rect)
    → iterate (count_rects r + 1) (get_reverse_iterator r (ltb_ℤ dx (pos 0)) (ltb_ℤ dy (pos 0)))
      ≡ some rs
    → all_on_screen s dx dy rs ≡ true
    → do_copy_region s r dx dy server cs
      ≡ some (copy_rects (copy_rect dx dy) rs server, map (schedule_copy s r dx dy) cs)
unfolding do_copy_region schedule_copy_region
do_copy_region_of s r dx dy server cs rs i h = rw (do_copy_region, i, h) refl

-- A place between two others, and its source.
within-shifted :
    (lo hi d z size : ℤ)
    → pos 0 ≤ℤ lo -ℤ d
    → hi -ℤ d ≤ℤ size
    → within lo hi z ≡ true
    → within (pos 0) size (z -ℤ d) ≡ true
within-shifted lo hi d z size a b k =
    let l = within_low lo hi z k in
    let h = within_high lo hi z k in
    within_intro (pos 0) size (z -ℤ d) (omega (arith, a, l, -ℤ_parts lo d, -ℤ_parts z d))
      (omega (arith, b, h, -ℤ_parts hi d, -ℤ_parts z d))

sides_on :
    (s : Screen) (r : Rect)
    → is_on_screen s r ≡ true
    → (pos 0 ≤ℤ r.x1) × (r.x2 ≤ℤ s.width) × (pos 0 ≤ℤ r.y1) × (r.y2 ≤ℤ s.height)
unfolding is_on_screen
sides_on s r h =
    let p = both (leb_ℤ (pos 0) r.x1 && leb_ℤ r.x1 r.x2 && leb_ℤ r.x2 s.width) _ h in
    let q = both (leb_ℤ (pos 0) r.x1 && leb_ℤ r.x1 r.x2) (leb_ℤ r.x2 s.width) p.0 in
    let t = both (leb_ℤ (pos 0) r.y1 && leb_ℤ r.y1 r.y2) (leb_ℤ r.y2 s.height) p.1 in
    (
      leb_ℤ_true (pos 0) r.x1 (both (leb_ℤ (pos 0) r.x1) (leb_ℤ r.x1 r.x2) q.0).0,
      leb_ℤ_true r.x2 s.width q.1,
      leb_ℤ_true (pos 0) r.y1 (both (leb_ℤ (pos 0) r.y1) (leb_ℤ r.y1 r.y2) t.0).0,
      leb_ℤ_true r.y2 s.height t.1,
    )

-- The pixels of a rectangle have their sources on the screen, where its source is.
source_on :
    (s : Screen) (x1 y1 x2 y2 dx dy x y : ℤ)
    → is_on_screen s (source_of dx dy (record { x1 = x1; y1 = y1; x2 = x2; y2 = y2 })) ≡ true
    → (within y1 y2 y && within x1 x2 x) ≡ true
    → on_screen s (x -ℤ dx) (y -ℤ dy) ≡ true
source_on s x1 y1 x2 y2 dx dy x y h k =
    let p = sides_on s (source_of dx dy (record { x1 = x1; y1 = y1; x2 = x2; y2 = y2 })) h in
    let q = both (within y1 y2 y) (within x1 x2 x) k in
    ap₂ (λ a b. a && b) (within-shifted x1 x2 dx x s.width p.0 p.1 q.1)
      (within-shifted y1 y2 dy y s.height p.2 p.3 q.0)

-- For a rectangle with pixels that is on the screen with its source, `rfbDoCopyRect` ends: the frame buffer
-- has all its pixels copied at once, and where the cursor is not empty, it leaves every client
-- that could follow regions by which it can follow.
pub do_copy_rect_lem :
    (s : Screen) (x1 y1 x2 y2 dx dy : ℤ) (server : Pixels) (cs : List Client)
    → x1 <ℤ x2
    → y1 <ℤ y2
    → pos 0 <ℤ s.cursor_width
    → pos 0 <ℤ s.cursor_height
    → is_on_screen s (record { x1 = x1; y1 = y1; x2 = x2; y2 = y2 }) ≡ true
    → is_on_screen s (source_of dx dy (record { x1 = x1; y1 = y1; x2 = x2; y2 = y2 })) ≡ true
    → (after : Pixels) × (do_copy_rect s x1 y1 x2 y2 dx dy server cs
        ≡ some (after, map (schedule_copy s (create_rect x1 y1 x2 y2) dx dy) cs))
      × Copies dx dy (contains (create_rect x1 y1 x2 y2)) server after
      × ((client : Pixels) (c : Client)
          → InSync s server client c
          → InSync s after client (schedule_copy s (create_rect x1 y1 x2 y2) dx dy c))
unfolding do_copy_rect copy_rects schedule_copy_region all_on_screen
do_copy_rect_lem s x1 y1 x2 y2 dx dy server cs wide high cw ch here there =
    let r = create_rect x1 y1 x2 y2 in
    let rect : Rect = record { x1 = x1; y1 = y1; x2 = x2; y2 = y2 } in
    let v = create_rect_lem x1 y1 x2 y2 wide high in
    let a = ltb_ℤ dx (pos 0) in
    let b = ltb_ℤ dy (pos 0) in
    let i = (iterate_lem a b r v.0).0 ∙ ap some (rects_single a b x1 y1 x2 y2) in
    let after = copy_rect dx dy rect server in
    let copies : Copies dx dy (contains r) server after =
      Copies-same dx dy (in_rectangle rect) (contains r) server after
        (λ x y.
          let q = ap (λ l. in_some l x y) (rects_single a b x1 y1 x2 y2) in
          let p = rects_points a b r x y in ground (arith, p, q))
        (copy_rect-Copies dx dy rect server high) in
    (
      after,
      do_copy_region_of s r dx dy server cs (rect ∷ []) i (rw (all_on_screen, here, there) refl),
      copies,
      λ client c k.
          schedule_copy-InSync s server after client r dx dy v.0 c cw ch
            (record {
              source = λ x y h p. source_on s x1 y1 x2 y2 dx dy x y there (sym (v.1 x y) ∙ p);
              moved = λ x y h. copies x y;
            })
            k,
    )
