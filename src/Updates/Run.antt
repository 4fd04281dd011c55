-- ===== src/Updates/Run.antt =====
-- A server with a client over time: the calls of libvncserver/main.c and libvncserver/rfbserver.c that
-- change the client's regions, and what the two sides have on their screens.
use libvncserver.Base.{if_both, Bool, true, false, ◌||◌, ◌≡◌, arith, sym}
use libvncserver.Base.Int.{ℤ, pos, ◌+ℤ◌, ◌<ℤ◌, ◌≤ℤ◌, +ℤ_parts}
use libvncserver.Region.Nested.{Region, IsRegion, contains}
use libvncserver.Region.Rgn.{create, create_rect, rgn_or, rgn_subtract}
use libvncserver.Region.Boolean.{rgn_or_lem, rgn_subtract_lem, create_rect_lem}
use libvncserver.Updates.Sync.{Pixels, on_screen, InSync, rgn_or_out, grow_modified}
use libvncserver.Updates.Copy.{Copied, schedule_copy-InSync}
use libvncserver.Updates.Send.{shown, prepare_update-InSync, prepare_update_shows}
use libvncserver.Updates.Client.{
  Screen, Client, new_client, mark_modified, schedule_copy, request, prepare_update,
}

-- The frame buffer, what the client shows, and the regions of the client.
pub record State : Type 0 where
  pub server : Pixels
  pub client : Pixels
  pub regions : Client

-- What the client says of itself with its encodings, and where its cursor is.
pub record Settings : Type 0 where
  pub use_copy_rect : Bool
  pub enable_cursor_shape_updates : Bool
  pub cursor_x : ℤ
  pub cursor_y : ℤ

unfoldable pub set : Settings → Client → Client
set t c = record c {
  use_copy_rect = t.use_copy_rect;
  enable_cursor_shape_updates = t.enable_cursor_shape_updates;
  cursor_x = t.cursor_x;
  cursor_y = t.cursor_y;
}

-- The state behind an update.
unfoldable pub updated : Screen → Bool → Region → State → State
unfolding prepare_update shown
updated s quiet given t =
    let r = prepare_update s quiet given t.regions in
    record { server = t.server; client = shown t.server t.client r.1; regions = r.0 }

-- A step: the program draws in a region and marks it; it copies the pixels of a region, all at once and from
-- sources on the screen, and schedules the copy; the client changes its settings, or requests a
-- rectangle; an update is sent.
pub data Step (s : Screen) : State → State → Type 0 where
  drawn :
      {t : State} (after : Pixels) (r : Region)
      → IsRegion r
      → ((x y : ℤ) → on_screen s x y ≡ true → contains r x y ≡ false → after x y ≡ t.server x y)
      → Step s t (record t { server = after; regions = mark_modified r t.regions })
  copied :
      {t : State} (after : Pixels) (r : Region) (dx dy : ℤ)
      → IsRegion r
      → Copied s r dx dy t.server after
      → Step s t (record t { server = after; regions = schedule_copy s r dx dy t.regions })
  set_up :
      {t : State} (settings : Settings) → Step s t (record t { regions = set settings t.regions })
  requested :
      {t : State} (refused incremental : Bool) (x y w h : ℤ)
      → pos 0 <ℤ w
      → pos 0 <ℤ h
      → Step s t (record t { regions = request refused incremental x y w h t.regions })
  sent :
      {t : State} (quiet : Bool) (given : Region)
      → IsRegion given
      → Step s t (updated s quiet given t)

-- Steps from a new client on, whatever the two screens have then.
pub data Run (s : Screen) : State → Type 0 where
  start :
      (server client : Pixels)
      → Run s (record { server = server; client = client; regions = new_client s })
  step : {t u : State} → Run s t → Step s t u → Run s u

abbrev pub Follows : Screen → State → Type 0
Follows s t = InSync s t.server t.client t.regions

new_client-InSync :
    (s : Screen) (server client : Pixels)
    → pos 0 <ℤ s.width
    → pos 0 <ℤ s.height
    → InSync s server client (new_client s)
unfolding new_client create
new_client-InSync s server client wide high =
    let r = create_rect_lem (pos 0) (pos 0) s.width s.height wide high in
    record {
      modified_IsRegion = r.0;
      copy_IsRegion = (pos 0, tt);
      requested_IsRegion = (pos 0, tt);
      follows = λ x y h k. absurd (ground (arith, h, k, r.1 x y));
    }

pub request-InSync :
    (s : Screen) (server client : Pixels) (refused incremental : Bool) (x y w h : ℤ) (c : Client)
    → pos 0 <ℤ w
    → pos 0 <ℤ h
    → InSync s server client c
    → InSync s server client (request refused incremental x y w h c)
unfolding request
request-InSync s server client refused incremental x y w h c wide high i =
    let area = create_rect x y (x +ℤ w) (y +ℤ h) in
    let v =
      (create_rect_lem x y (x +ℤ w) (y +ℤ h) (omega (arith, wide, +ℤ_parts x w))
        (omega (arith, high, +ℤ_parts y h))).0 in
    let q = rgn_or_lem c.requested area i.requested_IsRegion v in
    let m = rgn_or_lem c.modified area i.modified_IsRegion v in
    let k = rgn_subtract_lem c.copy area i.copy_IsRegion v in
    if_both (InSync s server client) (incremental || refused)
      (record c { requested = rgn_or c.requested area })
      (record c {
        requested = rgn_or c.requested area;
        modified = rgn_or c.modified area;
        copy = (rgn_subtract c.copy area).0;
      })
      (record {
        modified_IsRegion = i.modified_IsRegion;
        copy_IsRegion = i.copy_IsRegion;
        requested_IsRegion = q.0;
        follows = i.follows;
      })
      (record {
        modified_IsRegion = m.0;
        copy_IsRegion = k.0;
        requested_IsRegion = q.0;
        follows = λ a b e f.
            let o = rgn_or_out c.modified area a b i.modified_IsRegion v f in
            let same : contains (rgn_subtract c.copy area).0 a b ≡ contains c.copy a b =
              ground (arith, o.1, k.1 a b) in
            rw same (i.follows a b e o.0);
      })

-- A request of the whole screen, and the update of all that is modified.
unfoldable pub refreshed : Screen → Bool → Bool → Bool → State → State
unfolding request updated
refreshed s refused incremental quiet t =
    let c = request refused incremental (pos 0) (pos 0) s.width s.height t.regions in
    updated s quiet c.modified (record t { regions = c })

-- What the steps need of a screen: it is not empty, nor is its cursor.
abbrev pub IsScreen : Screen → Type 0
IsScreen s =
    (pos 0 <ℤ s.width)
    × (pos 0 <ℤ s.height)
    × (pos 0 <ℤ s.cursor_width)
    × (pos 0 <ℤ s.cursor_height)

Step-Follows : (s : Screen) (t u : State) → IsScreen s → Step s t u → Follows s t → Follows s u
unfolding mark_modified updated set
Step-Follows s t u p (drawn after r v same) i =
    grow_modified s t.server after t.client r t.regions v same i
Step-Follows s t u p (copied after r dx dy v q) i =
    schedule_copy-InSync s t.server after t.client r dx dy v t.regions p.2 p.3 q i
Step-Follows s t u p (set_up settings) i = record {
  modified_IsRegion = i.modified_IsRegion;
  copy_IsRegion = i.copy_IsRegion;
  requested_IsRegion = i.requested_IsRegion;
  follows = i.follows;
}
Step-Follows s t u p (requested refused incremental x y w h a b) i =
    request-InSync s t.server t.client refused incremental x y w h t.regions a b i
Step-Follows s t u p (sent quiet given v) i =
    prepare_update-InSync s t.server t.client given t.regions p.0 v i quiet

-- The screen is not empty, and the cursor is not. From a new client on, the program draws and marks a
-- well-formed region that has every pixel of the screen that it changed; or all pixels of a
-- well-formed region, whose sources are on the screen, are copied at once and the copy is scheduled
-- (for one rectangle `rfbDoCopyRect` does so; for several that overlap each other's sources
-- `rfbDoCopyRegion` does not); or the client changes its settings, or requests a rectangle of positive
-- width and height; or an update is sent, in encodings without loss. After any such steps in any order,
-- the regions are well-formed, and each pixel of the server on the screen that is not marked as modified is on the
-- client's screen, or is there at the source of a copy that the server has noted for it.
pub Run-Follows : (s : Screen) (t : State) → IsScreen s → Run s t → Follows s t
Run-Follows s t p (start server client) = new_client-InSync s server client p.0 p.1
Run-Follows s t p (step {t = u} r q) = Step-Follows s u t p q (Run-Follows s u p r)

pub requests_all :
    (s : Screen) (refused incremental : Bool) (c : Client)
    → IsScreen s
    → IsRegion c.requested
    → (x y : ℤ) → on_screen s x y ≡ true
    → contains (request refused incremental (pos 0) (pos 0) s.width s.height c).requested x y ≡ true
unfolding request
requests_all s refused incremental c p v x y h =
    let a =
      create_rect_lem (pos 0) (pos 0) (pos 0 +ℤ s.width) (pos 0 +ℤ s.height)
        (omega (arith, p.0, +ℤ_parts (pos 0) s.width))
        (omega (arith, p.1, +ℤ_parts (pos 0) s.height)) in
    let q =
      rgn_or_lem c.requested (create_rect (pos 0) (pos 0) (pos 0 +ℤ s.width) (pos 0 +ℤ s.height)) v
        a.0 in
    let inside : contains (create_rect (pos 0) (pos 0) (pos 0 +ℤ s.width) (pos 0 +ℤ s.height)) x y
        ≡ true =
      ground (arith, h, a.1 x y, +ℤ_parts (pos 0) s.width, +ℤ_parts (pos 0) s.height) in
    let r : contains
          (rgn_or c.requested (create_rect (pos 0) (pos 0) (pos 0 +ℤ s.width) (pos 0 +ℤ s.height)))
          x y
        ≡ true =
      ground (arith, inside, q.1 x y) in
    if_both (λ (c : Client). contains c.requested x y ≡ true) (incremental || refused) _ _ r r

-- Under the same conditions, and without progressive updates: after any such steps in any order, a request
-- of the whole screen, incremental or not, and the update of all that is modified bring the client's screen
-- to the server's.
pub Run-shows :
    (s : Screen) (t : State) (refused incremental quiet : Bool)
    → IsScreen s
    → s.slice_height ≤ℤ pos 0
    → Run s t
    → (x y : ℤ) → on_screen s x y ≡ true
    → (refreshed s refused incremental quiet t).client x y
      ≡ (refreshed s refused incremental quiet t).server x y
unfolding refreshed updated
Run-shows s t refused incremental quiet p e r x y h =
    let i = Run-Follows s t p r in
    sym (
      prepare_update_shows s t.server t.client
        (request refused incremental (pos 0) (pos 0) s.width s.height t.regions) quiet p.0 e
        (request-InSync s t.server t.client refused incremental (pos 0) (pos 0) s.width s.height
          t.regions p.0 p.1 i)
        x y h (requests_all s refused incremental t.regions p i.requested_IsRegion x y h))
