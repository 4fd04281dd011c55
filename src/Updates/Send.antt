-- ===== src/Updates/Send.antt =====
-- `rfbSendFramebufferUpdate` of libvncserver/rfbserver.c: what it sends, and what it leaves.
use libvncserver.Base.{
  ℕ, ap, Bool, true, false, not, ◌&&◌, ◌||◌, if◌then◌else◌, ◌≡◌, refl, arith, Bool-cases, inl, inr,
  Option, none, some, ◌∙◌, Option-cases,
}
use libvncserver.Base.Int.{ℤ, pos, ◌+ℤ◌, ◌-ℤ◌, ◌<ℤ◌, ◌≤ℤ◌, ltb_ℤ, leb_ℤ, +ℤ_parts}
use libvncserver.Region.Nested.{Region, IsRegion, contains}
use libvncserver.Region.Rgn.{
  create, create_rect, rgn_and, rgn_or, rgn_subtract, rgn_empty, offset, bbox, pop_rect,
}
use libvncserver.Region.Boolean.{rgn_or_lem, rgn_and_lem, rgn_subtract_lem, create_rect_lem}
use libvncserver.Region.Offset.{offset_lem}
use libvncserver.Updates.Sync.{Pixels, on_screen, InSync, offset_at}
use libvncserver.Updates.Client.{Screen, Client, Update, slice, prepare_update}

-- What a client shows after an update: it copies, and then draws the pixels.
unfoldable pub shown : Pixels → Pixels → Option Update → Pixels
shown server client none = client
shown server client (some u) = λ x y.
    if contains u.drawn x y
    then server x y
    else if contains u.copied x y
    then client (x -ℤ u.dx) (y -ℤ u.dy)
    else client x y

slice-IsRegion :
    (s : Screen) (given : Region) (y : ℤ)
    → pos 0 <ℤ s.width
    → IsRegion given
    → IsRegion (slice s given y).0
unfolding slice
slice-IsRegion s given y wide v = elim (Bool-cases (ltb_ℤ (pos 0) s.slice_height)) [
  | inr t ↦ rw (slice, t) v
  | inl t ↦ elim (Option-cases (pop_rect false false (bbox given))) [
    | inl e ↦ rw (slice, t, e) v
    | inr ((rect, left), e) ↦
        let y' = if ltb_ℤ y rect.y1 || leb_ℤ rect.y2 y then rect.y1 else y in
        let high : pos 0 <ℤ s.slice_height = ground arith in
        let q =
          create_rect_lem (pos 0) y' s.width (y' +ℤ s.slice_height) wide
            (omega (arith, high, +ℤ_parts y' s.slice_height)) in
        rw (slice, t, e)
          (rgn_and_lem given (create_rect (pos 0) y' s.width (y' +ℤ s.slice_height)) v q.0).0
  ]
]

module _ (s : Screen) (server client : Pixels) (given : Region) (c : Client)
    (wide : pos 0 <ℤ s.width) (given_IsRegion : IsRegion given) (i : InSync s server client c) where
  -- The regions of the routine, in the order in which it makes them.
  abbrev copy : Region
  copy = (rgn_subtract c.copy c.modified).0

  abbrev sliced : Region
  sliced = (slice s given c.slice_y).0

  abbrev wanted : Region
  wanted = (rgn_and (rgn_or sliced copy) c.requested).0

  abbrev copied : Region
  copied = (rgn_and (rgn_and copy c.requested).0 (offset c.requested c.copy_dx c.copy_dy)).0

  abbrev drawn : Region
  drawn = (rgn_subtract wanted copied).0

  abbrev left : Region
  left = (rgn_subtract (rgn_subtract (rgn_or c.modified copy) drawn).0 copied).0

  abbrev next_slice : ℤ
  next_slice = (slice s given c.slice_y).1

  -- The regions are well-formed, and their pixels.
  record Parts : Type 0 where
    copy_lem :
        IsRegion copy
        × ((x y : ℤ) → contains copy x y ≡ contains c.copy x y && not (contains c.modified x y))
    wanted_lem :
        IsRegion wanted
        × ((x y : ℤ)
            → contains wanted x y
              ≡ (contains sliced x y || contains copy x y) && contains c.requested x y)
    copied_lem :
        (x y : ℤ)
        → contains copied x y
          ≡ (contains copy x y && contains c.requested x y)
            && contains c.requested (x -ℤ c.copy_dx) (y -ℤ c.copy_dy)
    copied_IsRegion : IsRegion copied
    pixels_IsRegion : IsRegion drawn
    pixels_lem : (x y : ℤ) → contains drawn x y ≡ contains wanted x y && not (contains copied x y)
    left_lem :
        IsRegion left
        × ((x y : ℤ)
            → contains left x y
              ≡ ((contains c.modified x y || contains copy x y) && not (contains drawn x y))
                && not (contains copied x y))

  sliced_or_copy : IsRegion (rgn_or sliced copy)
  sliced_or_copy =
      (rgn_or_lem sliced copy (slice-IsRegion s given c.slice_y wide given_IsRegion)
        (rgn_subtract_lem c.copy c.modified i.copy_IsRegion i.modified_IsRegion).0).0

  parts : Parts
  parts =
      let k = rgn_subtract_lem c.copy c.modified i.copy_IsRegion i.modified_IsRegion in
      let g = slice-IsRegion s given c.slice_y wide given_IsRegion in
      let o = rgn_or_lem sliced copy g k.0 in
      let w = rgn_and_lem (rgn_or sliced copy) c.requested o.0 i.requested_IsRegion in
      let a = rgn_and_lem copy c.requested k.0 i.requested_IsRegion in
      let f = offset_lem c.requested c.copy_dx c.copy_dy i.requested_IsRegion in
      let b =
        rgn_and_lem (rgn_and copy c.requested).0 (offset c.requested c.copy_dx c.copy_dy) a.0 f.0 in
      let p = rgn_subtract_lem wanted copied w.0 b.0 in
      let m = rgn_or_lem c.modified copy i.modified_IsRegion k.0 in
      let l = rgn_subtract_lem (rgn_or c.modified copy) drawn m.0 p.0 in
      let t = rgn_subtract_lem (rgn_subtract (rgn_or c.modified copy) drawn).0 copied l.0 b.0 in
      record {
        copy_lem = (k.0, k.1);
        wanted_lem = (w.0, λ x y. w.1 x y ∙ ground (arith, o.1 x y));
        copied_lem = λ x y.
            b.1 x y
            ∙ ground (
              arith,
              a.1 x y,
              offset_at c.requested c.copy_dx c.copy_dy x y i.requested_IsRegion,
            );
        copied_IsRegion = b.0;
        pixels_IsRegion = p.0;
        pixels_lem = p.1;
        left_lem = (t.0, λ x y. t.1 x y ∙ ground (arith, l.1 x y, m.1 x y));
      }

  kept : Client
  kept = record c { copy = copy; slice_y = next_slice }

  kept-InSync : InSync s server client kept
  unfolding kept
  kept-InSync = record {
    modified_IsRegion = i.modified_IsRegion;
    copy_IsRegion = parts.copy_lem.0;
    requested_IsRegion = i.requested_IsRegion;
    follows = λ x y h k.
        let same : contains copy x y ≡ contains c.copy x y =
          ground (arith, k, parts.copy_lem.1 x y) in
        rw same (i.follows x y h k);
  }

  update : Update
  update = record { drawn = drawn; copied = copied; dx = c.copy_dx; dy = c.copy_dy }

  emptied : Client
  emptied = record c {
    modified = left;
    copy = create;
    requested = create;
    copy_dx = pos 0;
    copy_dy = pos 0;
    slice_y = next_slice;
  }

  -- A pixel as the client has it, with or without the copy.
  abbrev by_copy : ℤ → ℤ → Bool → ℕ
  by_copy x y b = if b then client (x -ℤ c.copy_dx) (y -ℤ c.copy_dy) else client x y

  emptied-InSync : InSync s server (shown server client (some update)) emptied
  unfolding emptied update shown create
  emptied-InSync = record {
    modified_IsRegion = parts.left_lem.0;
    copy_IsRegion = (pos 0, tt);
    requested_IsRegion = (pos 0, tt);
    follows = λ x y h k. elim (Bool-cases (contains drawn x y)) [
      | inl t ↦ rw t refl
      | inr t ↦ elim (Bool-cases (contains copied x y)) [
        | inl u ↦
            let m : contains c.modified x y ≡ false =
              ground (arith, u, parts.copied_lem x y, parts.copy_lem.1 x y) in
            let q : contains c.copy x y ≡ true =
              ground (arith, u, parts.copied_lem x y, parts.copy_lem.1 x y) in
            rw (t, u) (i.follows x y h m ∙ ap (by_copy x y) q)
        | inr u ↦
            let m : contains c.modified x y ≡ false =
              ground (arith, t, u, k, parts.left_lem.1 x y) in
            let q : contains c.copy x y ≡ false =
              ground (arith, t, u, k, m, parts.left_lem.1 x y, parts.copy_lem.1 x y) in
            rw (t, u) (i.follows x y h m ∙ ap (by_copy x y) q)
      ]
    ];
  }

  -- What holds of both ways out of the routine holds of its result.
  prepare_update-cases :
      (P : Client × Option Update → Type 0) (quiet : Bool)
      → ((rgn_and (rgn_or sliced copy) c.requested).1 ≡ false → P (kept, none))
      → P (emptied, some update)
      → P (prepare_update s quiet given c)
  unfolding prepare_update kept emptied update
  prepare_update-cases P quiet p q =
      elim (Bool-cases
        (not (rgn_and (rgn_or sliced copy) c.requested).1 && (rgn_empty wanted && quiet))) [
          | inl t ↦ rw (prepare_update, t) (p (ground arith))
          | inr t ↦ rw (prepare_update, t) q
        ]

  -- Whatever region `rfbSendFramebufferUpdate` is given, on a screen that is not empty and with regions
  -- by which the client can follow, it leaves regions by which the client can follow from what it shows
  -- after the update.
  pub prepare_update-InSync :
      (quiet : Bool)
      → InSync s server
          (shown server client (prepare_update s quiet given c).1)
          (prepare_update s quiet given c).0
  unfolding shown kept
  prepare_update-InSync quiet =
      prepare_update-cases (λ r. InSync s server (shown server client r.1) r.0) quiet
        (λ e. kept-InSync) emptied-InSync

  -- The pixels that the client asked for, where all that is modified is given and sent at once.
  wanted_shown :
      (quiet : Bool)
      → sliced ≡ c.modified
      → (x y : ℤ) → on_screen s x y ≡ true
      → contains c.requested x y ≡ true
      → server x y ≡ shown server client (prepare_update s quiet given c).1 x y
  unfolding shown update create emptied
  wanted_shown quiet all x y h k =
      let at : contains sliced x y ≡ contains c.modified x y = ap (λ r. contains r x y) all in
      prepare_update-cases (λ r. server x y ≡ shown server client r.1 x y) quiet
        (λ e.
          let w : contains wanted x y ≡ false =
            (rgn_and_lem (rgn_or sliced copy) c.requested sliced_or_copy i.requested_IsRegion).3 e x
              y in
          let m : contains c.modified x y ≡ false =
            ground (arith, at, w, k, parts.wanted_lem.1 x y) in
          let q : contains c.copy x y ≡ false =
            ground (arith, at, w, k, m, parts.wanted_lem.1 x y, parts.copy_lem.1 x y) in
          i.follows x y h m ∙ ap (by_copy x y) q)
        (elim (Bool-cases (contains left x y)) [
          | inl t ↦ absurd (
              ground (
                arith,
                t,
                at,
                k,
                parts.left_lem.1 x y,
                parts.pixels_lem x y,
                parts.wanted_lem.1 x y,
              ))
          | inr t ↦ emptied-InSync.follows x y h t
        ])

  -- The regions of an update: what is copied is requested, and so is its source.
  abbrev pub IsUpdate : Option Update → Type 0
  IsUpdate none = Unit
  IsUpdate (some u) =
      IsRegion u.copied
      × IsRegion u.drawn
      × ((x y : ℤ)
          → contains u.copied x y ≡ true
          → (contains c.requested x y ≡ true)
            × (contains c.requested (x -ℤ u.dx) (y -ℤ u.dy) ≡ true))

  pub prepare_update-IsUpdate : (quiet : Bool) → IsUpdate (prepare_update s quiet given c).1
  unfolding update
  prepare_update-IsUpdate quiet =
      prepare_update-cases (λ r. IsUpdate r.1) quiet (λ e. tt)
        (
          parts.copied_IsRegion,
          parts.pixels_IsRegion,
          λ x y h. let q = parts.copied_lem x y in (ground (arith, h, q), ground (arith, h, q)),
        )

uncut :
    (s : Screen) (given : Region) (y : ℤ)
    → ltb_ℤ (pos 0) s.slice_height ≡ false
    → (slice s given y).0 ≡ given
unfolding slice
uncut s given y e = rw (slice, e) refl

-- Where all that is modified is given to `rfbSendFramebufferUpdate`, and it is not cut into slices,
-- a client that can follow shows, after the update, the server's pixels in all that it has requested.
pub prepare_update_shows :
    (s : Screen) (server client : Pixels) (c : Client) (quiet : Bool)
    → pos 0 <ℤ s.width
    → s.slice_height ≤ℤ pos 0
    → InSync s server client c
    → (x y : ℤ) → on_screen s x y ≡ true
    → contains c.requested x y ≡ true
    → server x y ≡ shown server client (prepare_update s quiet c.modified c).1 x y
prepare_update_shows s server client c quiet wide none_cut i =
    let whole : ltb_ℤ (pos 0) s.slice_height ≡ false = ground arith in
    wanted_shown s server client c.modified c wide i.modified_IsRegion i quiet
      (uncut s c.modified c.slice_y whole)
