-- ===== src/Updates/Copy.antt =====
-- `rfbScheduleCopyRegion` of libvncserver/main.c keeps a client's regions such that its screen can
-- follow.
use libvncserver.Base.{
  if_both, true, false, not, ◌||◌, if◌then◌else◌, ◌≡◌, refl, arith, ap₂, ◌∙◌, ap, Bool-cases, inl,
  inr, subst,
}
use libvncserver.Base.Int.{ℤ, pos, ◌+ℤ◌, ◌-ℤ◌, ◌<ℤ◌, eqb_ℤ, +ℤ_parts, eqb_ℤ→eq}
use libvncserver.Region.Nested.{Region, IsRegion, contains}
use libvncserver.Region.Rgn.{create, create_rect, rgn_and, rgn_or, rgn_empty, offset}
use libvncserver.Region.Boolean.{rgn_or_lem, rgn_and_lem, rgn_empty_lem, create_rect_lem}
use libvncserver.Region.Offset.{offset_lem}
use libvncserver.Updates.Sync.{
  Pixels, on_screen, InSync, minus_plus, minus_negate, offset_at, rgn_or_out, grow_modified,
}
use libvncserver.Updates.Client.{
  Screen, Client, negate, treat_old_copy, add_copy, mark_overlap, mark_cursor, schedule_copy,
}

-- Where a copy has put the pixels of the server.
pub record Copied (s : Screen) (r : Region) (dx dy : ℤ) (before after : Pixels) : Type 0 where
  pub source :
      (x y : ℤ)
      → on_screen s x y ≡ true
      → contains r x y ≡ true
      → on_screen s (x -ℤ dx) (y -ℤ dy) ≡ true
  pub moved :
      (x y : ℤ)
      → on_screen s x y ≡ true
      → after x y ≡ (if contains r x y then before (x -ℤ dx) (y -ℤ dy) else before x y)

module _ (s : Screen) (before after client : Pixels) (r : Region) (dx dy : ℤ) (v : IsRegion r) where
  -- What `add_copy` needs of the regions.
  record IsReady (c : Client) : Type 0 where
    modified_IsRegion : IsRegion c.modified
    copy_IsRegion : IsRegion c.copy
    requested_IsRegion : IsRegion c.requested
    follows :
        (x y : ℤ)
        → on_screen s x y ≡ true
        → contains c.modified x y ≡ false
        → before x y ≡ (if contains c.copy x y then client (x -ℤ dx) (y -ℤ dy) else client x y)
    source :
        (x y : ℤ)
        → contains r x y ≡ true
        → contains c.modified (x -ℤ dx) (y -ℤ dy) ≡ false
        → contains c.copy (x -ℤ dx) (y -ℤ dy) ≡ false

  treat_old_copy-IsReady :
      (c : Client) → InSync s before client c → IsReady (treat_old_copy r dx dy c)
  unfolding treat_old_copy create
  treat_old_copy-IsReady c i = elim (Bool-cases (rgn_empty c.copy)) [
    | inl e ↦
        let none_at = (rgn_empty_lem c.copy i.copy_IsRegion).0 e in
        rw (treat_old_copy, e)
          (record {
            modified_IsRegion = i.modified_IsRegion;
            copy_IsRegion = i.copy_IsRegion;
            requested_IsRegion = i.requested_IsRegion;
            follows = λ x y h k. rw (none_at x y) (rw (i.follows x y h k) (rw (none_at x y) refl));
            source = λ x y h k. none_at (x -ℤ dx) (y -ℤ dy);
          })
    | inr e ↦ elim (Bool-cases (not (eqb_ℤ c.copy_dx dx) || not (eqb_ℤ c.copy_dy dy))) [
      | inl t ↦
          let o = rgn_or_lem c.modified c.copy i.modified_IsRegion i.copy_IsRegion in
          rw (treat_old_copy, e, t)
            (record {
              modified_IsRegion = o.0;
              copy_IsRegion = (pos 0, tt);
              requested_IsRegion = i.requested_IsRegion;
              follows = λ x y h k.
                  let q = rgn_or_out c.modified c.copy x y i.modified_IsRegion i.copy_IsRegion k in
                  rw (i.follows x y h q.0) (rw q.1 refl);
              source = λ x y h k. refl;
            })
      | inr t ↦
          let px : c.copy_dx ≡ dx = eqb_ℤ→eq c.copy_dx dx (ground arith) in
          let py : c.copy_dy ≡ dy = eqb_ℤ→eq c.copy_dy dy (ground arith) in
          let back = offset r (negate dx) (negate dy) in
          let back_at : (x y : ℤ) → contains back (x -ℤ dx) (y -ℤ dy) ≡ contains r x y = λ x y.
            offset_at r (negate dx) (negate dy) (x -ℤ dx) (y -ℤ dy) v
            ∙ ap₂ (contains r) (minus_negate (x -ℤ dx) dx ∙ minus_plus x dx)
                (minus_negate (y -ℤ dy) dy ∙ minus_plus y dy) in
          let a =
            rgn_and_lem back c.copy (offset_lem r (negate dx) (negate dy) v).0 i.copy_IsRegion in
          let o = rgn_or_lem c.modified (rgn_and back c.copy).0 i.modified_IsRegion a.0 in
          rw (treat_old_copy, e, t)
            (record {
              modified_IsRegion = o.0;
              copy_IsRegion = i.copy_IsRegion;
              requested_IsRegion = i.requested_IsRegion;
              follows = λ x y h k.
                  let q =
                    rgn_or_out c.modified (rgn_and back c.copy).0 x y i.modified_IsRegion a.0 k in
                  subst
                    (λ d.
                      before x y
                      ≡ (if contains c.copy x y then client (x -ℤ d) (y -ℤ dy) else client x y))
                    px
                    (subst
                      (λ d. before x y ≡ (
                        if contains c.copy x y
                        then client (x -ℤ c.copy_dx) (y -ℤ d)
                        else client x y))
                      py (i.follows x y h q.0));
              source = λ x y h k.
                  let q =
                    rgn_or_out c.modified (rgn_and back c.copy).0 (x -ℤ dx) (y -ℤ dy)
                      i.modified_IsRegion a.0 k in
                  let at = back_at x y ∙ h in ground (arith, q.1, at, a.1 (x -ℤ dx) (y -ℤ dy));
            })
    ]
  ]

  add_copy-InSync :
      (c : Client)
      → Copied s r dx dy before after
      → IsReady c
      → InSync s after client (add_copy r dx dy c)
  unfolding add_copy
  add_copy-InSync c p i =
      let k = rgn_or_lem c.copy r i.copy_IsRegion v in
      let f = offset_lem c.modified dx dy i.modified_IsRegion in
      let n = rgn_and_lem (offset c.modified dx dy) (rgn_or c.copy r) f.0 k.0 in
      let m =
        rgn_or_lem c.modified (rgn_and (offset c.modified dx dy) (rgn_or c.copy r)).0
          i.modified_IsRegion n.0 in
      record {
        modified_IsRegion = m.0;
        copy_IsRegion = k.0;
        requested_IsRegion = i.requested_IsRegion;
        follows = λ x y h e.
            let q =
              rgn_or_out c.modified (rgn_and (offset c.modified dx dy) (rgn_or c.copy r)).0 x y
                i.modified_IsRegion n.0 e in
            let at = offset_at c.modified dx dy x y i.modified_IsRegion in
            elim (Bool-cases (contains r x y)) [
              | inl t ↦
                  let clean : contains c.modified (x -ℤ dx) (y -ℤ dy) ≡ false =
                    ground (arith, t, at, n.1 x y, k.1 x y, q.1) in
                  let here : contains (rgn_or c.copy r) x y ≡ true = ground (arith, t, k.1 x y) in
                  rw (p.moved x y h, t, here)
                    (i.follows (x -ℤ dx) (y -ℤ dy) (p.source x y h t) clean
                      ∙ ap
                          (λ b.
                            if b
                            then client ((x -ℤ dx) -ℤ dx) ((y -ℤ dy) -ℤ dy)
                            else client (x -ℤ dx) (y -ℤ dy))
                          (i.source x y t clean))
              | inr t ↦
                  let here : contains (rgn_or c.copy r) x y ≡ contains c.copy x y =
                    ground (arith, t, k.1 x y) in
                  rw (p.moved x y h, t, here) (i.follows x y h q.0)
            ];
      }

  mark_overlap-InSync :
      (area : Region) (c : Client)
      → IsRegion area
      → InSync s after client c
      → InSync s after client (mark_overlap area c)
  unfolding mark_overlap
  mark_overlap-InSync area c w i =
      let a = rgn_and_lem area c.copy w i.copy_IsRegion in
      elim (Bool-cases (rgn_empty (rgn_and area c.copy).0)) [
        | inl t ↦ rw (mark_overlap, t) i
        | inr t ↦
            rw (mark_overlap, t)
              (grow_modified s after after client (rgn_and area c.copy).0 c a.0 (λ x y h k. refl) i)
      ]

  mark_cursor-InSync :
      (c : Client)
      → pos 0 <ℤ s.cursor_width
      → pos 0 <ℤ s.cursor_height
      → InSync s after client c
      → InSync s after client (mark_cursor s dx dy c)
  unfolding mark_cursor
  mark_cursor-InSync c wide high i =
      let x = c.cursor_x -ℤ s.xhot in
      let y = c.cursor_y -ℤ s.yhot in
      let area =
        (create_rect_lem x y (x +ℤ s.cursor_width) (y +ℤ s.cursor_height)
          (omega (arith, wide, +ℤ_parts x s.cursor_width))
          (omega (arith, high, +ℤ_parts y s.cursor_height))).0 in
      let rect = create_rect x y (x +ℤ s.cursor_width) (y +ℤ s.cursor_height) in
      if_both (InSync s after client) c.enable_cursor_shape_updates c
        (mark_overlap (offset rect dx dy) (mark_overlap rect c)) i
        (mark_overlap-InSync (offset rect dx dy) (mark_overlap rect c)
          (offset_lem rect dx dy area).0 (mark_overlap-InSync rect c area i))

  -- Where the server has copied the pixels of a region, each from `dx` to its left and `dy` above, all
  -- of them on the screen, and its cursor is not empty, `rfbScheduleCopyRegion` keeps the regions of a
  -- client such that its screen can follow, whether or not the client copies, and whatever copies
  -- it has not made yet.
  pub schedule_copy-InSync :
      (c : Client)
      → pos 0 <ℤ s.cursor_width
      → pos 0 <ℤ s.cursor_height
      → Copied s r dx dy before after
      → InSync s before client c
      → InSync s after client (schedule_copy s r dx dy c)
  unfolding schedule_copy
  schedule_copy-InSync c wide high p i =
      if_both (InSync s after client) c.use_copy_rect
        (mark_cursor s dx dy (add_copy r dx dy (treat_old_copy r dx dy c)))
        (record c { modified = rgn_or c.modified r })
        (mark_cursor-InSync (add_copy r dx dy (treat_old_copy r dx dy c)) wide high
          (add_copy-InSync (treat_old_copy r dx dy c) p (treat_old_copy-IsReady c i)))
        (grow_modified s before after client r c v (λ x y h k. p.moved x y h ∙ rw k refl) i)
