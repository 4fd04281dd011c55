-- ===== src/Updates/Mark.antt =====
-- `rfbMarkRectAsModified` of libvncserver/main.c.
use libvncserver.Base.{
  Bool, true, false, ◌&&◌, ◌||◌, if◌then◌else◌, ◌≡◌, refl, arith, List, map, some, ap, ap₂, ◌∙◌,
}
use libvncserver.Base.Int.{ℤ, pos, ◌<ℤ◌, ltb_ℤ, eqb_ℤ}
use libvncserver.Region.Laws.{within}
use libvncserver.Region.Nested.{Region, IsRegion, contains}
use libvncserver.Region.Rgn.{create_rect}
use libvncserver.Region.Boolean.{create_rect_lem}
use libvncserver.Updates.Sync.{on_screen}
use libvncserver.Updates.Client.{
  Screen, Client, clamp, mark_modified, mark_region_as_modified, mark_rect_as_modified,
}

-- Between two bounds, whichever of them is the lower.
abbrev pub between : ℤ → ℤ → ℤ → Bool
between a b x = within a b x || within b a x

clip_points :
    (size low high z : ℤ)
    → within (if ltb_ℤ low (pos 0) then pos 0 else low) (if ltb_ℤ size high then size else high) z
      ≡ within (pos 0) size z && within low high z
clip_points size low high z = ground arith

order_points :
    (a b z : ℤ) → within (if ltb_ℤ b a then b else a) (if ltb_ℤ b a then a else b) z ≡ between a b z
order_points a b z = ground arith

within-less : (a b z : ℤ) → within a b z ≡ true → (a <ℤ b) × (eqb_ℤ a b ≡ false)
within-less a b z h = (ground arith, ground arith)

record Clamped (size a b : ℤ) : Type 0 where
  from : ℤ
  to : ℤ
  clamps : clamp size a b ≡ some (from, to)
  ordered : from <ℤ to
  points : (z : ℤ) → within from to z ≡ within (pos 0) size z && between a b z

clamp_lem :
    (size a b x : ℤ) → within (pos 0) size x ≡ true → between a b x ≡ true → Clamped size a b
unfolding clamp
clamp_lem size a b x h k =
    let low = if ltb_ℤ b a then b else a in
    let high = if ltb_ℤ b a then a else b in
    let from = if ltb_ℤ low (pos 0) then pos 0 else low in
    let to = if ltb_ℤ size high then size else high in
    let points : (z : ℤ) → within from to z ≡ within (pos 0) size z && between a b z = λ z.
      clip_points size low high z ∙ ap (λ t. within (pos 0) size z && t) (order_points a b z) in
    let less = within-less from to x (points x ∙ ap₂ (λ s t. s && t) h k) in
    let e : eqb_ℤ from to ≡ false = less.1 in
    record { from = from; to = to; clamps = rw (clamp, e) refl; ordered = less.0; points = points }

-- Where a pixel of the screen is between the corners, which may be given in any order,
-- `rfbMarkRectAsModified` marks for every client one well-formed region, which has exactly the pixels of the screen
-- that are between the corners.
pub mark_rect_as_modified_lem :
    (s : Screen) (x1 y1 x2 y2 x y : ℤ) (cs : List Client)
    → on_screen s x y ≡ true
    → between x1 x2 x && between y1 y2 y ≡ true
    → (r : Region) × IsRegion r
      × ((a b : ℤ) → contains r a b ≡ on_screen s a b && (between x1 x2 a && between y1 y2 b))
      × (mark_rect_as_modified s x1 y1 x2 y2 cs ≡ map (mark_modified r) cs)
unfolding mark_rect_as_modified mark_region_as_modified
mark_rect_as_modified_lem s x1 y1 x2 y2 x y cs h k =
    let both : (p q : Bool) → p && q ≡ true → (p ≡ true) × (q ≡ true) =
      λ p q e. (ground arith, ground arith) in
    let on = both (within (pos 0) s.width x) (within (pos 0) s.height y) h in
    let at = both (between x1 x2 x) (between y1 y2 y) k in
    let c = clamp_lem s.width x1 x2 x on.0 at.0 in
    let d = clamp_lem s.height y1 y2 y on.1 at.1 in
    let r = create_rect_lem c.from d.from c.to d.to c.ordered d.ordered in
    let swap : (p q u v : Bool) → (p && q) && (u && v) ≡ (u && p) && (v && q) =
      λ p q u v. ground arith in
    (
      create_rect c.from d.from c.to d.to,
      r.0,
      λ a b.
          r.1 a b
          ∙ ap₂ (λ s t. s && t) (d.points b) (c.points a)
          ∙ swap (within (pos 0) s.height b) (between y1 y2 b) (within (pos 0) s.width a)
              (between x1 x2 a),
      rw (mark_rect_as_modified, c.clamps, d.clamps) refl,
    )
