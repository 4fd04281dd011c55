-- ===== src/Region/Clip.antt =====
-- The clipping of a rectangle in libvncserver/rfbregion.c.
use libvncserver.Base.{
  Bool, true, false, ◌&&◌, ◌≡◌, if◌then◌else◌, arith, Bool-cases, inl, inr, ◌+◌, ◌∙◌,
}
use libvncserver.Base.Int.{
  ℤ, pos, ◌+ℤ◌, ◌-ℤ◌, ◌≤ℤ◌, ◌<ℤ◌, leb_ℤ, ltb_ℤ, +ℤ_parts, -ℤ_parts, pos_part, neg_part,
}
use libvncserver.Region.Laws.{within}

-- A position and a size along one axis.
pub record Extent : Type 0 where
  pub at : ℤ
  pub size : ℤ

-- What `sraClipRect` does along one axis.
pub clip_extent : Extent → Extent → Extent
clip_extent e c =
    let s = if ltb_ℤ e.at c.at then record { at = c.at; size = e.size -ℤ (c.at -ℤ e.at) } else e in
    if ltb_ℤ (c.at +ℤ c.size) (s.at +ℤ s.size)
    then record s { size = (c.at +ℤ c.size) -ℤ s.at }
    else s

-- `sraClipRect`, with the rectangle it leaves and its return value
pub clip_rect : Extent → Extent → Extent → Extent → Extent × Extent × Bool
unfolding clip_extent
clip_rect x y cx cy =
    let x' = clip_extent x cx in
    let y' = clip_extent y cy in (x', y', ltb_ℤ (pos 0) x'.size && ltb_ℤ (pos 0) y'.size)

-- What `sraClipRect2` does along one axis: the bounds of the rectangle, then those of the clip.
pub clip_bounds : ℤ → ℤ → ℤ → ℤ → ℤ × ℤ
clip_bounds x x2 cx cx2 =
    let lo = if ltb_ℤ x cx then cx else x in
    let lo' = if leb_ℤ cx2 lo then cx2 -ℤ pos 1 else lo in
    let hi = if leb_ℤ x2 cx then cx +ℤ pos 1 else x2 in (lo', if ltb_ℤ cx2 hi then cx2 else hi)

-- `sraClipRect2`, with the bounds it leaves and its return value
pub clip_rect2 : ℤ × ℤ → ℤ × ℤ → ℤ × ℤ → ℤ × ℤ → (ℤ × ℤ) × (ℤ × ℤ) × Bool
unfolding clip_bounds
clip_rect2 x y cx cy =
    let x' = clip_bounds x.0 x.1 cx.0 cx.1 in
    let y' = clip_bounds y.0 y.1 cy.0 cy.1 in (x', y', ltb_ℤ x'.0 x'.1 && ltb_ℤ y'.0 y'.1)

-- The points of an extent.
pub covers : Extent → ℤ → Bool
covers e p = within e.at (e.at +ℤ e.size) p

-- The first step keeps the end of the extent.
moved_end :
    (a n b : ℤ)
    → let m = b +ℤ (n -ℤ (b -ℤ a)) in
      pos_part m + neg_part (a +ℤ n) ≡ pos_part (a +ℤ n) + neg_part m
moved_end a n b =
    omega (arith, -ℤ_parts b a, -ℤ_parts n (b -ℤ a), +ℤ_parts a n, +ℤ_parts b (n -ℤ (b -ℤ a)))

-- The second step moves it to the end of the clip.
cut_end : (a m : ℤ) → let k = a +ℤ (m -ℤ a) in pos_part k + neg_part m ≡ pos_part m + neg_part k
cut_end a m = omega (arith, -ℤ_parts m a, +ℤ_parts a (m -ℤ a))

within_same :
    (lo hi hi2 p : ℤ)
    → pos_part hi + neg_part hi2 ≡ pos_part hi2 + neg_part hi
    → within lo hi p ≡ within lo hi2 p
within_same lo hi hi2 p h = ground arith

cut_covers :
    (e : Extent) (end p : ℤ)
    → covers (if ltb_ℤ end (e.at +ℤ e.size) then record e { size = end -ℤ e.at } else e) p
      ≡ (covers e p && ltb_ℤ p end)
unfolding covers
cut_covers e end p = elim (Bool-cases (ltb_ℤ end (e.at +ℤ e.size))) [
  | inl t ↦ rw t (within_same e.at (e.at +ℤ (end -ℤ e.at)) end p (cut_end e.at end) ∙ ground arith)
  | inr t ↦ rw t (ground arith)
]

start_covers :
    (e : Extent) (b p : ℤ)
    → covers (if ltb_ℤ e.at b then record { at = b; size = e.size -ℤ (b -ℤ e.at) } else e) p
      ≡ (covers e p && leb_ℤ b p)
unfolding covers
start_covers e b p = elim (Bool-cases (ltb_ℤ e.at b)) [
  | inl t ↦ rw t (
      within_same b (b +ℤ (e.size -ℤ (b -ℤ e.at))) (e.at +ℤ e.size) p (moved_end e.at e.size b)
      ∙ ground arith)
  | inr t ↦ rw t (ground arith)
]

and_assoc : (a b c : Bool) → ((a && b) && c) ≡ (a && (b && c))
and_assoc a b c = ground arith

covers-clip_extent :
    (e c : Extent) (p : ℤ) → covers (clip_extent e c) p ≡ (covers e p && covers c p)
unfolding covers clip_extent
covers-clip_extent e c p =
    let s = if ltb_ℤ e.at c.at then record { at = c.at; size = e.size -ℤ (c.at -ℤ e.at) } else e in
    cut_covers s (c.at +ℤ c.size) p
    ∙ rw (start_covers e c.at p) (and_assoc (covers e p) (leb_ℤ c.at p) (ltb_ℤ p (c.at +ℤ c.size)))

both_true : {a b : Bool} → a ≡ true → b ≡ true → (a && b) ≡ true
both_true h k = rw (h, k)

ltb_ℤ_intro : (a b : ℤ) → a <ℤ b → ltb_ℤ a b ≡ true
ltb_ℤ_intro a b h = ground arith

-- A positive size is the mark of an extent with a point: its first.
size_covers :
    (e : Extent)
    → (pos 0 <ℤ e.size → covers e e.at ≡ true) × (e.size ≤ℤ pos 0 → (p : ℤ) → covers e p ≡ false)
unfolding covers
size_covers e =
    (λ h. ground (arith, +ℤ_parts e.at e.size), λ h p. ground (arith, +ℤ_parts e.at e.size))

clip_bounds_within :
    (x x2 cx cx2 : ℤ)
    → cx <ℤ cx2
    → let r = clip_bounds x x2 cx cx2 in
      (cx ≤ℤ r.0) × (r.0 <ℤ cx2) × (cx <ℤ r.1) × (r.1 ≤ℤ cx2) × (x <ℤ x2 → r.0 <ℤ r.1)
unfolding clip_bounds
clip_bounds_within x x2 cx cx2 h =
    let p = -ℤ_parts cx2 (pos 1) in
    let q = +ℤ_parts cx (pos 1) in
    (ground arith, ground arith, ground arith, ground arith, λ k. ground arith)

-- `sraClipRect` leaves, on each axis, the points that are both in the rectangle and in the clip, and
-- returns true exactly when both sizes that it leaves are positive; then the corner that it leaves is
-- a point of both.
pub clip_rect_lem :
    (x y cx cy : Extent)
    → let r = clip_rect x y cx cy in
      ((p : ℤ) → covers r.0 p ≡ (covers x p && covers cx p))
      × ((p : ℤ) → covers r.1 p ≡ (covers y p && covers cy p))
      × (r.2 ≡ true → (covers r.0 r.0.at && covers r.1 r.1.at) ≡ true)
      × (r.2 ≡ false → (p q : ℤ) → (covers r.0 p && covers r.1 q) ≡ false)
unfolding clip_rect
clip_rect_lem x y cx cy =
    let x' = clip_extent x cx in
    let y' = clip_extent y cy in
    let sx = size_covers x' in
    let sy = size_covers y' in
    (
      covers-clip_extent x cx,
      covers-clip_extent y cy,
      λ h. ground (arith, sx.0, sy.0),
      λ h p q. elim (Bool-cases (ltb_ℤ (pos 0) x'.size)) [
        | inl t ↦ let e = sy.1 (ground arith) q in ground arith
        | inr t ↦ rw (sx.1 (ground arith) p)
      ],
    )

-- For a clip that is not empty, `sraClipRect2` leaves bounds within it. It returns true for every
-- rectangle that is not empty, also one that lies outside the clip.
pub clip_rect2_lem :
    (x y cx cy : ℤ × ℤ)
    → cx.0 <ℤ cx.1
    → cy.0 <ℤ cy.1
    → let r = clip_rect2 x y cx cy in
      ((cx.0 ≤ℤ r.0.0) × (r.0.1 ≤ℤ cx.1))
      × ((cy.0 ≤ℤ r.1.0) × (r.1.1 ≤ℤ cy.1))
      × (x.0 <ℤ x.1 → y.0 <ℤ y.1 → r.2 ≡ true)
unfolding clip_rect2
clip_rect2_lem x y cx cy h k =
    let a = clip_bounds_within x.0 x.1 cx.0 cx.1 h in
    let b = clip_bounds_within y.0 y.1 cy.0 cy.1 k in
    let x' = clip_bounds x.0 x.1 cx.0 cx.1 in
    let y' = clip_bounds y.0 y.1 cy.0 cy.1 in
    (
      (a.0, a.3),
      (b.0, b.3),
      λ u v. both_true (ltb_ℤ_intro x'.0 x'.1 (a.4 u)) (ltb_ℤ_intro y'.0 y'.1 (b.4 v)),
    )
