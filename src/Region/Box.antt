-- ===== src/Region/Box.antt =====
-- `sraRgnBBox` covers its region.
use libvncserver.Base.{
  true, false, ◌&&◌, ◌||◌, ◌≡◌, [], ◌∷◌, arith, Bool-cases, inl, inr, if◌then◌else◌,
}
use libvncserver.Base.Int.{ℤ, ◌≤ℤ◌, ◌<ℤ◌, ltb_ℤ}
use libvncserver.Region.Laws.{within, list_holds, within_low, within_high, within_intro}
use libvncserver.Region.Levels.{null_laws}
use libvncserver.Region.Rgn.{Rect, bbox, grow, grow_columns, bbox_start, create, create_rect}
use libvncserver.Region.Nested.{Columns, Region, contains}

-- One rectangle lies in another.
record Inside (a b : Rect) : Type 0 where
  left : b.x1 ≤ℤ a.x1
  right : a.x2 ≤ℤ b.x2
  top : b.y1 ≤ℤ a.y1
  bottom : a.y2 ≤ℤ b.y2

grow_columns-Inside : (l : Columns) (b : Rect) → Inside b (grow_columns l b)
unfolding grow_columns
grow_columns-Inside [] b = omega arith
grow_columns-Inside (h ∷ l) b =
    let i = grow_columns-Inside l (record b {
      x1 = if ltb_ℤ h.start b.x1 then h.start else b.x1;
      x2 = if ltb_ℤ b.x2 h.end then h.end else b.x2;
    }) in
    ground arith

grow-Inside : (r : Region) (b : Rect) → Inside b (grow r b)
unfolding grow
grow-Inside [] b = omega arith
grow-Inside (v ∷ r) b =
    let b' : Rect = record b {
      y1 = if ltb_ℤ v.start b.y1 then v.start else b.y1;
      y2 = if ltb_ℤ b.y2 v.end then v.end else b.y2;
    } in
    let i = grow_columns-Inside v.sub b' in
    let j = grow-Inside r (grow_columns v.sub b') in ground arith

grow_columns_covers :
    (x : ℤ) (l : Columns) (b : Rect)
    → list_holds null_laws.holds x tt l ≡ true
    → ((grow_columns l b).x1 ≤ℤ x) × (x <ℤ (grow_columns l b).x2)
unfolding grow_columns
grow_columns_covers x [] b h = cc
grow_columns_covers x (s ∷ l) b h =
    let b' : Rect = record b {
      x1 = if ltb_ℤ s.start b.x1 then s.start else b.x1;
      x2 = if ltb_ℤ b.x2 s.end then s.end else b.x2;
    } in
    let i = grow_columns-Inside l b' in
    elim (Bool-cases (within s.start s.end x)) [
      | inl t ↦
          let lo = within_low s.start s.end x t in
          let hi = within_high s.start s.end x t in ground arith
      | inr t ↦ grow_columns_covers x l b' (ground arith)
    ]

grow_covers :
    (x y : ℤ) (r : Region) (b : Rect)
    → contains r x y ≡ true
    → ((grow r b).x1 ≤ℤ x) × (x <ℤ (grow r b).x2) × ((grow r b).y1 ≤ℤ y) × (y <ℤ (grow r b).y2)
unfolding grow
grow_covers x y [] b h = cc
grow_covers x y (v ∷ r) b h =
    let b' : Rect = record b {
      y1 = if ltb_ℤ v.start b.y1 then v.start else b.y1;
      y2 = if ltb_ℤ b.y2 v.end then v.end else b.y2;
    } in
    let i = grow_columns-Inside v.sub b' in
    let j = grow-Inside r (grow_columns v.sub b') in
    elim (Bool-cases (within v.start v.end y && list_holds null_laws.holds x tt v.sub)) [
      | inl t ↦
          let c = grow_columns_covers x v.sub b' (ground arith) in
          let lo = within_low v.start v.end y (ground arith) in
          let hi = within_high v.start v.end y (ground arith) in ground arith
      | inr t ↦ grow_covers x y r (grow_columns v.sub b') (ground arith)
    ]

-- Every pixel of a region is in the rectangle that `sraRgnBBox` makes.
pub bbox_covers : (r : Region) (x y : ℤ) → contains r x y ≡ true → contains (bbox r) x y ≡ true
unfolding bbox create create_rect
bbox_covers r x y h =
    let c = grow_covers x y r bbox_start h in
    let b = grow r bbox_start in
    let t : (ltb_ℤ b.x2 b.x1 || ltb_ℤ b.y2 b.y1) ≡ false = ground arith in
    rw (t, within_intro b.y1 b.y2 y c.2 c.3, within_intro b.x1 b.x2 x c.0 c.1)
