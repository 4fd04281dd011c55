-- ===== src/Subrects/Image.antt =====
-- Pixels by column and row, and the filling of a rectangle.
use libvncserver.Base.{
  ℕ, zero, suc, ◌+◌, Bool, ◌&&◌, ◌≡◌, refl, arith, ◌==◌, leb, ltb, if◌then◌else◌, List, [], ◌∷◌,
  ◌++◌, ◌∙◌,
}

-- A buffer of rows of `w` pixels: `im x y` is its pixel number `y * w + x`, for `x` below `w`.
abbrev pub Image : Type 0
Image = ℕ → ℕ → ℕ

-- A rectangle of one colour.
pub record Subrect : Type 0 where
  pub colour : ℕ
  pub x : ℕ
  pub y : ℕ
  pub w : ℕ
  pub h : ℕ

-- `data[j*w+i] = colour`
abbrev pub set_pixel : ℕ → ℕ → ℕ → Image → Image
set_pixel colour i j im = λ a b. if a == i && b == j then colour else im a b

-- `for (i=thex; i < (thex+thew); i++)`, with the columns to go.
unfoldable pub fill_row : ℕ → ℕ → ℕ → ℕ → Image → Image
fill_row colour zero i j im = im
fill_row colour (suc left) i j im = fill_row colour left (i + 1) j (set_pixel colour i j im)

-- `for (j=they; j < (they+theh); j++)`, with the rows to go.
unfoldable pub fill_rows : ℕ → ℕ → ℕ → ℕ → ℕ → Image → Image
unfolding fill_row
fill_rows colour w x zero j im = im
fill_rows colour w x (suc left) j im = fill_rows colour w x left (j + 1) (fill_row colour w x j im)

unfoldable pub fill : Subrect → Image → Image
unfolding fill_rows
fill r im = fill_rows r.colour r.w r.x r.h r.y im

-- The rectangles of a list, filled in its order.
unfoldable pub fill_all : List Subrect → Image → Image
unfolding fill
fill_all [] im = im
fill_all (r ∷ rs) im = fill_all rs (fill r im)

abbrev pub in_span : ℕ → ℕ → ℕ → Bool
in_span start size i = leb start i && ltb i (start + size)

abbrev pub in_rect : Subrect → ℕ → ℕ → Bool
in_rect r a b = in_span r.x r.w a && in_span r.y r.h b

fill_row_lem :
    (colour left i j : ℕ) (im : Image) (a b : ℕ)
    → fill_row colour left i j im a b ≡ (if in_span i left a && b == j then colour else im a b)
unfolding fill_row
fill_row_lem colour zero i j im a b = ground arith
fill_row_lem colour (suc left) i j im a b =
    fill_row_lem colour left (i + 1) j (set_pixel colour i j im) a b ∙ ground arith

fill_rows_lem :
    (colour w x left j : ℕ) (im : Image) (a b : ℕ)
    → fill_rows colour w x left j im a b
      ≡ (if in_span x w a && in_span j left b then colour else im a b)
unfolding fill_rows
fill_rows_lem colour w x zero j im a b = ground arith
fill_rows_lem colour w x (suc left) j im a b =
    fill_rows_lem colour w x left (j + 1) (fill_row colour w x j im) a b
    ∙ ground (arith, fill_row_lem colour w x j im a b)

-- A filled rectangle has the colour inside, and the rest is as before.
pub fill_lem :
    (r : Subrect) (im : Image) (a b : ℕ)
    → fill r im a b ≡ (if in_rect r a b then r.colour else im a b)
unfolding fill
fill_lem r im a b = fill_rows_lem r.colour r.w r.x r.h r.y im a b

pub fill_all_snoc :
    (rs : List Subrect) (r : Subrect) (im : Image)
    → fill_all (rs ++ r ∷ []) im ≡ fill r (fill_all rs im)
unfolding fill_all
fill_all_snoc [] r im = refl
fill_all_snoc (s ∷ rs) r im = fill_all_snoc rs r (fill s im)
