-- ===== src/Updates/Copies.antt =====
-- Copies of pixels one behind the other, as one copy: for the loops of libvncserver/main.c and
-- libvncclient/vncviewer.c.
use libvncserver.Base.{
  All, ℕ, zero, suc, ◌<◌, Bool, true, false, not, ◌&&◌, ◌||◌, if◌then◌else◌, ◌≡◌, refl, sym, ap,
  ap₂, ◌∙◌, arith, List, [], ◌∷◌, Bool-cases, inl, inr, subst,
}
use libvncserver.Base.Int.{
  ℤ, pos, negsuc, pos_part, neg_part, eq_of_parts, ◌+ℤ◌, ◌-ℤ◌, ◌≤ℤ◌, ◌<ℤ◌, eqb_ℤ, ltb_ℤ, +ℤ_parts,
  -ℤ_parts, eqb_ℤ→eq,
}
use libvncserver.Region.Laws.{within}
use libvncserver.Region.Rgn.{Rect}
use libvncserver.Region.Order.{in_rectangle, in_some, IsFree, Ordered}
use libvncserver.Updates.Sync.{Pixels}
use libvncserver.Updates.Copying.{
  move_pixel, advance, copy_columns, copy_rows, first_place, move_row, copy_rect, copy_rects,
}

module _ (dx dy : ℤ) where
  -- `t` is `s` with the pixels of an area copied, all at once.
  abbrev pub Copies : (ℤ → ℤ → Bool) → Pixels → Pixels → Type 0
  Copies area s t = (x y : ℤ) → t x y ≡ (if area x y then s (x -ℤ dx) (y -ℤ dy) else s x y)

  -- One copy behind another, where the first does not touch the sources of the second.
  pub Copies-Copies :
      (a b : ℤ → ℤ → Bool) (s t u : Pixels)
      → Copies a s t
      → Copies b t u
      → ((x y : ℤ) → b x y ≡ true → a (x -ℤ dx) (y -ℤ dy) ≡ false)
      → Copies (λ x y. a x y || b x y) s u
  Copies-Copies a b s t u p q free x y = elim (Bool-cases (b x y)) [
    | inl e ↦ let f = free x y e in let r = p (x -ℤ dx) (y -ℤ dy) in q x y ∙ ground (arith, e, f, r)
    | inr e ↦ let r = p x y in q x y ∙ ground (arith, e, r)
  ]

  pub Copies-same :
      (a b : ℤ → ℤ → Bool) (s t : Pixels)
      → ((x y : ℤ) → a x y ≡ b x y)
      → Copies a s t
      → Copies b s t
  Copies-same a b s t e p x y = p x y ∙ ap (λ c. if c then s (x -ℤ dx) (y -ℤ dy) else s x y) (e x y)

  move_pixel-Copies :
      (i j : ℤ) (s : Pixels) → Copies (λ x y. eqb_ℤ x i && eqb_ℤ y j) s (move_pixel dx dy i j s)
  move_pixel-Copies i j s x y = elim (Bool-cases (eqb_ℤ x i && eqb_ℤ y j)) [
    | inr e ↦ rw e refl
    | inl e ↦
        let p : x ≡ i = eqb_ℤ→eq x i (ground (arith, e)) in
        let q : y ≡ j = eqb_ℤ→eq y j (ground (arith, e)) in
        rw e (ap₂ (λ a b. s (a -ℤ dx) (b -ℤ dy)) (sym p) (sym q))
  ]

-- The places that a loop up or down from `i` passes in `n` rounds.
abbrev pub run : Bool → ℤ → ℕ → ℤ → Bool
run false i n x = within i (i +ℤ pos n) x
run true i n x = within ((i +ℤ pos 1) -ℤ pos n) (i +ℤ pos 1) x

run_zero : (down : Bool) (i x : ℤ) → run down i 0 x ≡ false
run_zero false i x = let p = +ℤ_parts i (pos 0) in ground (arith, p)
run_zero true i x = let p = -ℤ_parts (i +ℤ pos 1) (pos 0) in ground (arith, p)

one_more :
    (down : Bool) (i : ℤ) (n : ℕ) (x : ℤ)
    → run down i (suc n) x ≡ eqb_ℤ x i || run down (advance down i) n x
one_more false i n x =
    let p = +ℤ_parts i (pos (suc n)) in
    let q = +ℤ_parts i (pos 1) in let r = +ℤ_parts (i +ℤ pos 1) (pos n) in ground (arith, p, q, r)
one_more true i n x =
    let p = +ℤ_parts i (pos 1) in
    let q = -ℤ_parts (i +ℤ pos 1) (pos (suc n)) in
    let r = -ℤ_parts i (pos 1) in
    let s = +ℤ_parts (i -ℤ pos 1) (pos 1) in
    let t = -ℤ_parts ((i -ℤ pos 1) +ℤ pos 1) (pos n) in ground (arith, p, q, r, s, t)

pub run_first :
    (down : Bool) (from : ℤ) (n : ℕ) (x : ℤ)
    → run down (first_place down from n) n x ≡ within from (from +ℤ pos n) x
run_first false from n x = refl
run_first true from n x =
    let p = +ℤ_parts from (pos n) in
    let q = -ℤ_parts (from +ℤ pos n) (pos 1) in
    let r = +ℤ_parts ((from +ℤ pos n) -ℤ pos 1) (pos 1) in
    let s = -ℤ_parts (((from +ℤ pos n) -ℤ pos 1) +ℤ pos 1) (pos n) in ground (arith, p, q, r, s)

-- The direction in which a loop may copy from `d` places back.
abbrev pub Suits : Bool → ℤ → Type 0
Suits false d = d ≤ℤ pos 0
Suits true d = pos 0 ≤ℤ d

run-free :
    (down : Bool) (d i : ℤ) (n : ℕ) (x : ℤ)
    → Suits down d
    → run down (advance down i) n x ≡ true
    → eqb_ℤ (x -ℤ d) i ≡ false
run-free false d i n x p h =
    let q = +ℤ_parts i (pos 1) in let r = -ℤ_parts x d in ground (arith, q, r, p, h)
run-free true d i n x p h =
    let q = -ℤ_parts i (pos 1) in
    let r = -ℤ_parts x d in let s = +ℤ_parts (i -ℤ pos 1) (pos 1) in ground (arith, q, r, s, p, h)

no_neg : (a : ℤ) → neg_part a < pos_part a → neg_part a ≡ 0
no_neg (pos n) h = refl
no_neg (negsuc n) h = absurd (omega (arith, h))

-- The direction that the code takes by the sign of a distance suits it.
pub sign-Suits : (d : ℤ) → Suits (not (ltb_ℤ d (pos 0))) d
sign-Suits d = elim (Bool-cases (ltb_ℤ d (pos 0))) [
  | inl e ↦ subst (λ b. Suits (not b) d) (sym e) (ground (arith, e))
  | inr e ↦ subst (λ b. Suits (not b) d) (sym e) (ground (arith, e))
]

pub span_end : (a b : ℤ) → a <ℤ b → a +ℤ pos (pos_part (b -ℤ a)) ≡ b
span_end a b h =
    let n = pos_part (b -ℤ a) in
    let p = -ℤ_parts b a in
    let q = +ℤ_parts a (pos n) in
    let e : neg_part (b -ℤ a) ≡ 0 = no_neg (b -ℤ a) (omega (arith, p, h)) in
    eq_of_parts (a +ℤ pos n) b (omega (arith, p, q, e, h))

pub some-free :
    (dx dy : ℤ) (r : Rect) (rs : List Rect)
    → All (IsFree dx dy r) rs
    → (x y : ℤ) → in_some rs x y ≡ true
    → in_rectangle r (x -ℤ dx) (y -ℤ dy) ≡ false
some-free dx dy r [] o x y h = cc
some-free dx dy r (q ∷ rs) o x y h = elim (Bool-cases (in_rectangle q x y)) [
  | inl e ↦ o.0 x y e
  | inr e ↦ some-free dx dy r rs o.1 x y (ground (arith, h, e))
]

module _ (dx dy : ℤ) where
  pub copy_columns-Copies :
      (down : Bool) (j : ℤ) (n : ℕ) (i : ℤ) (s : Pixels)
      → Suits down dx
      → Copies dx dy (λ x y. run down i n x && eqb_ℤ y j) s (copy_columns dx dy down j n i s)
  unfolding copy_columns
  copy_columns-Copies down j zero i s p = λ x y. rw (run_zero down i x) refl
  copy_columns-Copies down j (suc n) i s p =
      let next = advance down i in
      let t = move_pixel dx dy i j s in
      Copies-same dx dy (λ x y. (eqb_ℤ x i && eqb_ℤ y j) || (run down next n x && eqb_ℤ y j))
        (λ x y. run down i (suc n) x && eqb_ℤ y j) s (copy_columns dx dy down j n next t)
        (λ x y. let q = one_more down i n x in ground (arith, q))
        (Copies-Copies dx dy (λ x y. eqb_ℤ x i && eqb_ℤ y j) (λ x y. run down next n x && eqb_ℤ y j)
          s t (copy_columns dx dy down j n next t) (move_pixel-Copies dx dy i j s)
          (copy_columns-Copies down j n next t p)
          (λ x y h. let q = run-free down dx i n x p (ground (arith, h)) in rw q refl))

  pub copy_rows-Copies :
      (P : ℤ → Bool) (row : ℤ → Pixels → Pixels)
      → ((j : ℤ) (s : Pixels) → Copies dx dy (λ x y. P x && eqb_ℤ y j) s (row j s))
      → (down : Bool) (n : ℕ) (j : ℤ) (s : Pixels) → Suits down dy
      → Copies dx dy (λ x y. P x && run down j n y) s (copy_rows row down n j s)
  unfolding copy_rows
  copy_rows-Copies P row f down zero j s p = λ x y. let q = run_zero down j y in rw q (ground arith)
  copy_rows-Copies P row f down (suc n) j s p =
      let next = advance down j in
      Copies-same dx dy (λ x y. (P x && eqb_ℤ y j) || (P x && run down next n y))
        (λ x y. P x && run down j (suc n) y) s (copy_rows row down n next (row j s))
        (λ x y. let q = one_more down j n y in ground (arith, q))
        (Copies-Copies dx dy (λ x y. P x && eqb_ℤ y j) (λ x y. P x && run down next n y) s (row j s)
          (copy_rows row down n next (row j s)) (f j s)
          (copy_rows-Copies P row f down n next (row j s) p)
          (λ x y h. let q = run-free down dy j n y p (ground (arith, h)) in ground (arith, q)))

  -- The rectangles of a list, each after those in front of it.
  pub copy_rects-Copies :
      (copy : Rect → Pixels → Pixels) (rs : List Rect) (s : Pixels)
      → All (λ r. (s : Pixels) → Copies dx dy (in_rectangle r) s (copy r s)) rs
      → Ordered (IsFree dx dy) rs
      → Copies dx dy (in_some rs) s (copy_rects copy rs s)
  unfolding copy_rects
  copy_rects-Copies copy [] s p o = λ x y. refl
  copy_rects-Copies copy (r ∷ rs) s p o =
      Copies-Copies dx dy (in_rectangle r) (in_some rs) s (copy r s) (copy_rects copy rs (copy r s))
        (p.0 s) (copy_rects-Copies copy rs (copy r s) p.1 o.1) (λ x y. some-free dx dy r rs o.0 x y)

  -- One rectangle of `rfbDoCopyRegion`.
  pub copy_rect-Copies :
      (r : Rect) (s : Pixels) → r.y1 <ℤ r.y2 → Copies dx dy (in_rectangle r) s (copy_rect dx dy r s)
  unfolding copy_rect move_row
  copy_rect-Copies r s h =
      let rows = pos_part (r.y2 -ℤ r.y1) in
      let down = not (ltb_ℤ dy (pos 0)) in
      Copies-same dx dy (λ x y. within r.x1 r.x2 x && run down (first_place down r.y1 rows) rows y)
        (in_rectangle r) s (copy_rect dx dy r s)
        (λ x y.
          ap (λ b. within r.x1 r.x2 x && b)
            (run_first down r.y1 rows y ∙ ap (λ e. within r.y1 e y) (span_end r.y1 r.y2 h)))
        (copy_rows-Copies (within r.x1 r.x2) (move_row dx dy r.x1 r.x2) (λ j s x y. refl) down rows
          (first_place down r.y1 rows) s (sign-Suits dy))
