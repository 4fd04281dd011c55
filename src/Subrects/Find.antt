-- ===== src/Subrects/Find.antt =====
-- The rectangle that `subrectEncode` of libvncserver/rre.c finds has one colour.
use libvncserver.Base.{
  ℕ, zero, suc, ◌+◌, ◌-◌, ◌*◌, ◌≤◌, ◌<◌, true, false, ◌&&◌, ◌==◌, leb, ltb, if◌then◌else◌, ◌≡◌,
  refl, arith, Bool-cases, inl, inr, ==_iff, ◌∙◌, ap, sym, subst,
}
use libvncserver.Subrects.Image.{Image, Subrect, in_rect}
use libvncserver.Subrects.Encode.{run_end, Scan, scan_row, scan_rows, choose, find_subrect}

-- A run ends within the row, and its pixels have the colour.
record IsRun (seg : ℕ → ℕ) (cl start left end : ℕ) : Type 0 where
  from : start ≤ end
  to : end ≤ start + left
  same : (a : ℕ) → start ≤ a → a < end → seg a ≡ cl

run_end-IsRun : (seg : ℕ → ℕ) (cl left i : ℕ) → IsRun seg cl i left (run_end seg cl left i)
unfolding run_end
run_end-IsRun seg cl zero i = record {
  from = omega arith;
  to = omega arith;
  same = λ a p q. absurd (omega arith);
}
run_end-IsRun seg cl (suc left) i = elim (Bool-cases (seg i == cl)) [
  | inl e ↦
      let r = run_end-IsRun seg cl left (i + 1) in
      let from = r.from in
      let to = r.to in
      rw (run_end, e)
        (record {
          from = omega arith;
          to = omega arith;
          same = λ a p q. elim (Bool-cases (a == i)) [
            | inl t ↦ rw ((==_iff a i).0 t) ((==_iff (seg i) cl).0 e)
            | inr t ↦ r.same a (ground arith) q
          ];
        })
  | inr e ↦
      rw (run_end, e)
        (record { from = omega arith; to = omega arith; same = λ a p q. absurd (omega arith) })
]

-- At least one pixel, where the first has the colour.
run_end_first : (seg : ℕ → ℕ) (cl left i : ℕ) → seg i ≡ cl → 0 < left → i < run_end seg cl left i
unfolding run_end
run_end_first seg cl zero i e h = absurd (omega arith)
run_end_first seg cl (suc left) i e h =
    let same : (seg i == cl) ≡ true = (==_iff (seg i) cl).1 e in
    let from = (run_end-IsRun seg cl left (i + 1)).from in rw (run_end, same) (omega arith)

module _ (im : Image) (w cl x y : ℕ) where
  -- The rows from `y` up to `b` have the colour from `x` to `a`, `a` included.
  abbrev IsFull : ℕ → ℕ → Type 0
  IsFull a b = (i j : ℕ) → x ≤ i → i ≤ a → y ≤ j → j < b → im i j ≡ cl

  -- What is known of the scan before row `j`, behind the first one.
  record IsScan (s : Scan) (j : ℕ) : Type 0 where
    hx_from : x ≤ s.hx
    hx_to : s.hx < w
    vx_from : x ≤ s.vx
    vx_to : s.vx < w
    hy_from : y < s.hy_end
    hy_to : s.hy_end ≤ j
    flag : s.hyflag ≡ true → s.hy_end ≡ j
    wide : IsFull s.hx s.hy_end
    high : IsFull s.vx j

  full_next : (a b : ℕ) → IsFull a b → ((i : ℕ) → x ≤ i → i ≤ a → im i b ≡ cl) → IsFull a (b + 1)
  full_next a b full row i j p q r t = elim (Bool-cases (j == b)) [
    | inl e ↦ rw ((==_iff j b).0 e) (row i p q)
    | inr e ↦ full i j p q r (ground arith)
  ]

  -- A row behind the first.
  next_row :
      (s : Scan) (j i : ℕ)
      → y < j
      → x ≤ i
      → i < w
      → ((a : ℕ) → x ≤ a → a ≤ i → im a j ≡ cl)
      → IsScan s j
      → IsScan (scan_row y j i s) (j + 1)
  unfolding scan_row
  next_row s j i hj hi hw same g =
      let other : (j == y) ≡ false = ground arith in
      let hx_from = g.hx_from in
      let hx_to = g.hx_to in
      let vx_from = g.vx_from in
      let vx_to = g.vx_to in
      let hy_from = g.hy_from in
      let hy_to = g.hy_to in
      let flag = g.flag in
      let vx = if ltb i s.vx then i else s.vx in
      rw (scan_row, other)
        (record {
          hx_from = hx_from;
          hx_to = hx_to;
          vx_from = ground arith;
          vx_to = ground arith;
          hy_from = ground arith;
          hy_to = ground arith;
          flag = ground arith;
          wide = elim (Bool-cases (s.hyflag && leb s.hx i)) [
            | inl t ↦
                let at : s.hy_end ≡ j = ground arith in
                rw t (full_next s.hx s.hy_end g.wide (λ a p q. rw at (same a p (ground arith))))
            | inr t ↦ rw t g.wide
          ];
          high =
              full_next vx j (λ a b p q. g.high a b p (ground arith))
                (λ a p q. same a p (ground arith));
        })

  -- The first row.
  first_row :
      (s : Scan) (i : ℕ)
      → x ≤ i
      → i < w
      → ((a : ℕ) → x ≤ a → a ≤ i → im a y ≡ cl)
      → s.hyflag ≡ true
      → s.hy_end ≡ y
      → IsScan (scan_row y y i s) (y + 1)
  unfolding scan_row
  first_row s i hi hw same flag end =
      let this : (y == y) ≡ true = ground arith in
      let reach : leb i i ≡ true = ground arith in
      let only : ltb i i ≡ false = ground arith in
      let row : IsFull i (y + 1) = full_next i y (λ a b p q r t. absurd (omega arith)) same in
      rw (scan_row, this, reach, only, flag, end)
        (record {
          hx_from = hi;
          hx_to = hw;
          vx_from = hi;
          vx_to = hw;
          hy_from = omega arith;
          hy_to = omega arith;
          flag = λ t. refl;
          wide = row;
          high = row;
        })

  -- The last column of the run in a row whose pixel at `x` has the colour.
  abbrev last : ℕ → ℕ
  last j = run_end (λ i. im i j) cl (w - x) x - 1

  row_last :
      (j : ℕ)
      → x < w
      → im x j ≡ cl
      → (x ≤ last j) × (last j < w) × ((a : ℕ) → x ≤ a → a ≤ last j → im a j ≡ cl)
  row_last j hx e =
      let seg : ℕ → ℕ = λ i. im i j in
      let r = run_end-IsRun seg cl (w - x) x in
      let some_pixel = run_end_first seg cl (w - x) x e (omega arith) in
      let to = r.to in (omega arith, omega arith, λ a p q. r.same a p (omega arith))

  scan_rows-IsScan :
      (left j : ℕ) (s : Scan)
      → x < w
      → y < j
      → IsScan s j
      → let r = scan_rows im w cl x y left j s in IsScan r.0 r.1 × (r.1 ≤ j + left) × (y < r.1)
  unfolding scan_rows
  scan_rows-IsScan zero j s hx hj g = (g, omega arith, hj)
  scan_rows-IsScan (suc left) j s hx hj g = elim (Bool-cases (im x j == cl)) [
    | inl e ↦
        let row = row_last j hx ((==_iff (im x j) cl).0 e) in
        let next = scan_row y j (last j) s in
        let r =
          scan_rows-IsScan left (j + 1) next hx (omega arith)
            (next_row s j (last j) hj row.0 row.1 row.2 g) in
        rw (scan_rows, e) (r.0, omega (arith, r.1), r.2)
    | inr e ↦ rw (scan_rows, e) (g, omega arith, hj)
  ]

-- What is found at a pixel of the image.
pub record IsFound (im : Image) (w h x y : ℕ) (r : Subrect) : Type 0 where
  pub colour : r.colour ≡ im x y
  pub at_x : r.x ≡ x
  pub at_y : r.y ≡ y
  pub start : in_rect r x y ≡ true
  pub column : r.x + r.w ≤ w
  pub row : r.y + r.h ≤ h
  pub width : 0 < r.w
  pub height : 0 < r.h
  pub same : (a b : ℕ) → in_rect r a b ≡ true → im a b ≡ im x y

module _ (im : Image) (w h x y : ℕ) where
  choose-IsFound :
      (s : Scan) (j : ℕ)
      → x < w
      → y < j
      → j ≤ h
      → IsScan im w (im x y) x y s j
      → IsFound im w h x y (choose (im x y) x y s j)
  unfolding choose
  choose-IsFound s j hx hj hh g =
      let hx_from = g.hx_from in
      let hx_to = g.hx_to in
      let vx_from = g.vx_from in
      let vx_to = g.vx_to in
      let hy_from = g.hy_from in
      let hy_to = g.hy_to in
      elim (Bool-cases (ltb ((s.vx - x + 1) * (j - y)) ((s.hx - x + 1) * (s.hy_end - y)))) [
        | inl t ↦
            rw (choose, t)
              (record {
                colour = refl;
                at_x = refl;
                at_y = refl;
                start = ground arith;
                column = omega arith;
                row = omega arith;
                width = omega arith;
                height = omega arith;
                same =
                    λ a b e. g.wide a b (ground arith) (ground arith) (ground arith) (ground arith);
              })
        | inr t ↦
            rw (choose, t)
              (record {
                colour = refl;
                at_x = refl;
                at_y = refl;
                start = ground arith;
                column = omega arith;
                row = omega arith;
                width = omega arith;
                height = omega arith;
                same =
                    λ a b e. g.high a b (ground arith) (ground arith) (ground arith) (ground arith);
              })
      ]

  abbrev start_scan : Scan
  start_scan = record { hx = 0; hy_end = y; vx = 0; hyflag = true }

  first_round :
      (left : ℕ)
      → scan_rows im w (im x y) x y (suc left) y start_scan
        ≡ scan_rows im w
            (im x y)
            x
            y
            left
            (y + 1)
            (scan_row y y (last im w (im x y) x y y) start_scan)
  unfolding scan_rows
  first_round left =
      let this : (im x y == im x y) ≡ true = (==_iff (im x y) (im x y)).1 refl in
      rw (scan_rows, this)

  -- The rectangle starts at the pixel, lies within the image, and has the pixel's colour all over.
  pub find_subrect-IsFound : x < w → y < h → IsFound im w h x y (find_subrect im w h x y)
  unfolding find_subrect
  find_subrect-IsFound hx hy =
      let cl = im x y in
      let row = row_last im w cl x y y hx refl in
      let i = last im w cl x y y in
      let first = first_row im w cl x y start_scan i row.0 row.1 row.2 refl refl in
      let next = scan_row y y i start_scan in
      let r = scan_rows-IsScan im w cl x y (h - y - 1) (y + 1) next hx (omega arith) first in
      let end = scan_rows im w cl x y (h - y - 1) (y + 1) next in
      let rows : h - y ≡ suc (h - y - 1) = omega arith in
      let same : scan_rows im w cl x y (h - y) y start_scan ≡ end =
        ap (λ n. scan_rows im w cl x y n y start_scan) rows ∙ first_round (h - y - 1) in
      subst (λ q. IsFound im w h x y (choose cl x y q.0 q.1)) (sym same)
        (choose-IsFound end.0 end.1 hx r.2 (omega (arith, r.1)) r.0)
