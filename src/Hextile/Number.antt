-- ===== src/Hextile/Number.antt =====
-- How many subrectangles a tile of libvncserver/hextile.c has: at most one for each pixel that is not
-- of the background.
use libvncserver.Base.{
  ℕ, zero, suc, ◌+◌, ◌≤◌, ◌<◌, ◌||◌, ◌==◌, ltb, ◌≡◌, ◌≢◌, arith, ◌∙◌, sym, inl, inr, List, [], ◌∷◌,
  ◌++◌, Option, none, some, Option-cases, Bool-cases, length, length-append, All, All-append,
}
use libvncserver.Subrects.Image.{Image, Subrect}
use libvncserver.Subrects.Encode.{
  Costs, Encoder, find_subrect, encode_pixel, encode_row, encode_rows, row_pixels, pixels,
}
use libvncserver.Subrects.Loop.{IsEncoder, encode_pixel-Reaches, encode_row-Reaches}
use libvncserver.Subrects.Find.{find_subrect-IsFound}
use libvncserver.Hextile.Colours.{others}

-- No rectangle is of the background.
abbrev pub Foreign : ℕ → List Subrect → Type 0
Foreign bg = All (λ (r : Subrect). r.colour ≢ bg)

-- At most `n` rectangles more, none of the background, where the encoder goes on.
abbrev pub Adds : ℕ → Encoder → Option Encoder → ℕ → Type 0
Adds bg e none n = Unit
Adds bg e (some e') n =
    (length e'.subs ≤ length e.subs + n) × (Foreign bg e.subs → Foreign bg e'.subs)

Adds-le :
    (bg : ℕ) (e : Encoder) (o : Option Encoder) (m n : ℕ) → m ≤ n → Adds bg e o m → Adds bg e o n
Adds-le bg e none m n l a = tt
Adds-le bg e (some e') m n l a = (omega (arith, l, a.0), a.1)

Adds-both :
    (bg : ℕ) (e e1 : Encoder) (o : Option Encoder) (m n : ℕ)
    → Adds bg e (some e1) m
    → Adds bg e1 o n
    → Adds bg e o (m + n)
Adds-both bg e e1 none m n a b = tt
Adds-both bg e e1 (some e') m n a b = (omega (arith, a.0, b.0), λ f. b.1 (a.1 f))

others-append : (c : ℕ) (ps qs : List ℕ) → others c (ps ++ qs) ≡ others c ps + others c qs
unfolding others
others-append c [] qs = omega arith
others-append c (p ∷ ps) qs = ground (arith, others-append c ps qs)

module _ (k : Costs) (w h bg : ℕ) (orig : Image) where
  encode_pixel-Adds :
      (x y : ℕ) (e : Encoder)
      → x < w
      → y < h
      → e.im x y ≢ bg
      → Adds bg e (encode_pixel k w h bg x y e) 1
  unfolding encode_pixel
  encode_pixel-Adds x y e hx hy ne =
      let r = find_subrect e.im w h x y in
      let c = (find_subrect-IsFound e.im w h x y hx hy).colour in
      elim (Bool-cases (ltb k.raw (e.len + k.each) || ltb k.room (e.len + k.each))) [
        | inl t ↦ rw (encode_pixel, t) tt
        | inr t ↦
            rw (encode_pixel, t)
              (
                omega (arith, length-append e.subs (r ∷ [])),
                λ f.
                    All-append (λ (r : Subrect). r.colour ≢ bg) e.subs (r ∷ []) f
                      ((λ z. ne (sym c ∙ z)), tt),
              )
      ]

  encode_row-Adds :
      (left x y : ℕ) (e : Encoder)
      → IsEncoder k w h bg orig e
      → x + left ≤ w
      → y < h
      → Adds bg e (encode_row k w h bg left x y e) (others bg (row_pixels orig left x y))
  unfolding encode_row row_pixels others
  encode_row-Adds zero x y e g hx hy = (omega arith, λ f. f)
  encode_row-Adds (suc left) x y e g hx hy = elim (Bool-cases (e.im x y == bg)) [
    | inl t ↦
        rw (encode_row, t)
          (Adds-le bg e (encode_row k w h bg left (x + 1) y e)
            (others bg (row_pixels orig left (x + 1) y))
            (others bg (row_pixels orig (suc left) x y)) (ground arith)
            (encode_row-Adds left (x + 1) y e g (omega arith) hy))
    | inr t ↦
        let ne : e.im x y ≢ bg = ground arith in
        let old = g.left_im x y ne in
        let first = encode_pixel-Reaches k w h bg orig e x y g (omega arith) hy ne in
        let one = encode_pixel-Adds x y e (omega arith) hy ne in
        elim (Option-cases (encode_pixel k w h bg x y e)) [
          | inl q ↦ rw (encode_row, t, q) tt
          | inr (e1, q) ↦
              let p = rw q at first in
              let o = rw q at one in
              rw (encode_row, t, q)
                (Adds-le bg e (encode_row k w h bg left (x + 1) y e1)
                  (1 + others bg (row_pixels orig left (x + 1) y))
                  (others bg (row_pixels orig (suc left) x y)) (ground (arith, t, old))
                  (Adds-both bg e e1 (encode_row k w h bg left (x + 1) y e1) 1
                    (others bg (row_pixels orig left (x + 1) y)) o
                    (encode_row-Adds left (x + 1) y e1 p.0.encoder (omega arith) hy)))
        ]
  ]

  pub encode_rows-Adds :
      (left y : ℕ) (e : Encoder)
      → IsEncoder k w h bg orig e
      → y + left ≤ h
      → Adds bg e (encode_rows k w h bg left y e) (others bg (pixels orig w left y))
  unfolding encode_rows pixels
  encode_rows-Adds zero y e g hy = (omega arith, λ f. f)
  encode_rows-Adds (suc left) y e g hy =
      let row = row_pixels orig w 0 y in
      let rest = pixels orig w left (y + 1) in
      let first = encode_row-Reaches k w h bg orig w 0 y e g (omega arith) (omega arith) in
      let some_more = encode_row-Adds w 0 y e g (omega arith) (omega arith) in
      elim (Option-cases (encode_row k w h bg w 0 y e)) [
        | inl q ↦ rw (encode_rows, q) tt
        | inr (e1, q) ↦
            let p = rw q at first in
            let o = rw q at some_more in
            rw (encode_rows, q, others-append bg row rest)
              (Adds-both bg e e1 (encode_rows k w h bg left (y + 1) e1) (others bg row)
                (others bg rest) o (encode_rows-Adds left (y + 1) e1 p.0.encoder (omega arith)))
      ]
