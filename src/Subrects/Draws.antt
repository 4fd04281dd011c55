-- ===== src/Subrects/Draws.antt =====
-- `subrectEncode` of libvncserver/rre.c as a whole: what its rectangles draw, and their size.
use libvncserver.Base.{
  ℕ, zero, suc, ◌+◌, ◌*◌, ◌≤◌, ◌<◌, ◌==◌, ◌≡◌, ◌⊎◌, refl, arith, Bool-cases, inl, inr, ==_iff, List,
  [], Option, none, some, Option-cases, length, sym, subst,
}
use libvncserver.Subrects.Image.{Image, Subrect, fill_all}
use libvncserver.Subrects.Encode.{
  Sizes, Costs, costs, Encoder, encode_row, encode_rows, subrect_encode, bg_colour,
}
use libvncserver.Subrects.Loop.{
  blank, AllParts, IsEncoder, IsRound, Reaches, IsRound-trans, encode_row-Reaches,
}

module _ (k : Costs) (w h bg : ℕ) (orig : Image) where
  -- Every row from `y` on is background behind the loop.
  abbrev pub IsDone : ℕ → ℕ → Encoder → Type 0
  IsDone y left e' = (i j : ℕ) → i < w → y ≤ j → j < y + left → e'.im i j ≡ bg

  rows_step :
      (left y : ℕ) (e e1 : Encoder) (o : Option Encoder)
      → IsRound k w h bg orig e e1
      → ((i : ℕ) → 0 ≤ i → i < 0 + w → e1.im i y ≡ bg)
      → Reaches k w h bg orig e1 o (IsDone (y + 1) left)
      → Reaches k w h bg orig e o (IsDone y (suc left))
  rows_step left y e e1 none p q r = tt
  rows_step left y e e1 (some e') p q r = (
    IsRound-trans k w h bg orig e e1 e' p r.0,
    λ i j a lo hi. elim (Bool-cases (j == y)) [
      | inl t ↦ rw ((==_iff j y).0 t) (r.0.kept i y (q i (omega arith) (omega arith)))
      | inr t ↦ r.1 i j a (ground arith) (omega arith)
    ],
  )

  pub encode_rows-Reaches :
      (left y : ℕ) (e : Encoder)
      → IsEncoder k w h bg orig e
      → y + left ≤ h
      → Reaches k w h bg orig e (encode_rows k w h bg left y e) (IsDone y left)
  unfolding encode_rows
  encode_rows-Reaches zero y e g hy =
      (record { encoder = g; kept = λ i j t. t }, λ i j a p q. absurd (omega arith))
  encode_rows-Reaches (suc left) y e g hy =
      let first = encode_row-Reaches k w h bg orig w 0 y e g (omega arith) (omega arith) in
      elim (Option-cases (encode_row k w h bg w 0 y e)) [
        | inl q ↦ rw (encode_rows, q) tt
        | inr (e1, q) ↦
            let p = rw q at first in
            rw (encode_rows, q)
              (rows_step left y e e1 (encode_rows k w h bg left (y + 1) e1) p.0 p.1
                (encode_rows-Reaches left (y + 1) e1 p.0.encoder (omega arith)))
      ]

-- What the encoding of an image says: its rectangles lie in the image and draw it over the
-- background, and their bytes are not more than those of the raw image, nor than the buffer.
pub record Draws (k : Sizes) (im : Image) (w h bg : ℕ) (subs : List Subrect) : Type 0 where
  pub background : bg ≡ bg_colour k.pixel im w h
  pub drawn : (i j : ℕ) → i < w → j < h → fill_all subs (blank bg) i j ≡ im i j
  pub parts : AllParts w h im subs
  pub fits :
      (subs ≡ [])
      ⊎ ((k.pixel + length subs * (k.pixel + k.rect) ≤ w * h * k.pixel)
          × (k.pixel + length subs * (k.pixel + k.rect) ≤ k.room))

module _ (k : Sizes) (w h c : ℕ) (im : Image) where
  abbrev start : Encoder
  start = record { im = im; len = k.pixel; subs = [] }

  start-IsEncoder : IsEncoder (costs k w h) w h c im start
  unfolding fill_all
  start-IsEncoder = record {
    drawn = λ i j t. sym t;
    left_im = λ i j t. refl;
    left_bg = λ i j t. refl;
    parts = tt;
    size = omega arith;
    fits = inl refl;
  }

  end-Draws :
      (e : Encoder)
      → IsEncoder (costs k w h) w h c im e
      → c ≡ bg_colour k.pixel im w h
      → IsDone (costs k w h) w h c im 0 h e
      → Draws k im w h c e.subs
  end-Draws e g b done =
      let size = g.size in
      record {
        background = b;
        drawn = λ i j a b. g.drawn i j (done i j a (omega arith) (omega arith));
        parts = g.parts;
        fits = elim g.fits [ inl q ↦ inl q | inr (q, r) ↦ inr (omega arith, omega arith) ];
      }

  -- What the function returns for what its loops leave.
  abbrev reported : Option Encoder → Option (ℕ × List Subrect)
  reported none = none
  reported (some e) = some (c, e.subs)

  result-Draws :
      (o : Option Encoder) (bg : ℕ) (subs : List Subrect)
      → c ≡ bg_colour k.pixel im w h
      → Reaches (costs k w h) w h c im start o (IsDone (costs k w h) w h c im 0 h)
      → reported o ≡ some (bg, subs)
      → Draws k im w h bg subs
  result-Draws none bg subs b r e = cc
  result-Draws (some e') bg subs b r e =
      let p : c ≡ bg = cc in
      let q : e'.subs ≡ subs = cc in
      subst (λ c. Draws k im w h c subs) p
        (subst (λ l. Draws k im w h c l) q (end-Draws e' r.0.encoder b r.1))

-- Where `subrectEncode` does not return -1, its rectangles, filled in their order over the background,
-- give back the image; they are parts of it, and where there are any, the bytes of the encoding are not more
-- than those of the raw image, nor than the buffer has room for.
pub subrect_encode-Draws :
    (k : Sizes) (im : Image) (w h bg : ℕ) (subs : List Subrect)
    → subrect_encode k im w h ≡ some (bg, subs)
    → Draws k im w h bg subs
unfolding subrect_encode
subrect_encode-Draws k im w h bg subs e =
    let c = bg_colour k.pixel im w h in
    result-Draws k w h c im (encode_rows (costs k w h) w h c h 0 (start k w h c im)) bg subs refl
      (encode_rows-Reaches (costs k w h) w h c im h 0 (start k w h c im)
        (start-IsEncoder k w h c im) (omega arith))
      e
