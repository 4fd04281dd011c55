-- ===== src/Subrects/Loop.antt =====
-- The rectangles of `subrectEncode` of libvncserver/rre.c draw its image.
use libvncserver.Base.{
  ℕ, zero, suc, ◌+◌, ◌*◌, ◌≤◌, ◌<◌, ◌||◌, ◌==◌, ltb, if◌then◌else◌, ◌≡◌, ◌≢◌, ◌⊎◌, refl, arith,
  Bool-cases, inl, inr, ==_iff, ◌∙◌, List, [], ◌∷◌, ◌++◌, Option, none, some, Option-cases, length,
  length-append, ap, ap₂, sym,
}
use libvncserver.Subrects.Image.{Image, Subrect, fill, fill_all, in_rect, fill_lem, fill_all_snoc}
use libvncserver.Subrects.Encode.{Costs, Encoder, find_subrect, encode_pixel, encode_row}
use libvncserver.Subrects.Find.{IsFound, find_subrect-IsFound}

-- One colour everywhere.
abbrev pub blank : ℕ → Image
blank bg i j = bg

-- A rectangle that is not empty lies within the image, and has the colour of its first pixel.
pub record IsPart (w h : ℕ) (orig : Image) (r : Subrect) : Type 0 where
  pub column : r.x + r.w ≤ w
  pub row : r.y + r.h ≤ h
  pub width : 0 < r.w
  pub height : 0 < r.h
  pub colour : r.colour ≡ orig r.x r.y

abbrev pub AllParts : ℕ → ℕ → Image → List Subrect → Type 0
AllParts w h orig [] = Unit
AllParts w h orig (r ∷ rs) = IsPart w h orig r × AllParts w h orig rs

AllParts-snoc :
    (w h : ℕ) (orig : Image) (rs : List Subrect) (r : Subrect)
    → AllParts w h orig rs
    → IsPart w h orig r
    → AllParts w h orig (rs ++ r ∷ [])
AllParts-snoc w h orig [] r a p = (p, tt)
AllParts-snoc w h orig (s ∷ rs) r a p = (a.0, AllParts-snoc w h orig rs r a.1 p)

module _ (k : Costs) (w h bg : ℕ) (orig : Image) where
  -- What is background by now is drawn, and the rest is as it was.
  pub record IsEncoder (e : Encoder) : Type 0 where
    pub drawn : (i j : ℕ) → e.im i j ≡ bg → fill_all e.subs (blank bg) i j ≡ orig i j
    pub left_im : (i j : ℕ) → e.im i j ≢ bg → e.im i j ≡ orig i j
    pub left_bg : (i j : ℕ) → e.im i j ≢ bg → fill_all e.subs (blank bg) i j ≡ bg
    pub parts : AllParts w h orig e.subs
    pub size : e.len ≡ k.front + length e.subs * k.each
    pub fits : (e.subs ≡ []) ⊎ ((e.len ≤ k.raw) × (e.len ≤ k.room))

  -- A round only makes pixels background, and keeps what is known.
  pub record IsRound (e e' : Encoder) : Type 0 where
    pub encoder : IsEncoder e'
    pub kept : (i j : ℕ) → e.im i j ≡ bg → e'.im i j ≡ bg

  -- Taking out a rectangle of one colour.
  taken : Encoder → Subrect → Encoder
  taken e r = record {
    im = fill (record r { colour = bg }) e.im;
    len = e.len + k.each;
    subs = e.subs ++ r ∷ [];
  }

  taken_im :
      (e : Encoder) (r : Subrect) (i j : ℕ)
      → (taken e r).im i j ≡ (if in_rect r i j then bg else e.im i j)
  unfolding taken
  taken_im e r i j = fill_lem (record r { colour = bg }) e.im i j

  taken_drawn :
      (e : Encoder) (r : Subrect) (i j : ℕ)
      → fill_all (taken e r).subs (blank bg) i j
        ≡ (if in_rect r i j then r.colour else fill_all e.subs (blank bg) i j)
  unfolding taken
  taken_drawn e r i j =
      ap (λ im. im i j) (fill_all_snoc e.subs r (blank bg))
      ∙ fill_lem r (fill_all e.subs (blank bg)) i j

  -- One more rectangle takes the bytes of one more.
  more :
      (rs : List Subrect) (r : Subrect)
      → length (rs ++ r ∷ []) * k.each ≡ length rs * k.each + k.each
  more rs r = rw (length-append rs (r ∷ [])) (omega arith)

  taken-IsRound :
      (e : Encoder) (x y : ℕ) (r : Subrect)
      → IsEncoder e
      → e.im x y ≢ bg
      → IsFound e.im w h x y r
      → (e.len + k.each ≤ k.raw) × (e.len + k.each ≤ k.room)
      → IsRound e (taken e r)
  unfolding taken
  taken-IsRound e x y r g ne f room =
      let im' = taken_im e r in
      let drawn' = taken_drawn e r in
      let part : IsPart w h orig r = record {
        column = f.column;
        row = f.row;
        width = f.width;
        height = f.height;
        colour = f.colour ∙ g.left_im x y ne ∙ ap₂ orig (sym f.at_x) (sym f.at_y);
      } in
      record {
        encoder = record {
          drawn = λ i j t. elim (Bool-cases (in_rect r i j)) [
            | inl q ↦
                let same = f.same i j q in
                drawn' i j ∙ rw q (f.colour ∙ sym same ∙ g.left_im i j (λ z. ne (sym same ∙ z)))
            | inr q ↦ drawn' i j ∙ rw q (g.drawn i j (rw q at (sym (im' i j) ∙ t)))
          ];
          left_im = λ i j t. elim (Bool-cases (in_rect r i j)) [
            | inl q ↦ absurd (t (im' i j ∙ rw q refl))
            | inr q ↦
                let old : (taken e r).im i j ≡ e.im i j = im' i j ∙ rw q refl in
                old ∙ g.left_im i j (λ z. t (old ∙ z))
          ];
          left_bg = λ i j t. elim (Bool-cases (in_rect r i j)) [
            | inl q ↦ absurd (t (im' i j ∙ rw q refl))
            | inr q ↦
                let old : (taken e r).im i j ≡ e.im i j = im' i j ∙ rw q refl in
                drawn' i j ∙ rw q (g.left_bg i j (λ z. t (old ∙ z)))
          ];
          parts = AllParts-snoc w h orig e.subs r g.parts part;
          size = omega (arith, g.size, length-append e.subs (r ∷ []), more e.subs r);
          fits = inr room;
        };
        kept = λ i j t. elim (Bool-cases (in_rect r i j)) [
          | inl q ↦ im' i j ∙ rw q refl
          | inr q ↦ im' i j ∙ rw q t
        ];
      }

  -- A round that reaches a state, where it does not return -1.
  abbrev pub Reaches : Encoder → Option Encoder → (Encoder → Type 0) → Type 0
  Reaches e none P = Unit
  Reaches e (some e') P = IsRound e e' × P e'

  pub IsRound-trans : (a b c : Encoder) → IsRound a b → IsRound b c → IsRound a c
  IsRound-trans a b c p q = record {
    encoder = q.encoder;
    kept = λ i j t. q.kept i j (p.kept i j t);
  }

  pub encode_pixel-Reaches :
      (e : Encoder) (x y : ℕ)
      → IsEncoder e
      → x < w
      → y < h
      → e.im x y ≢ bg
      → Reaches e (encode_pixel k w h bg x y e) (λ e'. e'.im x y ≡ bg)
  unfolding encode_pixel taken
  encode_pixel-Reaches e x y g hx hy ne =
      let r = find_subrect e.im w h x y in
      let f = find_subrect-IsFound e.im w h x y hx hy in
      let new_len = e.len + k.each in
      elim (Bool-cases (ltb k.raw new_len || ltb k.room new_len)) [
        | inl t ↦ rw (encode_pixel, t) tt
        | inr t ↦
            let round = taken-IsRound e x y r g ne f (ground arith, ground arith) in
            rw (encode_pixel, t) (round, taken_im e r x y ∙ rw f.start refl)
      ]

  row_step :
      (left x y : ℕ) (e e1 : Encoder) (o : Option Encoder)
      → IsRound e e1
      → e1.im x y ≡ bg
      → Reaches e1 o (λ e'. (i : ℕ) → x + 1 ≤ i → i < x + 1 + left → e'.im i y ≡ bg)
      → Reaches e o (λ e'. (i : ℕ) → x ≤ i → i < x + suc left → e'.im i y ≡ bg)
  row_step left x y e e1 none p q r = tt
  row_step left x y e e1 (some e') p q r = (
    IsRound-trans e e1 e' p r.0,
    λ i lo hi. elim (Bool-cases (i == x)) [
      | inl t ↦ rw ((==_iff i x).0 t) (r.0.kept x y q)
      | inr t ↦ r.1 i (ground arith) (omega arith)
    ],
  )

  -- All of a row from column `x` on is background behind its loop.
  pub encode_row-Reaches :
      (left x y : ℕ) (e : Encoder)
      → IsEncoder e
      → x + left ≤ w
      → y < h
      → Reaches e
          (encode_row k w h bg left x y e)
          (λ e'. (i : ℕ) → x ≤ i → i < x + left → e'.im i y ≡ bg)
  unfolding encode_row
  encode_row-Reaches zero x y e g hx hy =
      (record { encoder = g; kept = λ i j t. t }, λ i p q. absurd (omega arith))
  encode_row-Reaches (suc left) x y e g hx hy = elim (Bool-cases (e.im x y == bg)) [
    | inl t ↦
        rw (encode_row, t)
          (row_step left x y e e (encode_row k w h bg left (x + 1) y e)
            (record { encoder = g; kept = λ i j t. t }) ((==_iff (e.im x y) bg).0 t)
            (encode_row-Reaches left (x + 1) y e g (omega arith) hy))
    | inr t ↦
        let ne : e.im x y ≢ bg = ground arith in
        let first = encode_pixel-Reaches e x y g (omega arith) hy ne in
        elim (Option-cases (encode_pixel k w h bg x y e)) [
          | inl q ↦ rw (encode_row, t, q) tt
          | inr (e1, q) ↦
              let p = rw q at first in
              rw (encode_row, t, q)
                (row_step left x y e e1 (encode_row k w h bg left (x + 1) y e1) p.0 p.1
                  (encode_row-Reaches left (x + 1) y e1 p.0.encoder (omega arith) hy))
        ]
  ]
