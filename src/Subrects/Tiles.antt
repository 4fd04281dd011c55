-- ===== src/Subrects/Tiles.antt =====
-- `rfbSendRectEncodingCoRRE` of libvncserver/corre.c, which cuts a rectangle into small ones.
use libvncserver.Base.{
  ℕ, zero, suc, ◌+◌, ◌-◌, ◌≤◌, ◌<◌, Bool, true, false, ◌&&◌, ltb, if◌then◌else◌, ◌≡◌, refl, arith,
  ◌∙◌, List, [], ◌∷◌, ◌++◌, Bool-cases, inl, inr, ap, sym,
}
use mathlib.Core.Path.{fun_ext}
use libvncserver.Subrects.Image.{in_span}
use libvncserver.Subrects.Send.{Sender, Sent, sent, refused, stuck, proceed}

-- A rectangle to send.
pub record Area : Type 0 where
  pub x : ℕ
  pub y : ℕ
  pub w : ℕ
  pub h : ℕ

-- The return value of `rfbSendSmallRectEncodingCoRRE` is not looked at.
unfoldable pub ignore : {W : Type 0} → Sent W → Sent W
ignore (sent s) = sent s
ignore (refused s) = sent s
ignore stuck = stuck

module _ {W : Type 0} (small : Area → Sender W → Sent W) (max_w max_h : ℕ) where
  -- Each call is on a smaller rectangle, where the two limits are not 0.
  unfoldable pub send_corre : ℕ → Area → Sender W → Sent W
  unfolding ignore proceed
  send_corre zero a s = stuck
  send_corre (suc fuel) a s = elim (ltb max_h a.h) [
    | true ↦
        proceed (send_corre fuel (record a { h = max_h }) s)
          (send_corre fuel (record a { y = a.y + max_h; h = a.h - max_h }))
    | false ↦ elim (ltb max_w a.w) [
      | true ↦
          proceed (send_corre fuel (record a { w = max_w }) s)
            (send_corre fuel (record a { x = a.x + max_w; w = a.w - max_w }))
      | false ↦ ignore (small a s)
    ]
  ]

-- The rectangles that are sent, in their order.
pub data IsCut (max_w max_h : ℕ) : Area → List Area → Type 0 where
  whole : {a : Area} → a.w ≤ max_w → a.h ≤ max_h → IsCut max_w max_h a (a ∷ [])
  rows :
      {a : Area} {l m : List Area}
      → max_h < a.h
      → IsCut max_w max_h (record a { h = max_h }) l
      → IsCut max_w max_h (record a { y = a.y + max_h; h = a.h - max_h }) m
      → IsCut max_w max_h a (l ++ m)
  columns :
      {a : Area} {l m : List Area}
      → max_w < a.w
      → IsCut max_w max_h (record a { w = max_w }) l
      → IsCut max_w max_h (record a { x = a.x + max_w; w = a.w - max_w }) m
      → IsCut max_w max_h a (l ++ m)

abbrev pub in_area : ℕ → ℕ → Area → Bool
in_area i j a = in_span a.x a.w i && in_span a.y a.h j

-- In how many of some rectangles a pixel is.
abbrev pub covered : ℕ → ℕ → List Area → ℕ
covered i j [] = 0
covered i j (a ∷ l) = (if in_area i j a then 1 else 0) + covered i j l

covered-append : (i j : ℕ) (l m : List Area) → covered i j (l ++ m) ≡ covered i j l + covered i j m
covered-append i j [] m = omega arith
covered-append i j (a ∷ l) m = omega (arith, covered-append i j l m)

-- Every rectangle is within the limits.
abbrev pub AllCut : ℕ → ℕ → List Area → Type 0
AllCut max_w max_h [] = Unit
AllCut max_w max_h (a ∷ l) = (a.w ≤ max_w) × (a.h ≤ max_h) × AllCut max_w max_h l

AllCut-append :
    (max_w max_h : ℕ) (l m : List Area)
    → AllCut max_w max_h l
    → AllCut max_w max_h m
    → AllCut max_w max_h (l ++ m)
AllCut-append max_w max_h [] m p q = q
AllCut-append max_w max_h (a ∷ l) m p q = (p.0, p.1, AllCut-append max_w max_h l m p.2 q)

IsCut-AllCut :
    {max_w max_h : ℕ} {a : Area} {l : List Area} → IsCut max_w max_h a l → AllCut max_w max_h l
IsCut-AllCut (whole p q) = (p, q, tt)
IsCut-AllCut (rows {l = l} {m = m} t p q) = AllCut-append _ _ l m (IsCut-AllCut p) (IsCut-AllCut q)
IsCut-AllCut (columns {l = l} {m = m} t p q) =
    AllCut-append _ _ l m (IsCut-AllCut p) (IsCut-AllCut q)

-- A pixel of the rectangle is in one of the pieces, and another pixel in none.
IsCut-covered :
    {max_w max_h : ℕ} {a : Area} {l : List Area} (i j : ℕ)
    → IsCut max_w max_h a l
    → covered i j l ≡ (if in_area i j a then 1 else 0)
IsCut-covered i j (whole p q) = omega arith
IsCut-covered i j (rows {l = l} {m = m} t p q) =
    ground (arith, covered-append i j l m, IsCut-covered i j p, IsCut-covered i j q)
IsCut-covered i j (columns {l = l} {m = m} t p q) =
    ground (arith, covered-append i j l m, IsCut-covered i j p, IsCut-covered i j q)

module _ {W : Type 0} (small : Area → Sender W → Sent W) where
  -- The small rectangles of a list, sent one behind the other whatever becomes of each.
  abbrev pub send_each : List Area → Sender W → Sent W
  send_each [] s = sent s
  send_each (a ∷ l) s = proceed (ignore (small a s)) (send_each l)

  proceed_assoc :
      (r : Sent W) (f g : Sender W → Sent W)
      → proceed r (λ s. proceed (f s) g) ≡ proceed (proceed r f) g
  unfolding proceed
  proceed_assoc (sent s) f g = refl
  proceed_assoc (refused s) f g = refl
  proceed_assoc stuck f g = refl

  proceed_sent : (r : Sent W) → proceed r sent ≡ r
  unfolding proceed
  proceed_sent (sent s) = refl
  proceed_sent (refused s) = refl
  proceed_sent stuck = refl

  send_each-append :
      (l m : List Area) (s : Sender W)
      → send_each (l ++ m) s ≡ proceed (send_each l s) (send_each m)
  unfolding proceed
  send_each-append [] m s = refl
  send_each-append (a ∷ l) m s =
      ap (proceed (ignore (small a s))) (fun_ext (send_each-append l m))
      ∙ proceed_assoc (ignore (small a s)) (send_each l) (send_each m)

  -- The pieces of a rectangle, and that the routine sends them.
  record Cuts (max_w max_h fuel : ℕ) (a : Area) : Type 0 where
    pieces : List Area
    cut : IsCut max_w max_h a pieces
    sends : (s : Sender W) → send_corre small max_w max_h fuel a s ≡ send_each pieces s

  send_corre-Cuts :
      (max_w max_h fuel : ℕ) (a : Area)
      → 0 < max_w
      → 0 < max_h
      → a.w + a.h < fuel
      → Cuts max_w max_h fuel a
  unfolding send_corre
  send_corre-Cuts max_w max_h zero a p q n = absurd (omega (arith, n))
  send_corre-Cuts max_w max_h (suc fuel) a p q n = elim (Bool-cases (ltb max_h a.h)) [
    | inl t ↦
        let more : max_h < a.h = ground arith in
        let l = send_corre-Cuts max_w max_h fuel (record a { h = max_h }) p q (omega arith) in
        let m =
          send_corre-Cuts max_w max_h fuel (record a { y = a.y + max_h; h = a.h - max_h }) p q
            (omega arith) in
        record {
          pieces = l.pieces ++ m.pieces;
          cut = rows more l.cut m.cut;
          sends = λ s.
              rw (send_corre, t)
                (rw (l.sends s, fun_ext m.sends) (sym (send_each-append l.pieces m.pieces s)));
        }
    | inr t ↦ elim (Bool-cases (ltb max_w a.w)) [
      | inl u ↦
          let more : max_w < a.w = ground arith in
          let l = send_corre-Cuts max_w max_h fuel (record a { w = max_w }) p q (omega arith) in
          let m =
            send_corre-Cuts max_w max_h fuel (record a { x = a.x + max_w; w = a.w - max_w }) p q
              (omega arith) in
          record {
            pieces = l.pieces ++ m.pieces;
            cut = columns more l.cut m.cut;
            sends = λ s.
                rw (send_corre, t, u)
                  (rw (l.sends s, fun_ext m.sends) (sym (send_each-append l.pieces m.pieces s)));
          }
      | inr u ↦ record {
        pieces = a ∷ [];
        cut = whole (ground arith) (ground arith);
        sends = λ s. rw (send_corre, t, u) (sym (proceed_sent (ignore (small a s))));
      }
    ]
  ]

  -- With limits that are not 0, `rfbSendRectEncodingCoRRE` ends, for any small routine that does: it
  -- sends pieces that are within the limits, one behind the other, and each pixel of the rectangle is
  -- in exactly one piece, each other pixel in none.
  pub send_corre_lem :
      (max_w max_h fuel : ℕ) (a : Area)
      → 0 < max_w
      → 0 < max_h
      → a.w + a.h < fuel
      → (pieces : List Area) × ((s : Sender W)
          → send_corre small max_w max_h fuel a s ≡ send_each pieces s)
        × AllCut max_w max_h pieces
        × ((i j : ℕ) → covered i j pieces ≡ (if in_area i j a then 1 else 0))
  send_corre_lem max_w max_h fuel a p q n =
      let c = send_corre-Cuts max_w max_h fuel a p q n in
      (c.pieces, c.sends, IsCut-AllCut c.cut, λ i j. IsCut-covered i j c.cut)
