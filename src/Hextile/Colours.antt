-- ===== src/Hextile/Colours.antt =====
-- `testColours` of libvncserver/hextile.c: the background and the foreground of a tile.
use libvncserver.Base.{
  ℕ, ◌+◌, ◌*◌, ◌≤◌, ◌<◌, Bool, true, false, ◌==◌, ==_iff, ltb, if◌then◌else◌, ◌≡◌, ◌⊎◌, inl, inr,
  refl, arith, ◌∙◌, sym, List, [], ◌∷◌, length, Bool-cases, All, All-map,
}

-- The variables of the loop.
pub record Tally : Type 0 where
  pub colour1 : ℕ
  pub n1 : ℕ
  pub colour2 : ℕ
  pub n2 : ℕ
  pub mono : Bool
  pub solid : Bool

-- The assignments under `n1 == 0` and `n2 == 0`.
unfoldable pub first_colour : ℕ → Tally → Tally
first_colour p t = record t { colour1 = if t.n1 == 0 then p else t.colour1 }

unfoldable pub second_colour : ℕ → Tally → Tally
second_colour p t = record t {
  colour2 = if t.n2 == 0 then p else t.colour2;
  solid = if t.n2 == 0 then false else t.solid;
}

-- `for (; size > 0; size--, data++)`
unfoldable pub tally : List ℕ → Tally → Tally
unfolding first_colour second_colour
tally [] t = t
tally (p ∷ ps) t =
    let a = first_colour p t in
    elim (p == a.colour1) [
      | true ↦ tally ps (record a { n1 = a.n1 + 1 })
      | false ↦
          let b = second_colour p a in
          elim (p == b.colour2) [
            | true ↦ tally ps (record b { n2 = b.n2 + 1 })
            | false ↦ record b { mono = false }
          ]
    ]

-- What `testColours` tells of the pixels of a tile.
pub record Colours : Type 0 where
  pub mono : Bool
  pub solid : Bool
  pub bg : ℕ
  pub fg : ℕ

unfoldable pub test_colours : List ℕ → Colours
unfolding tally
test_colours ps =
    let t =
      tally ps (record { colour1 = 0; n1 = 0; colour2 = 0; n2 = 0; mono = true; solid = true }) in
    if ltb t.n2 t.n1
    then record { mono = t.mono; solid = t.solid; bg = t.colour1; fg = t.colour2 }
    else record { mono = t.mono; solid = t.solid; bg = t.colour2; fg = t.colour1 }

-- The number of pixels that are not of a colour.
unfoldable pub others : ℕ → List ℕ → ℕ
others colour [] = 0
others colour (p ∷ ps) = if p == colour then others colour ps else others colour ps + 1

-- What the loop has found out from `t` on, where it goes through to the end.
record IsTallied (t : Tally) (ps : List ℕ) (u : Tally) : Type 0 where
  two : All (λ p. (p ≡ u.colour1) ⊎ (p ≡ u.colour2)) ps
  sum : u.n1 + u.n2 ≡ t.n1 + t.n2 + length ps
  other1 : others u.colour1 ps + t.n2 ≤ u.n2
  other2 : others u.colour2 ps + t.n1 ≤ u.n1
  keeps1 : 0 < t.n1 → u.colour1 ≡ t.colour1
  keeps2 : 0 < t.n2 → u.colour2 ≡ t.colour2
  one : u.solid ≡ true → (t.solid ≡ true) × (u.n2 ≡ t.n2) × All (λ p. p ≡ u.colour1) ps

-- A pixel of the first colour, and one of the second.
again-IsTallied :
    (p : ℕ) (ps : List ℕ) (t u : Tally)
    → p ≡ (first_colour p t).colour1
    → IsTallied (record (first_colour p t) { n1 = t.n1 + 1 }) ps u
    → IsTallied t (p ∷ ps) u
unfolding first_colour others
again-IsTallied p ps t u e i =
    let c : u.colour1 ≡ (if t.n1 == 0 then p else t.colour1) = i.keeps1 (omega arith) in
    let q : p ≡ u.colour1 = e ∙ sym c in
    let sum = i.sum in
    let other1 = i.other1 in
    let other2 = i.other2 in
    record {
      two = (inl q, i.two);
      sum = omega (arith, sum);
      other1 = ground (arith, q, other1);
      other2 = ground (arith, other2);
      keeps1 = λ h. c ∙ ground (arith, h);
      keeps2 = i.keeps2;
      one = λ h. ((i.one h).0, (i.one h).1, (q, (i.one h).2));
    }

second-IsTallied :
    (p : ℕ) (ps : List ℕ) (t u : Tally)
    → (p == (first_colour p t).colour1) ≡ false
    → p ≡ (second_colour p t).colour2
    → (t.solid ≡ true → t.n2 ≡ 0)
    → IsTallied (record (second_colour p (first_colour p t)) { n2 = t.n2 + 1 }) ps u
    → IsTallied t (p ∷ ps) u
unfolding first_colour second_colour others
second-IsTallied p ps t u n e f i =
    let c : u.colour2 ≡ (if t.n2 == 0 then p else t.colour2) = i.keeps2 (omega arith) in
    let q : p ≡ u.colour2 = e ∙ sym c in
    let sum = i.sum in
    let other1 = i.other1 in
    let other2 = i.other2 in
    record {
      two = (inr q, i.two);
      sum = omega (arith, sum);
      other1 = ground (arith, other1);
      other2 = ground (arith, q, other2);
      keeps1 = λ h. ground (arith, h, i.keeps1 h);
      keeps2 = λ h. c ∙ ground (arith, h);
      one = λ h. absurd (ground (arith, (i.one h).0, f));
    }

-- The loop goes through to the end, or stops with neither flag.
Ends : Tally → List ℕ → Tally → Type 0
Ends t ps u = (IsTallied t ps u × (u.mono ≡ true)) ⊎ ((u.mono ≡ false) × (u.solid ≡ false))

carried :
    (t t' : Tally) (ps qs : List ℕ) (u : Tally)
    → (IsTallied t' ps u → IsTallied t qs u)
    → Ends t' ps u
    → Ends t qs u
unfolding Ends
carried t t' ps qs u f (inl e) = inl (f e.0, e.1)
carried t t' ps qs u f (inr e) = inr e

tally-Ends :
    (ps : List ℕ) (t : Tally) → t.mono ≡ true → (t.solid ≡ true → t.n2 ≡ 0) → Ends t ps (tally ps t)
unfolding tally others Ends first_colour second_colour
tally-Ends [] t m f = inl (
  record {
    two = tt;
    sum = omega arith;
    other1 = omega arith;
    other2 = omega arith;
    keeps1 = λ h. refl;
    keeps2 = λ h. refl;
    one = λ h. (h, refl, tt);
  },
  m,
)
tally-Ends (p ∷ ps) t m f = elim (Bool-cases (p == (first_colour p t).colour1)) [
  | inl e ↦
      let a = record (first_colour p t) { n1 = t.n1 + 1 } in
      rw (tally, e)
        (carried t a ps (p ∷ ps) (tally ps a)
          (again-IsTallied p ps t (tally ps a) ((==_iff p (first_colour p t).colour1).0 e))
          (tally-Ends ps a m f))
  | inr e ↦ elim (Bool-cases (p == (second_colour p t).colour2)) [
    | inl g ↦
        let b = record (second_colour p (first_colour p t)) { n2 = t.n2 + 1 } in
        rw (tally, e, g)
          (carried t b ps (p ∷ ps) (tally ps b)
            (second-IsTallied p ps t (tally ps b) e ((==_iff p (second_colour p t).colour2).0 g) f)
            (tally-Ends ps b m (λ h. absurd (ground (arith, h, f)))))
    | inr g ↦ rw (tally, e, g) (inr (refl, ground (arith, f)))
  ]
]

no_pixels : (P : ℕ → Type 0) (ps : List ℕ) → length ps ≡ 0 → All P ps
no_pixels P [] e = tt
no_pixels P (p ∷ ps) e = absurd (omega (arith, e))

exchanged : {A B : Type 0} → A ⊎ B → B ⊎ A
exchanged (inl a) = inr a
exchanged (inr b) = inl b

-- What is said of the pixels of a tile is true: with `solid` they are all of the background, and with
-- `mono` they are all of the background or the foreground, and at most half of them are not
-- of the background; `solid` comes with `mono`.
pub test_colours_lem :
    (ps : List ℕ)
    → ((test_colours ps).solid ≡ true
        → ((test_colours ps).mono ≡ true) × All (λ p. p ≡ (test_colours ps).bg) ps)
      × ((test_colours ps).mono ≡ true
          → All (λ p. (p ≡ (test_colours ps).bg) ⊎ (p ≡ (test_colours ps).fg)) ps
            × (others (test_colours ps).bg ps * 2 ≤ length ps))
unfolding test_colours Ends
test_colours_lem ps =
    let start : Tally = record {
      colour1 = 0;
      n1 = 0;
      colour2 = 0;
      n2 = 0;
      mono = true;
      solid = true;
    } in
    let u = tally ps start in
    elim (tally-Ends ps start refl (λ h. refl)) [
      | inl (i, m) ↦
          let sum = i.sum in
          let other1 = i.other1 in
          let other2 = i.other2 in
          elim (Bool-cases (ltb u.n2 u.n1)) [
            | inl e ↦ rw e (λ h. (m, (i.one h).2), λ h. (i.two, ground (arith, e)))
            | inr e ↦ rw e (
              λ h. (m, no_pixels (λ p. p ≡ u.colour2) ps (ground (arith, e, (i.one h).1, sum))),
              λ h. (
                All-map (λ p. (p ≡ u.colour1) ⊎ (p ≡ u.colour2))
                    (λ p. (p ≡ u.colour2) ⊎ (p ≡ u.colour1)) ps (λ p. exchanged) i.two,
                ground (arith, e),
              ),
            )
          ]
      | inr (m, n) ↦ elim (Bool-cases (ltb u.n2 u.n1)) [
        | inl e ↦ rw e (λ h. absurd (ground (arith, h, n)), λ h. absurd (ground (arith, h, m)))
        | inr e ↦ rw e (λ h. absurd (ground (arith, h, n)), λ h. absurd (ground (arith, h, m)))
      ]
    ]

-- Its colours are those of pixels, or 0.
tally-lt :
    (n : ℕ) (ps : List ℕ) (t : Tally)
    → t.colour1 < n
    → t.colour2 < n
    → All (λ p. p < n) ps
    → ((tally ps t).colour1 < n) × ((tally ps t).colour2 < n)
unfolding tally first_colour second_colour
tally-lt n [] t a b s = (a, b)
tally-lt n (p ∷ ps) t a b s =
    let below = s.0 in
    let one : (if t.n1 == 0 then p else t.colour1) < n = ground (arith, below) in
    let two : (if t.n2 == 0 then p else t.colour2) < n = ground (arith, below) in
    elim (Bool-cases (p == (first_colour p t).colour1)) [
      | inl e ↦
          rw (tally, e) (tally-lt n ps (record (first_colour p t) { n1 = t.n1 + 1 }) one b s.1)
      | inr e ↦ elim (Bool-cases (p == (second_colour p t).colour2)) [
        | inl g ↦
            rw (tally, e, g)
              (tally-lt n ps (record (second_colour p (first_colour p t)) { n2 = t.n2 + 1 }) one two
                s.1)
        | inr g ↦ rw (tally, e, g) (one, two)
      ]
    ]

pub test_colours-lt :
    (n : ℕ) (ps : List ℕ)
    → 0 < n
    → All (λ p. p < n) ps
    → ((test_colours ps).bg < n) × ((test_colours ps).fg < n)
unfolding test_colours
test_colours-lt n ps z s =
    let start : Tally = record {
      colour1 = 0;
      n1 = 0;
      colour2 = 0;
      n2 = 0;
      mono = true;
      solid = true;
    } in
    let u = tally ps start in
    let c = tally-lt n ps start z z s in
    elim (Bool-cases (ltb u.n2 u.n1)) [ inl e ↦ rw e c | inr e ↦ rw e (c.1, c.0) ]
