-- ===== src/Region/Laws.antt =====
-- What the routines of subspan lists promise, the points of a span list, and its order.
use libvncserver.Base.{Bool, true, false, not, ◌&&◌, ◌||◌, List, [], ◌∷◌, ◌≡◌, refl, arith}
use libvncserver.Base.Int.{ℤ, ◌≤ℤ◌, ◌<ℤ◌, leb_ℤ, ltb_ℤ}
use libvncserver.Region.Span.{Span, SubOps, Cursor}

-- `P` is the type of the points of a subspan list, and `holds` says which points one has.
pub record SubLaws {S : Type 0} (ops : SubOps S) (P : Type 0) : Type 1 where
  pub holds : P → S → Bool
  pub IsValid : S → Type 0
  pub inhabited : (a : S) → IsValid a → (p : P) × (holds p a ≡ true)
  pub equal_sound : (a b : S) → ops.equal a b ≡ true → a ≡ b
  pub union_holds :
      (a b : S) → IsValid a → IsValid b → (p : P) → holds p (ops.join a b) ≡ holds p a || holds p b
  pub union-IsValid : (a b : S) → IsValid a → IsValid b → IsValid (ops.join a b)
  pub inter_holds :
      (a b : S)
      → IsValid a
      → IsValid b
      → (p : P) → (holds p a && holds p b) ≡ (ops.cut a b).1 && holds p (ops.cut a b).0
  pub inter-IsValid :
      (a b : S) → IsValid a → IsValid b → (ops.cut a b).1 ≡ true → IsValid (ops.cut a b).0
  pub subtract_holds :
      (a b : S)
      → IsValid a
      → IsValid b
      → ops.is_null a ≡ false
      → (p : P) → (holds p a && not (holds p b)) ≡ (ops.minus a b).1 && holds p (ops.minus a b).0
  pub subtract_null :
      (a b : S) → ops.is_null a ≡ true → (p : P) → (holds p a && not (holds p b)) ≡ false
  pub subtract-IsValid :
      (a b : S)
      → IsValid a
      → IsValid b
      → ops.is_null a ≡ false
      → (ops.minus a b).1 ≡ true
      → IsValid (ops.minus a b).0

-- `lo <= x && x < hi`
abbrev pub within : ℤ → ℤ → ℤ → Bool
within lo hi x = leb_ℤ lo x && ltb_ℤ x hi

pub within_intro : (lo hi x : ℤ) → lo ≤ℤ x → x <ℤ hi → within lo hi x ≡ true
within_intro lo hi x h k = ground arith

pub within_low : (lo hi x : ℤ) → within lo hi x ≡ true → lo ≤ℤ x
within_low lo hi x h = ground arith

pub within_high : (lo hi x : ℤ) → within lo hi x ≡ true → x <ℤ hi
within_high lo hi x h = ground arith

-- A range within a range.
pub within_narrow :
    (lo hi lo' hi' x : ℤ)
    → lo ≤ℤ lo'
    → hi' ≤ℤ hi
    → within lo hi x ≡ false
    → within lo' hi' x ≡ false
within_narrow lo hi lo' hi' x h k e = ground arith

pub leb_ℤ_false : (a b : ℤ) → leb_ℤ a b ≡ false → b <ℤ a
leb_ℤ_false a b h = ground arith

pub leb_ℤ_true : (a b : ℤ) → leb_ℤ a b ≡ true → a ≤ℤ b
leb_ℤ_true a b h = ground arith

pub ltb_ℤ_false : (a b : ℤ) → ltb_ℤ a b ≡ false → b ≤ℤ a
ltb_ℤ_false a b h = ground arith

pub ltb_ℤ_true : (a b : ℤ) → ltb_ℤ a b ≡ true → a <ℤ b
ltb_ℤ_true a b h = ground arith

module _ {S P : Type 0} (holds : P → S → Bool) (x : ℤ) (p : P) where
  abbrev pub span_holds : Span S → Bool
  span_holds s = within s.start s.end x && holds p s.sub

  -- Whether a list of spans has the point `x, p`.
  abbrev pub list_holds : List (Span S) → Bool
  list_holds [] = false
  list_holds (s ∷ l) = span_holds s || list_holds l

module _ {S : Type 0} (IsValid : S → Type 0) where
  -- Not empty, and valid below.
  abbrev pub IsProper : Span S → Type 0
  IsProper s = (s.start <ℤ s.end) × IsValid s.sub

  -- The spans are in order and disjoint, from `lo` on.
  abbrev pub Chain : ℤ → List (Span S) → Type 0
  Chain lo [] = Unit
  Chain lo (s ∷ l) = (lo ≤ℤ s.start) × (s.start <ℤ s.end) × IsValid s.sub × Chain s.end l

  -- The same of spans listed backwards, up to `hi`.
  abbrev pub Below : ℤ → List (Span S) → Type 0
  Below hi [] = Unit
  Below hi (s ∷ l) = (s.end ≤ℤ hi) × (s.start <ℤ s.end) × IsValid s.sub × Below s.start l

  -- Some `lo` is a bound of the whole list.
  abbrev pub IsSorted : List (Span S) → Type 0
  IsSorted l = (lo : ℤ) × Chain lo l

  pub record IsPlaced (c : Cursor S) : Type 0 where
    pub before : Below c.cur.start c.prevs
    pub proper : c.cur.start <ℤ c.cur.end
    pub valid : IsValid c.cur.sub
    pub after : Chain c.cur.end c.next

  pub Chain-weaken : (lo lo' : ℤ) (l : List (Span S)) → lo' ≤ℤ lo → Chain lo l → Chain lo' l
  Chain-weaken lo lo' [] h c = tt
  Chain-weaken lo lo' (s ∷ l) h c = (omega arith, c.1, c.2, c.3)

  pub Below-weaken : (hi hi' : ℤ) (l : List (Span S)) → hi ≤ℤ hi' → Below hi l → Below hi' l
  Below-weaken hi hi' [] h b = tt
  Below-weaken hi hi' (s ∷ l) h b = (omega arith, b.1, b.2, b.3)

module _ {S P : Type 0} (holds : P → S → Bool) (IsValid : S → Type 0) (x : ℤ) (p : P) where
  -- A list has no points before it starts, and one listed backwards none after it ends.
  pub Chain-outside :
      (lo : ℤ) (l : List (Span S)) → Chain IsValid lo l → x <ℤ lo → list_holds holds x p l ≡ false
  Chain-outside lo [] c h = refl
  Chain-outside lo (s ∷ l) c h =
      let a = c.0 in let b = c.1 in ground (arith, Chain-outside s.end l c.3)

  pub Below-outside :
      (hi : ℤ) (l : List (Span S)) → Below IsValid hi l → hi ≤ℤ x → list_holds holds x p l ≡ false
  Below-outside hi [] c h = refl
  Below-outside hi (s ∷ l) c h =
      let a = c.0 in let b = c.1 in ground (arith, Below-outside s.start l c.3)
