-- ===== src/Region/Pick.antt =====
-- A span taken out of a list of libvncserver/rfbregion.c: the order and the points of the rest.
use libvncserver.Base.{◌+◌, Bool, true, false, ◌||◌, ◌≡◌, refl, ap, arith, List, [], ◌∷◌, ◌++◌}
use libvncserver.Base.Int.{ℤ, ◌≤ℤ◌}
use libvncserver.Region.Span
use libvncserver.Region.Span.{Span, SubOps, is_empty}
use libvncserver.Region.Laws.{within, list_holds, Chain, Chain-weaken, Chain-outside, IsProper}
use libvncserver.Region.Rgn.{pop_last}

-- A span of a list, and the list without it.
pub record Picked {S : Type 0} (l rest : List (Span S)) (s : Span S) : Type 0 where
  pub before : List (Span S)
  pub after : List (Span S)
  pub whole : l ≡ before ++ s ∷ after
  pub left : rest ≡ before ++ after

pub pop_last-Picked :
    {S : Type 0} (s : Span S) (l : List (Span S))
    → s ∷ l ≡ (pop_last s l).0 ++ (pop_last s l).1 ∷ []
unfolding pop_last
pop_last-Picked s [] = refl
pop_last-Picked s (t ∷ l) = ap (λ m. s ∷ m) (pop_last-Picked t l)

module _ {S : Type 0} (IsValid : S → Type 0) where
  low : (lo : ℤ) (a b : List (Span S)) (s : Span S) → Chain IsValid lo (a ++ s ∷ b) → lo ≤ℤ s.start
  low lo [] b s c = c.0
  low lo (t ∷ a) b s c = let q = low t.end a b s c.3 in omega (arith, q, c.0, c.1)

  pub proper :
      (lo : ℤ) (a b : List (Span S)) (s : Span S)
      → Chain IsValid lo (a ++ s ∷ b)
      → IsProper IsValid s
  proper lo [] b s c = (c.1, c.2)
  proper lo (t ∷ a) b s c = proper t.end a b s c.3

  pub removed :
      (lo : ℤ) (a b : List (Span S)) (s : Span S)
      → Chain IsValid lo (a ++ s ∷ b)
      → Chain IsValid lo (a ++ b)
  removed lo [] b s c = Chain-weaken IsValid s.end lo b (omega (arith, c.0, c.1)) c.3
  removed lo (t ∷ a) b s c = (c.0, c.1, c.2, removed t.end a b s c.3)

  pub replaced :
      (lo : ℤ) (a b : List (Span S)) (s : Span S) (u : S)
      → IsValid u
      → Chain IsValid lo (a ++ s ∷ b)
      → Chain IsValid lo (a ++ record s { sub = u } ∷ b)
  replaced lo [] b s u v c = (c.0, c.1, v, c.3)
  replaced lo (t ∷ a) b s u v c = (c.0, c.1, c.2, replaced t.end a b s u v c.3)

module _ {S P : Type 0} (holds : P → S → Bool) (IsValid : S → Type 0) (x : ℤ) (p : P) where
  pub holds-append :
      (a b : List (Span S))
      → list_holds holds x p (a ++ b) ≡ list_holds holds x p a || list_holds holds x p b
  holds-append [] b = refl
  holds-append (s ∷ a) b = ground (arith, holds-append a b)

  -- A point in the rows of a span is in no other span.
  pub alone :
      (lo : ℤ) (a b : List (Span S)) (s : Span S)
      → Chain IsValid lo (a ++ s ∷ b)
      → within s.start s.end x ≡ true
      → list_holds holds x p (a ++ b) ≡ false
  alone lo [] b s c h = Chain-outside holds IsValid x p s.end b c.3 (ground arith)
  alone lo (t ∷ a) b s c h =
      let q = low IsValid t.end a b s c.3 in
      let r = alone t.end a b s c.3 h in
      let out : within t.start t.end x ≡ false = ground (arith, q, h) in rw (out, r) refl

module _ {S : Type 0} (ops : SubOps S) where
  pub count-append :
      (a b : List (Span S)) → Span.count ops (a ++ b) ≡ Span.count ops a + Span.count ops b
  unfolding Span.count
  count-append [] b = omega arith
  count-append (s ∷ a) b = ground (arith, count-append a b)
