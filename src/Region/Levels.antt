-- ===== src/Region/Levels.antt =====
-- A list of spans over a level that keeps the promises of `SubLaws` keeps them too, and so do the two
-- levels of a region of libvncserver/rfbregion.c.
use libvncserver.Base.{
  Bool, true, false, not, ◌&&◌, ◌||◌, List, [], ◌∷◌, ◌≡◌, refl, arith, ap, sym, ◌∙◌,
}
use mathlib.Core.Bool.{true≢false}
use libvncserver.Base.Int.{ℤ, eqb_ℤ→eq}
use libvncserver.Region.Span
use libvncserver.Region.Span.{Span, SubOps, is_empty}
use libvncserver.Region.Laws.{SubLaws, list_holds, IsSorted, within_intro}
use libvncserver.Region.Nested.{null_ops, list_ops, column_ops}
use libvncserver.Region.Or.{union}
use libvncserver.Region.Or.Union.{union_points, union-IsSorted}
use libvncserver.Region.And.{inter}
use libvncserver.Region.And.Inter.{inter_points, inter-IsSorted, inter_flag}
use libvncserver.Region.Subtract.{subtract}
use libvncserver.Region.Subtract.Difference.{
  difference_points, difference-IsSorted, difference_flag,
}

abbrev pub null_laws : SubLaws null_ops (Unit {0})
null_laws = record {
  holds = λ p a. true;
  IsValid = λ a. Unit;
  inhabited = λ a v. (tt, refl);
  equal_sound = λ a b e. refl;
  union_holds = λ a b v w p. refl;
  union-IsValid = λ a b v w. tt;
  inter_holds = λ a b v w p. refl;
  inter-IsValid = λ a b v w e. tt;
  subtract_holds = λ a b v w n p. absurd (true≢false n);
  subtract_null = λ a b n p. refl;
  subtract-IsValid = λ a b v w n e. tt;
}

module _ {S : Type 0} (ops : SubOps S) where
  module _ {P : Type 0} (laws : SubLaws ops P) where
    abbrev pub point_in : ℤ × P → List (Span S) → Bool
    point_in xp l = list_holds laws.holds xp.0 xp.1 l

    -- In order, and not empty.
    abbrev pub IsProperList : List (Span S) → Type 0
    IsProperList l = IsSorted laws.IsValid l × (is_empty l ≡ false)

    pub list_inhabited :
        (l : List (Span S)) → IsProperList l → (xp : ℤ × P) × (point_in xp l ≡ true)
    unfolding is_empty
    list_inhabited [] v = cc
    list_inhabited (s ∷ l) v =
        let c = v.0.1 in
        let q = laws.inhabited s.sub c.2 in
        ((s.start, q.0), rw (within_intro s.start s.end s.start (omega arith) c.1, q.1))

    -- `sraSpanListEqual` says yes to equal lists only.
    pub equal_lists : (a b : List (Span S)) → Span.equal ops a b ≡ true → a ≡ b
    unfolding Span.equal
    equal_lists [] [] e = refl
    equal_lists [] (t ∷ ts) e = cc
    equal_lists (s ∷ ss) [] e = cc
    equal_lists (s ∷ ss) (t ∷ ts) e = ground (
      arith,
      eqb_ℤ→eq s.start t.start,
      eqb_ℤ→eq s.end t.end,
      laws.equal_sound s.sub t.sub,
      equal_lists ss ts,
    )

    not_empty : (l : List (Span S)) (xp : ℤ × P) → point_in xp l ≡ true → is_empty l ≡ false
    unfolding is_empty
    not_empty [] xp h = cc
    not_empty (s ∷ l) xp h = refl

    pub empty_holds :
        (l : List (Span S)) (xp : ℤ × P) → point_in xp l ≡ not (is_empty l) && point_in xp l
    unfolding is_empty
    empty_holds [] xp = refl
    empty_holds (s ∷ l) xp = refl

    pub left_over :
        (f : Bool) (l : List (Span S)) → f ≡ not (is_empty l) → f ≡ true → is_empty l ≡ false
    left_over f l h e = ground arith

    pub union-IsProperList :
        (a b : List (Span S)) → IsProperList a → IsProperList b → IsProperList (union ops a b)
    union-IsProperList a b v w =
        let q = list_inhabited a v in
        (
          union-IsSorted ops laws a b v.0 w.0,
          not_empty (union ops a b) q.0
              (union_points ops laws a b v.0 w.0 q.0.0 q.0.1 ∙ ap (λ t. t || point_in q.0 b) q.1),
        )

    abbrev pub list_laws : SubLaws (list_ops ops) (ℤ × P)
    list_laws = record {
      holds = point_in;
      IsValid = IsProperList;
      inhabited = list_inhabited;
      equal_sound = equal_lists;
      union_holds = λ a b v w p. union_points ops laws a b v.0 w.0 p.0 p.1;
      union-IsValid = union-IsProperList;
      inter_holds = λ a b v w p.
          sym (inter_points ops laws a b v.0 w.0 p.0 p.1)
          ∙ empty_holds (inter ops a b).0 p
          ∙ ap (λ t. t && point_in p (inter ops a b).0) (sym (inter_flag ops laws a b));
      inter-IsValid = λ a b v w e. (
        inter-IsSorted ops laws a b v.0 w.0,
        left_over (inter ops a b).1 (inter ops a b).0 (inter_flag ops laws a b) e,
      );
      subtract_holds = λ a b v w n p.
          sym (difference_points ops laws a b v.0 w.0 p.0 p.1)
          ∙ empty_holds (subtract ops a b).0 p
          ∙ ap (λ t. t && point_in p (subtract ops a b).0) (sym (difference_flag ops laws a b));
      subtract_null = λ a b n p. absurd (true≢false (sym n));
      subtract-IsValid = λ a b v w n e. (
        difference-IsSorted ops laws a b v.0 w.0,
        left_over (subtract ops a b).1 (subtract ops a b).0 (difference_flag ops laws a b) e,
      );
    }

abbrev pub column_laws : SubLaws column_ops (ℤ × Unit {0})
column_laws = list_laws null_ops null_laws

abbrev pub region_laws : SubLaws (list_ops column_ops) (ℤ × (ℤ × Unit {0}))
region_laws = list_laws column_ops column_laws
