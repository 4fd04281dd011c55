-- ===== src/Region/Or/Union.antt =====
-- `sraSpanListOr` as a whole: the points and the order of the result, and its end.
use libvncserver.Base.{
  ℕ, true, false, ◌||◌, List, [], ◌∷◌, ◌≡◌, refl, arith, ◌+◌, ◌*◌, ◌<◌, ◌≤◌, length, ap, sym, ◌∙◌,
  while, while_inv, while_fuel,
}
use mathlib.Core.Bool.{or-false}
use libvncserver.Base.Int.{ℤ}
use libvncserver.Region.Span.{Span, SubOps, unwind}
use libvncserver.Region.Laws.{SubLaws, list_holds, IsSorted}
use libvncserver.Region.Merge.{unwind_holds, unwind-IsSorted}
use libvncserver.Region.Or.{OrState, start_of, or_body, or_test, union}
use libvncserver.Region.Or.Loop.{
  pending_holds, or_holds, IsOrState, or_measure, start_of_holds, start_of-Pending, or_round_holds,
  or_round-IsOrState,
}

module _ {S P : Type 0} (ops : SubOps S) (laws : SubLaws ops P) where
  abbrev begin : List (Span S) → List (Span S) → OrState S
  begin dest src = record { prevs = []; dest = dest; s_start = start_of src; src = src }

  record Reached (dest src : List (Span S)) (st : OrState S) : Type 0 where
    ordered : IsOrState ops laws st
    points :
        (x : ℤ) (p : P)
        → or_holds ops laws x p st ≡ list_holds laws.holds x p dest || list_holds laws.holds x p src

  begin-Reached :
      (dest src : List (Span S))
      → IsSorted laws.IsValid dest
      → IsSorted laws.IsValid src
      → Reached dest src (begin dest src)
  begin-Reached dest src d s = record {
    ordered = record {
      bound = d.0;
      before = tt;
      after = d.1;
      pending = start_of-Pending ops laws s.0 [] src tt s.1;
    };
    points = λ x p. ap (λ b. list_holds laws.holds x p dest || b) (start_of_holds ops laws x p src);
  }

  round-Reached :
      (dest src : List (Span S)) (st : OrState S)
      → Reached dest src st
      → or_test ops st ≡ true
      → Reached dest src (or_body ops st)
        × (or_measure ops laws (or_body ops st) < or_measure ops laws st)
  round-Reached dest src st r g =
      let k = or_round-IsOrState ops laws st.prevs st.s_start st.dest st.src r.ordered g in
      (
        record {
          ordered = k.0;
          points = λ x p.
              or_round_holds ops laws x p st.prevs st.s_start st.dest st.src r.ordered
              ∙ r.points x p;
        },
        k.1,
      )

  stopped :
      (x : ℤ) (p : P) (prevs dest : List (Span S)) (s_start : ℤ) (src : List (Span S))
      → or_test ops (record { prevs = prevs; dest = dest; s_start = s_start; src = src }) ≡ false
      → pending_holds ops laws x p s_start src ≡ false
  unfolding or_test
  stopped x p prevs dest s_start [] e = refl
  stopped x p prevs dest s_start (s ∷ src) e = cc

  module _ (dest src : List (Span S)) (d : IsSorted laws.IsValid dest)
      (s : IsSorted laws.IsValid src) where
    final : OrState S
    final = while (2 * length src + length dest + 1) (or_test ops) (or_body ops) (begin dest src)

    final-Reached : Reached dest src final × (or_test ops final ≡ false)
    unfolding final
    final-Reached =
        while_inv (Reached dest src) (or_measure ops laws) (or_test ops) (or_body ops)
          (round-Reached dest src) (2 * length src + length dest + 1) (begin dest src) (omega arith)
          (begin-Reached dest src d s)

    -- `sraSpanListOr` leaves in `dest` exactly the points of both lists.
    pub union_points :
        (x : ℤ) (p : P)
        → list_holds laws.holds x p (union ops dest src)
          ≡ list_holds laws.holds x p dest || list_holds laws.holds x p src
    unfolding union final
    union_points x p =
        let r = final-Reached in
        unwind_holds ops laws x p final.prevs final.dest
        ∙ ap (λ b. list_holds laws.holds x p final.prevs || b)
            (sym (or-false (list_holds laws.holds x p final.dest))
              ∙ ap (λ b. list_holds laws.holds x p final.dest || b)
                  (sym (stopped x p final.prevs final.dest final.s_start final.src r.1)))
        ∙ r.0.points x p

    -- It leaves it in order.
    pub union-IsSorted : IsSorted laws.IsValid (union ops dest src)
    unfolding union final
    union-IsSorted =
        let r = final-Reached.0.ordered in
        unwind-IsSorted ops laws r.bound final.prevs final.dest r.before r.after

    -- For two lists in order, the loop ends by its own test within the rounds that it is given, and
    -- within any greater number: the test is false behind it, and the result is the same.
    pub union_rounds :
        (more : ℕ)
        → 2 * length src + length dest + 1 ≤ more
        → let end = while more (or_test ops) (or_body ops) (begin dest src) in
          (or_test ops end ≡ false) × (union ops dest src ≡ unwind end.prevs end.dest)
    unfolding union
    union_rounds more h = (
      (while_inv (Reached dest src) (or_measure ops laws) (or_test ops) (or_body ops)
          (round-Reached dest src) more (begin dest src) (omega (arith, h))
          (begin-Reached dest src d s)).1,
      ap (λ (st : OrState S). unwind st.prevs st.dest)
          (sym (
            while_fuel (Reached dest src) (or_measure ops laws) (or_test ops) (or_body ops)
              (round-Reached dest src) (2 * length src + length dest + 1) more (begin dest src)
              (omega arith) h (begin-Reached dest src d s))),
    )
