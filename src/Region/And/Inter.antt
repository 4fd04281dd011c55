-- ===== src/Region/And/Inter.antt =====
-- `sraSpanListAnd` as a whole: the points and the order of the result, and its end.
use libvncserver.Base.{
  ℕ, true, false, not, ◌&&◌, ◌||◌, List, [], ◌∷◌, ◌≡◌, refl, arith, ◌+◌, ◌*◌, ◌<◌, ◌≤◌, length, ap,
  sym, ◌∙◌, while, while_inv, while_fuel,
}
use libvncserver.Base.Int.{ℤ}
use libvncserver.Region.Span.{Span, SubOps, unwind, is_empty}
use libvncserver.Region.Laws.{SubLaws, list_holds, IsSorted}
use libvncserver.Region.Merge.{unwind_holds, unwind-IsSorted}
use libvncserver.Region.And.{Walk, walk_test, and_body, inter}
use libvncserver.Region.And.Cut.{and_holds, IsWalk, walk_measure, walk, ahead-le}
use libvncserver.Region.And.Loop.{and_round_holds, and_round-IsWalk}

module _ {S P : Type 0} (ops : SubOps S) (laws : SubLaws ops P) where
  record Reached (dest src : List (Span S)) (st : Walk S) : Type 0 where
    ordered : IsWalk ops laws st
    points :
        (x : ℤ) (p : P)
        → and_holds ops laws x p st
          ≡ list_holds laws.holds x p dest && list_holds laws.holds x p src

  begin-Reached :
      (dest src : List (Span S))
      → IsSorted laws.IsValid dest
      → IsSorted laws.IsValid src
      → Reached dest src (walk ops laws [] dest src)
  begin-Reached dest src d s = record {
    ordered = record { bound = d.0; before = tt; after = d.1; source = s };
    points = λ x p. refl;
  }

  round-Reached :
      (dest src : List (Span S)) (st : Walk S)
      → Reached dest src st
      → walk_test st ≡ true
      → Reached dest src (and_body ops st)
        × (walk_measure ops laws (and_body ops st) < walk_measure ops laws st)
  round-Reached dest src st r g =
      let k = and_round-IsWalk ops laws st.prevs st.dest st.src r.ordered g in
      (
        record {
          ordered = k.0;
          points =
              λ x p. and_round_holds ops laws x p st.prevs st.dest st.src r.ordered ∙ r.points x p;
        },
        k.1,
      )

  stopped :
      (x : ℤ) (p : P) (prevs dest src : List (Span S))
      → walk_test (walk ops laws prevs dest src) ≡ false
      → (list_holds laws.holds x p dest && list_holds laws.holds x p src) ≡ false
  unfolding walk_test
  stopped x p prevs [] src e = refl
  stopped x p prevs (d ∷ dest) [] e = ground arith
  stopped x p prevs (d ∷ dest) (s ∷ src) e = cc

  module _ (dest src : List (Span S)) (d : IsSorted laws.IsValid dest)
      (s : IsSorted laws.IsValid src) where
    final : Walk S
    final =
        while (2 * length src + length dest + 2) walk_test (and_body ops)
          (walk ops laws [] dest src)

    final-Reached : Reached dest src final × (walk_test final ≡ false)
    unfolding final
    final-Reached =
        while_inv (Reached dest src) (walk_measure ops laws) walk_test (and_body ops)
          (round-Reached dest src) (2 * length src + length dest + 2) (walk ops laws [] dest src)
          (omega (arith, ahead-le ops laws dest src)) (begin-Reached dest src d s)

    -- `sraSpanListAnd` leaves in `dest` exactly the points of both lists.
    pub inter_points :
        (x : ℤ) (p : P)
        → list_holds laws.holds x p (inter ops dest src).0
          ≡ list_holds laws.holds x p dest && list_holds laws.holds x p src
    unfolding inter final
    inter_points x p =
        let r = final-Reached in
        unwind_holds ops laws x p final.prevs []
        ∙ ap (λ b. list_holds laws.holds x p final.prevs || b)
            (sym (stopped x p final.prevs final.dest final.src r.1))
        ∙ r.0.points x p

    -- It leaves it in order.
    pub inter-IsSorted : IsSorted laws.IsValid (inter ops dest src).0
    unfolding inter final
    inter-IsSorted =
        let r = final-Reached.0.ordered in
        unwind-IsSorted ops laws r.bound final.prevs [] r.before tt

    -- For two lists in order, the loop ends by its own test within the rounds that it is given, and
    -- within any greater number: the test is false behind it, and the result is the same.
    pub inter_rounds :
        (more : ℕ)
        → 2 * length src + length dest + 2 ≤ more
        → let end = while more walk_test (and_body ops) (walk ops laws [] dest src) in
          (walk_test end ≡ false) × ((inter ops dest src).0 ≡ unwind end.prevs [])
    unfolding inter
    inter_rounds more h = (
      (while_inv (Reached dest src) (walk_measure ops laws) walk_test (and_body ops)
          (round-Reached dest src) more (walk ops laws [] dest src)
          (omega (arith, h, ahead-le ops laws dest src)) (begin-Reached dest src d s)).1,
      ap (λ (st : Walk S). unwind st.prevs [])
          (sym (
            while_fuel (Reached dest src) (walk_measure ops laws) walk_test (and_body ops)
              (round-Reached dest src) (2 * length src + length dest + 2) more
              (walk ops laws [] dest src) (omega (arith, ahead-le ops laws dest src)) h
              (begin-Reached dest src d s))),
    )

  -- The returned flag says whether anything is left.
  pub inter_flag :
      (dest src : List (Span S)) → (inter ops dest src).1 ≡ not (is_empty (inter ops dest src).0)
  unfolding inter
  inter_flag dest src = refl
