-- ===== src/Region/Or.antt =====
-- `sraSpanListOr` of libvncserver/rfbregion.c.
pub mod Overlap
pub mod Step
pub mod Loop
pub mod Union
use libvncserver.Base.{
  ℕ, ◌+◌, ◌*◌, Bool, true, false, not, ◌&&◌, List, [], ◌∷◌, if◌then◌else◌, while, length,
}
use libvncserver.Base.Int.{ℤ, pos, leb_ℤ, ltb_ℤ}
use libvncserver.Region.Span.{
  Span, SubOps, Cursor, unwind, merge_previous, merge_back, merge_forward, split_end, split_start,
}

-- The variables of the loop: the spans of `dest` before `d_curr`, nearest first, and from it on,
-- `s_start`, and the spans of `src` from `s_curr` on. `s_end` is always `s_curr->end`.
pub record OrState (S : Type 0) : Type 0 where
  pub prevs : List (Span S)
  pub dest : List (Span S)
  pub s_start : ℤ
  pub src : List (Span S)

-- `s_curr->start`; at the end of the list it is not used again.
pub start_of : {S : Type 0} → List (Span S) → ℤ
start_of [] = pos 0
start_of (s ∷ l) = s.start

module _ {S : Type 0} (ops : SubOps S) where
  -- "Insert new span before the existing destination one?"
  pub or_insert : ℤ → Span S → Cursor S → Cursor S
  unfolding merge_back
  or_insert s_start s c =
      if ltb_ℤ s_start c.cur.start
      then merge_back ops
          (record c { prevs = record s { start = s_start; end = c.cur.start } ∷ c.prevs })
      else c

  -- "Recursively OR subspans"
  pub or_subspans : Span S → Cursor S → Cursor S
  or_subspans s c = record c { cur = record c.cur { sub = ops.join c.cur.sub s.sub } }

  -- What the loop does where the new span overlaps the existing one, up to "Move onto the next
  -- pair to compare".
  pub or_overlap : ℤ → Span S → Cursor S → Cursor S
  or_overlap s_start s c =
      merge_forward ops
        (merge_back ops (or_subspans s (split_start s_start (split_end s (or_insert s_start s c)))))

  -- "Add the span", before `d_curr`.
  pub or_add : OrState S → Span S → List (Span S) → Span S → List (Span S) → OrState S
  unfolding merge_previous start_of
  or_add st d dest s src =
      let m = merge_previous ops (record s { start = st.s_start } ∷ st.prevs) d in
      record { prevs = m.0; dest = m.1 ∷ dest; s_start = start_of src; src = src }

  -- "Move onto the next pair to compare"
  pub or_advance : Cursor S → Span S → List (Span S) → OrState S
  unfolding start_of
  or_advance c s src =
      if ltb_ℤ c.cur.end s.end
      then record { prevs = c.cur ∷ c.prevs; dest = c.next; s_start = c.cur.end; src = s ∷ src }
      else record { prevs = c.prevs; dest = c.cur ∷ c.next; s_start = start_of src; src = src }

  -- The body of the loop, by the spans from `d_curr` and from `s_curr` on.
  pub or_at : OrState S → List (Span S) → List (Span S) → OrState S
  unfolding start_of
  or_at st dest [] = st
  or_at st [] (s ∷ src) = record {
    prevs = record s { start = st.s_start } ∷ st.prevs;
    dest = [];
    s_start = start_of src;
    src = src;
  }
  or_at st (d ∷ dest) (s ∷ src) =
      if leb_ℤ s.end d.start
      then or_add st d dest s src
      else if ltb_ℤ st.s_start d.end && ltb_ℤ d.start s.end
      then or_advance (or_overlap st.s_start s (record { prevs = st.prevs; cur = d; next = dest }))
          s src
      else record { prevs = d ∷ st.prevs; dest = dest; s_start = st.s_start; src = s ∷ src }

  pub or_body : OrState S → OrState S
  unfolding or_at
  or_body st = or_at st st.dest st.src

  -- `s_curr != &(src->back)`
  pub or_test : OrState S → Bool
  or_test st = elim st.src [ [] ↦ false | s ∷ l ↦ true ]

  -- `sraSpanListOr` of two lists that are not NULL. Each round passes a span of `dest`, or one of
  -- `src` and at most splits one of `dest`, so that the fuel is enough.
  pub union : List (Span S) → List (Span S) → List (Span S)
  unfolding or_body or_test start_of unwind
  union dest src =
      let end =
        while (2 * length src + length dest + 1) or_test or_body
          (record { prevs = []; dest = dest; s_start = start_of src; src = src }) in
      unwind end.prevs end.dest
