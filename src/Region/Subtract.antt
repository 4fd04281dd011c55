-- ===== src/Region/Subtract.antt =====
-- `sraSpanListSubtract` of libvncserver/rfbregion.c. Its loop has the variables of `sraSpanListAnd`.
pub mod Loop
pub mod Advance
pub mod Round
pub mod Difference
use libvncserver.Base.{◌+◌, ◌*◌, Bool, not, ◌||◌, List, [], ◌∷◌, if◌then◌else◌, while, length}
use libvncserver.Base.Int.{leb_ℤ, ltb_ℤ}
use libvncserver.Region.Span.{
  Span, SubOps, Cursor, unwind, is_empty, merge_back, merge_forward, split_end, split_start,
}
use libvncserver.Region.And.{Walk, walk_test}

-- "Move on to the next span"
pub subtract_advance : {S : Type 0} → Cursor S → Span S → List (Span S) → Walk S
subtract_advance c s src =
    if ltb_ℤ c.cur.end s.end
    then record { prevs = c.cur ∷ c.prevs; dest = c.next; src = s ∷ src }
    else record { prevs = c.prevs; dest = c.cur ∷ c.next; src = src }

module _ {S : Type 0} (ops : SubOps S) where
  -- "Merge this span with previous or next?", with the rest of the subspan in place.
  pub subtract_merge : Cursor S → Span S → Cursor S
  subtract_merge c s =
      merge_forward ops
        (merge_back ops (record c { cur = record c.cur { sub = (ops.minus c.cur.sub s.sub).0 } }))

  -- "Now recursively process the affected span", at a position that is cut to the overlap.
  pub subtract_subspans : Cursor S → Span S → List (Span S) → Walk S
  subtract_subspans c s src =
      if ops.is_null c.cur.sub || not (ops.minus c.cur.sub s.sub).1
      then record { prevs = c.prevs; dest = c.next; src = s ∷ src }
      else subtract_advance (subtract_merge c s) s src

  -- The body of the loop, by the spans from `d_curr` and from `s_curr` on.
  pub subtract_at : Walk S → List (Span S) → List (Span S) → Walk S
  subtract_at st dest [] = st
  subtract_at st [] (s ∷ src) = st
  subtract_at st (d ∷ dest) (s ∷ src) =
      if leb_ℤ s.end d.start
      then record st { src = src }
      else if leb_ℤ d.end s.start
      then record st { prevs = d ∷ st.prevs; dest = dest }
      else subtract_subspans
          (split_end s (split_start s.start (record { prevs = st.prevs; cur = d; next = dest }))) s
          src

  pub subtract_body : Walk S → Walk S
  unfolding subtract_at
  subtract_body st = subtract_at st st.dest st.src

  -- `sraSpanListSubtract` of two lists that are not NULL. The fuel is enough as in `sraSpanListAnd`.
  pub subtract : List (Span S) → List (Span S) → List (Span S) × Bool
  unfolding subtract_body walk_test unwind is_empty
  subtract dest src =
      let end =
        while (2 * length src + length dest + 2) walk_test subtract_body
          (record { prevs = []; dest = dest; src = src }) in
      let result = unwind end.prevs end.dest in (result, not (is_empty result))
