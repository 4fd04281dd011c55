-- ===== src/Region/And.antt =====
-- `sraSpanListAnd` of libvncserver/rfbregion.c.
pub mod Cut
pub mod Loop
pub mod Inter
use libvncserver.Base.{◌+◌, ◌*◌, Bool, not, ◌&&◌, List, [], ◌∷◌, if◌then◌else◌, while, length}
use libvncserver.Base.Int.{leb_ℤ, ltb_ℤ}
use libvncserver.Region.Span.{Span, SubOps, Cursor, unwind, is_empty, merge_back, split_end}

-- The variables of the loops of `sraSpanListAnd` and `sraSpanListSubtract`: the spans of `dest`
-- before `d_curr`, nearest first, and from it on, and the spans of `src` from `s_curr` on.
pub record Walk (S : Type 0) : Type 0 where
  pub prevs : List (Span S)
  pub dest : List (Span S)
  pub src : List (Span S)

module _ {S : Type 0} where
  -- `(s_curr != &(src->back)) && (d_curr != &(dest->back))`
  unfoldable pub walk_test : Walk S → Bool
  unfolding is_empty
  walk_test st = not (is_empty st.src) && not (is_empty st.dest)

  -- "The top bit of the span does not match"
  unfoldable pub and_trim : Span S → Span S → Span S
  and_trim s d = if ltb_ℤ d.start s.start then record d { start = s.start } else d

  -- "Move on to the next span": past the end of the destination's span, the source's, or both.
  unfoldable pub and_advance : Cursor S → Span S → List (Span S) → Walk S
  and_advance c s src =
      let src' = if leb_ℤ s.end c.cur.end then src else s ∷ src in
      if leb_ℤ c.cur.end s.end
      then record { prevs = c.cur ∷ c.prevs; dest = c.next; src = src' }
      else record { prevs = c.prevs; dest = c.cur ∷ c.next; src = src' }

module _ {S : Type 0} (ops : SubOps S) where
  -- "Now recursively process the affected span", at a position that is cut to the overlap.
  unfoldable pub and_subspans : Cursor S → Span S → List (Span S) → Walk S
  and_subspans c s src =
      let r = ops.cut c.cur.sub s.sub in
      if r.1
      then and_advance (merge_back ops (record c { cur = record c.cur { sub = r.0 } })) s src
      else record { prevs = c.prevs; dest = c.next; src = s ∷ src }

  -- The body of the loop, by the spans from `d_curr` and from `s_curr` on.
  unfoldable pub and_at : Walk S → List (Span S) → List (Span S) → Walk S
  and_at st dest [] = st
  and_at st [] (s ∷ src) = st
  and_at st (d ∷ dest) (s ∷ src) =
      if leb_ℤ s.end d.start
      then record st { src = src }
      else if leb_ℤ d.end s.start
      then record st { dest = dest }
      else and_subspans (split_end s (record { prevs = st.prevs; cur = and_trim s d; next = dest }))
          s src

  unfoldable pub and_body : Walk S → Walk S
  unfolding and_at
  and_body st = and_at st st.dest st.src

  -- `sraSpanListAnd` of two lists that are not NULL: what is left of `dest` behind the loop is
  -- removed. Each round passes a span of `src`, passes or removes one of `dest`, or cuts one of
  -- `dest` for the only time at the same `s_curr`, so that the fuel is enough.
  unfoldable pub inter : List (Span S) → List (Span S) → List (Span S) × Bool
  unfolding and_body walk_test unwind is_empty
  inter dest src =
      let end =
        while (2 * length src + length dest + 2) walk_test and_body
          (record { prevs = []; dest = dest; src = src }) in
      let result = unwind end.prevs [] in (result, not (is_empty result))
