-- ===== src/Region/Span.antt =====
-- The spans of libvncserver/rfbregion.c and the routines that move along a list of them.
use libvncserver.Base.{ℕ, ◌+◌, Bool, true, false, ◌&&◌, List, [], ◌∷◌, if◌then◌else◌}
use libvncserver.Base.Int.{ℤ, eqb_ℤ, ltb_ℤ}

-- `sraSpan` without its links: a list holds the spans in the order of the links. `S` is the type of
-- `subspan`.
pub record Span (S : Type 0) : Type 0 where
  pub start : ℤ
  pub end : ℤ
  pub sub : S

-- The routines of `subspan` lists that the routines of a span list call: they are the same
-- functions one level down, with what they do on a NULL list at the lowest level. The Boolean of
-- `inter` and `subtract` is the returned `rfbBool`.
pub record SubOps (S : Type 0) : Type 0 where
  pub is_null : S → Bool
  pub equal : S → S → Bool
  pub count : S → ℕ
  pub join : S → S → S
  pub cut : S → S → S × Bool
  pub minus : S → S → S × Bool

-- A position in a list that is being changed: `cur` is the span under `d_curr`, `next` the spans
-- after it and `prevs` those before it, the nearest first.
pub record Cursor (S : Type 0) : Type 0 where
  pub prevs : List (Span S)
  pub cur : Span S
  pub next : List (Span S)

module _ {S : Type 0} where
  -- The whole list, from the spans before a position, nearest first, and those from it on.
  unfoldable pub unwind : List (Span S) → List (Span S) → List (Span S)
  unwind [] right = right
  unwind (p ∷ prevs) right = unwind prevs (p ∷ right)

  -- `sraSpanListEmpty`
  unfoldable pub is_empty : List (Span S) → Bool
  is_empty [] = true
  is_empty (s ∷ l) = false

  -- `sraSpanListOr`, `sraSpanListAnd` and `sraSpanListSubtract` cut the span under the cursor at
  -- the end of the other span: what is beyond it becomes the next span.
  unfoldable pub split_end : Span S → Cursor S → Cursor S
  split_end s c =
      if ltb_ℤ s.end c.cur.end
      then record c {
        cur = record c.cur { end = s.end };
        next = record c.cur { start = s.end } ∷ c.next;
      }
      else c

  -- The part before the start of the other span becomes the span before the cursor.
  unfoldable pub split_start : ℤ → Cursor S → Cursor S
  split_start s_start c =
      if ltb_ℤ c.cur.start s_start
      then record c {
        prevs = record c.cur { end = s_start } ∷ c.prevs;
        cur = record c.cur { start = s_start };
      }
      else c

module _ {S : Type 0} (ops : SubOps S) where
  -- `sraSpanListEqual` of two lists that are not NULL
  unfoldable pub equal : List (Span S) → List (Span S) → Bool
  equal [] [] = true
  equal [] (t ∷ ts) = false
  equal (s ∷ ss) [] = false
  equal (s ∷ ss) (t ∷ ts) =
      if eqb_ℤ s.start t.start && (eqb_ℤ s.end t.end && ops.equal s.sub t.sub)
      then equal ss ts
      else false

  -- `sraSpanListCount`
  unfoldable pub count : List (Span S) → ℕ
  count [] = 0
  count (s ∷ ss) = (if ops.is_null s.sub then 1 else ops.count s.sub) + count ss

  -- `sraSpanMergePrevious`: the spans before `dest`, nearest first, and `dest`.
  unfoldable pub merge_previous : List (Span S) → Span S → List (Span S) × Span S
  merge_previous [] dest = ([], dest)
  merge_previous (prev ∷ prevs) dest =
      let merged = merge_previous prevs (record dest { start = prev.start }) in
      if eqb_ℤ prev.end dest.start && ops.equal prev.sub dest.sub
      then merged
      else (prev ∷ prevs, dest)

  -- `sraSpanMergeNext`: `dest` and the spans after it.
  unfoldable pub merge_next : Span S → List (Span S) → Span S × List (Span S)
  merge_next dest [] = (dest, [])
  merge_next dest (next ∷ nexts) =
      let merged = merge_next (record dest { end = next.end }) nexts in
      if eqb_ℤ next.start dest.end && ops.equal next.sub dest.sub
      then merged
      else (dest, next ∷ nexts)

  -- `sraSpanMergePrevious(d_curr)` and `sraSpanMergeNext(d_curr)`, at a position. The callers'
  -- tests for the ends of the list change nothing: both functions stop there by themselves.
  unfoldable pub merge_back : Cursor S → Cursor S
  unfolding merge_previous
  merge_back c = let m = merge_previous c.prevs c.cur in record c { prevs = m.0; cur = m.1 }

  unfoldable pub merge_forward : Cursor S → Cursor S
  unfolding merge_next
  merge_forward c = let m = merge_next c.cur c.next in record c { cur = m.0; next = m.1 }
