-- ===== src/Region/Nested.antt =====
-- The levels of a region of libvncserver/rfbregion.c: what the span list routines do on NULL, and what
-- they do on a list of spans, as the subspans of the list above; and the pixels of a region.
use libvncserver.Base.{Bool, true, false, List, ◌≡◌}
use libvncserver.Base.Int.{ℤ}
use libvncserver.Region.Span
use libvncserver.Region.Span.{Span, SubOps, is_empty}
use libvncserver.Region.Laws.{list_holds, IsSorted}
use libvncserver.Region.Or.{union}
use libvncserver.Region.And.{inter}
use libvncserver.Region.Subtract.{subtract}

-- `subspan` is NULL: `sraSpanListEqual`, `sraSpanListAnd` and `sraSpanListSubtract` return 1 and
-- `sraSpanListOr` returns. `sraSpanListSubtract` and `sraSpanListCount` are not called.
abbrev pub null_ops : SubOps (Unit {0})
null_ops = record {
  is_null = λ a. true;
  equal = λ a b. true;
  count = λ a. 0;
  join = λ a b. a;
  cut = λ a b. (a, true);
  minus = λ a b. (a, true);
}

module _ {S : Type 0} (ops : SubOps S) where
  -- The routines on lists that are not NULL.
  abbrev pub list_ops : SubOps (List (Span S))
  list_ops = record {
    is_null = λ a. false;
    equal = Span.equal ops;
    count = Span.count ops;
    join = union ops;
    cut = inter ops;
    minus = subtract ops;
  }

-- A span of columns has no subspans; one of rows has the list of its columns.
abbrev pub Columns : Type 0
Columns = List (Span (Unit {0}))

-- `sraRegion`
abbrev pub Region : Type 0
Region = List (Span Columns)

abbrev pub column_ops : SubOps Columns
column_ops = list_ops null_ops

-- A point is in a span of columns wherever it is.
abbrev pub in_columns : ℤ × Unit {0} → Columns → Bool
in_columns xp l = list_holds (λ p a. true) xp.0 xp.1 l

-- Whether a pixel is in a region.
abbrev pub contains : Region → ℤ → ℤ → Bool
contains r x y = list_holds in_columns y (x, tt) r

-- Columns in order and disjoint, at least one.
abbrev pub IsColumns : Columns → Type 0
IsColumns l = IsSorted (λ a. Unit {0}) l × (is_empty l ≡ false)

-- Rows in order and disjoint, each with such columns, none of them empty.
abbrev pub IsRegion : Region → Type 0
IsRegion r = IsSorted IsColumns r
