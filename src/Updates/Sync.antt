-- ===== src/Updates/Sync.antt =====
-- That a client's screen can follow the server's frame buffer, by the regions that libvncserver/main.c
-- and libvncserver/rfbserver.c keep for it.
use libvncserver.Base.{ℕ, Bool, true, false, ◌&&◌, if◌then◌else◌, ◌≡◌, arith, ap₂, sym, ◌∙◌}
use libvncserver.Base.Int.{ℤ, pos, ◌+ℤ◌, ◌-ℤ◌, +ℤ_parts, -ℤ_parts, eq_of_parts}
use libvncserver.Region.Laws.{within}
use libvncserver.Region.Nested.{Region, IsRegion, contains}
use libvncserver.Region.Rgn.{rgn_or, offset}
use libvncserver.Region.Boolean.{rgn_or_lem}
use libvncserver.Region.Offset.{offset_lem}
use libvncserver.Updates.Client.{Screen, Client, negate}

-- The pixels of a screen.
abbrev pub Pixels : Type 0
Pixels = ℤ → ℤ → ℕ

abbrev pub on_screen : Screen → ℤ → ℤ → Bool
on_screen s x y = within (pos 0) s.width x && within (pos 0) s.height y

-- A pixel of the server that is not waiting to be sent is what the client shows, or shows at the
-- source of a copy that it is to make.
pub record InSync (s : Screen) (server client : Pixels) (c : Client) : Type 0 where
  pub modified_IsRegion : IsRegion c.modified
  pub copy_IsRegion : IsRegion c.copy
  pub requested_IsRegion : IsRegion c.requested
  pub follows :
      (x y : ℤ)
      → on_screen s x y ≡ true
      → contains c.modified x y ≡ false
      → server x y
        ≡ (if contains c.copy x y then client (x -ℤ c.copy_dx) (y -ℤ c.copy_dy) else client x y)

pub minus_plus : (x d : ℤ) → (x -ℤ d) +ℤ d ≡ x
minus_plus x d = eq_of_parts ((x -ℤ d) +ℤ d) x (omega (arith, -ℤ_parts x d, +ℤ_parts (x -ℤ d) d))

pub minus_negate : (x d : ℤ) → x -ℤ negate d ≡ x +ℤ d
minus_negate x d =
    eq_of_parts (x -ℤ negate d) (x +ℤ d)
      (omega (arith, -ℤ_parts x (negate d), -ℤ_parts (pos 0) d, +ℤ_parts x d))

-- The pixels of a region that was moved.
pub offset_at :
    (r : Region) (dx dy x y : ℤ)
    → IsRegion r
    → contains (offset r dx dy) x y ≡ contains r (x -ℤ dx) (y -ℤ dy)
offset_at r dx dy x y v =
    sym (ap₂ (λ a b. contains (offset r dx dy) a b) (minus_plus x dx) (minus_plus y dy))
    ∙ (offset_lem r dx dy v).1 (x -ℤ dx) (y -ℤ dy)

-- A pixel that is not in what `sraRgnOr` makes.
pub rgn_or_out :
    (a b : Region) (x y : ℤ)
    → IsRegion a
    → IsRegion b
    → contains (rgn_or a b) x y ≡ false
    → (contains a x y ≡ false) × (contains b x y ≡ false)
rgn_or_out a b x y v w h = ground (arith, (rgn_or_lem a b v w).1 x y)

-- The pixels of a server that changes in a region alone, which is marked.
pub grow_modified :
    (s : Screen) (before after client : Pixels) (r : Region) (c : Client)
    → IsRegion r
    → ((x y : ℤ) → on_screen s x y ≡ true → contains r x y ≡ false → after x y ≡ before x y)
    → InSync s before client c
    → InSync s after client (record c { modified = rgn_or c.modified r })
grow_modified s before after client r c v same i = record {
  modified_IsRegion = (rgn_or_lem c.modified r i.modified_IsRegion v).0;
  copy_IsRegion = i.copy_IsRegion;
  requested_IsRegion = i.requested_IsRegion;
  follows = λ x y h k.
      let q = rgn_or_out c.modified r x y i.modified_IsRegion v k in
      same x y h q.1 ∙ i.follows x y h q.0;
}
