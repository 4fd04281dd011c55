-- ===== src/Stats/Laws.antt =====
-- The counters of libvncserver/stats.c count.
use libvncserver.Base.{
  ℕ, ◌+◌, ◌^◌, ◌<◌, Bool, true, false, List, [], ◌∷◌, ◌≡◌, refl, arith, Bool-cases, inl, inr, ◌==◌,
  if◌then◌else◌, ==_iff, ap, sym, ◌∙◌,
}
use mathlib.Core.Path.{fun_ext}
use libvncserver.Stats.{
  Stat, Client, u32, fresh, has_kind, update_first, lookup_or_create, encoding_sent, message_sent,
  encoding_rcvd, message_rcvd, count_sent, count_rcvd, count_of, sum_of, get_encoding_count_sent,
  get_sent_bytes,
}

-- No type has two entries.
abbrev pub IsDistinct : List Stat → Type 0
IsDistinct [] = Unit
IsDistinct (s ∷ l) = (has_kind s.kind l ≡ false) × IsDistinct l

-- An update that keeps the type of an entry.
abbrev Keeps : (Stat → Stat) → Type 0
Keeps f = (s : Stat) → (f s).kind ≡ s.kind

has_kind-update_first :
    (kind other : ℕ) (f : Stat → Stat) (l : List Stat)
    → Keeps f
    → has_kind other (update_first kind f l) ≡ has_kind other l
unfolding has_kind update_first
has_kind-update_first kind other f [] h = refl
has_kind-update_first kind other f (s ∷ l) h = elim (Bool-cases (s.kind == kind)) [
  | inl e ↦ rw e (rw (h s))
  | inr e ↦
      rw e (ap (λ b. if s.kind == other then true else b) (has_kind-update_first kind other f l h))
]

update_first-IsDistinct :
    (kind : ℕ) (f : Stat → Stat) (l : List Stat)
    → Keeps f
    → IsDistinct l
    → IsDistinct (update_first kind f l)
unfolding update_first
update_first-IsDistinct kind f [] h d = tt
update_first-IsDistinct kind f (s ∷ l) h d = elim (Bool-cases (s.kind == kind)) [
  | inl e ↦ rw (e, h s) d
  | inr e ↦
      rw (e, has_kind-update_first kind s.kind f l h) (d.0, update_first-IsDistinct kind f l h d.1)
]

lookup_or_create-IsDistinct :
    (room : Bool) (kind : ℕ) (l : List Stat)
    → IsDistinct l
    → IsDistinct (lookup_or_create room kind l)
unfolding lookup_or_create
lookup_or_create-IsDistinct room kind l d = elim (Bool-cases (has_kind kind l)) [
  | inl e ↦ rw e d
  | inr e ↦ rw e (elim (Bool-cases room) [ inl r ↦ rw r (e, d) | inr r ↦ rw r d ])
]

count_of-update_first :
    (field : Stat → ℕ) (kind other : ℕ) (f : Stat → Stat) (l : List Stat)
    → Keeps f
    → count_of field other (update_first kind f l) ≡ (
        if kind == other
        then (if has_kind kind l then count_of (λ s. field (f s)) kind l else 0)
        else count_of field other l)
unfolding count_of update_first has_kind
count_of-update_first field kind other f [] h = ground arith
count_of-update_first field kind other f (s ∷ l) h =
    ground (arith, h s, count_of-update_first field kind other f l h)

has_kind-lookup_or_create :
    (kind : ℕ) (l : List Stat) → has_kind kind (lookup_or_create true kind l) ≡ true
unfolding lookup_or_create
has_kind-lookup_or_create kind l = elim (Bool-cases (has_kind kind l)) [
  | inl e ↦ rw e e
  | inr e ↦ rw e (ground arith)
]

count_of_absent :
    (field : Stat → ℕ) (kind : ℕ) (l : List Stat)
    → has_kind kind l ≡ false
    → count_of field kind l ≡ 0
unfolding count_of has_kind
count_of_absent field kind [] h = refl
count_of_absent field kind (s ∷ l) h = ground (arith, count_of_absent field kind l)

count_of-lookup_or_create :
    (field : Stat → ℕ) (room : Bool) (kind other : ℕ) (l : List Stat)
    → field (fresh kind) ≡ 0
    → count_of field other (lookup_or_create room kind l) ≡ count_of field other l
unfolding lookup_or_create count_of
count_of-lookup_or_create field room kind other l z = elim (Bool-cases (has_kind kind l)) [
  | inl e ↦ rw e
  | inr e ↦
      let k = (==_iff kind other).0 in
      rw e (elim (Bool-cases room) [
        | inl r ↦ rw r (elim (Bool-cases (kind == other)) [
          | inl q ↦
              let o = (==_iff kind other).0 q in
              rw q (z ∙ sym (count_of_absent field other l (ap (λ t. has_kind t l) (sym o) ∙ e)))
          | inr q ↦ rw q
        ])
        | inr r ↦ rw r
      ])
]

count_of_map :
    (field : Stat → ℕ) (g : ℕ → ℕ) (kind : ℕ) (l : List Stat)
    → has_kind kind l ≡ true
    → count_of (λ s. g (field s)) kind l ≡ g (count_of field kind l)
unfolding count_of has_kind
count_of_map field g kind [] h = cc
count_of_map field g kind (s ∷ l) h = elim (Bool-cases (s.kind == kind)) [
  | inl e ↦ rw e
  | inr e ↦ rw e (count_of_map field g kind l (rw e at h))
]

-- After a record of a type through `f`, which changes a counter by `g`.
count_of_record :
    (field : Stat → ℕ) (g : ℕ → ℕ) (kind other : ℕ) (f : Stat → Stat) (l : List Stat)
    → Keeps f
    → field (fresh kind) ≡ 0
    → ((s : Stat) → field (f s) ≡ g (field s))
    → count_of field other (update_first kind f (lookup_or_create true kind l))
      ≡ (if kind == other then g (count_of field other l) else count_of field other l)
count_of_record field g kind other f l keep z h =
    let l' = lookup_or_create true kind l in
    let present = has_kind-lookup_or_create kind l in
    let same = count_of-lookup_or_create field true kind other l z in
    count_of-update_first field kind other f l' keep ∙ elim (Bool-cases (kind == other)) [
      | inl q ↦
          let o = (==_iff kind other).0 q in
          rw (q, present, fun_ext h, count_of_map field g kind l' present, o) (ap g (rw o at same))
      | inr q ↦ rw q same
    ]

-- With memory at hand, `rfbStatRecordEncodingSent` adds one to the count of its encoding, modulo
-- 2 ^ 32, and leaves the counts of the others.
pub encoding_sent_counts :
    (c : Client) (kind other bytes raw : ℕ)
    → get_encoding_count_sent (encoding_sent true c kind bytes raw) other ≡ (
        if kind == other
        then u32 (get_encoding_count_sent c other + 1)
        else get_encoding_count_sent c other)
unfolding get_encoding_count_sent encoding_sent fresh
encoding_sent_counts c kind other bytes raw =
    count_of_record (λ s. s.sent_count) (λ n. u32 (n + 1)) kind other (count_sent bytes raw)
      c.enc_list (λ s. refl) refl (λ s. refl)

total : (Stat → ℕ) → List Stat → ℕ
total field [] = 0
total field (s ∷ l) = field s + total field l

sum_of_lem :
    (field : Stat → ℕ) (acc : ℕ) (l : List Stat)
    → acc < 2 ^ 32
    → sum_of field acc l ≡ u32 (acc + total field l)
unfolding sum_of total
sum_of_lem field acc [] h = omega arith
sum_of_lem field acc (s ∷ l) h =
    omega (arith, sum_of_lem field (u32 (acc + field s)) l (omega arith))

total_record :
    (field : Stat → ℕ) (n kind : ℕ) (f : Stat → Stat) (l : List Stat)
    → ((s : Stat) → field (f s) ≡ u32 (field s + n))
    → has_kind kind l ≡ true
    → u32 (total field (update_first kind f l)) ≡ u32 (total field l + n)
unfolding total update_first has_kind
total_record field n kind f [] h k = cc
total_record field n kind f (s ∷ l) h k = elim (Bool-cases (s.kind == kind)) [
  | inl e ↦ rw e (omega (arith, h s))
  | inr e ↦ rw e (omega (arith, total_record field n kind f l h (rw e at k)))
]

total-lookup_or_create :
    (field : Stat → ℕ) (room : Bool) (kind : ℕ) (l : List Stat)
    → field (fresh kind) ≡ 0
    → total field (lookup_or_create room kind l) ≡ total field l
unfolding lookup_or_create total
total-lookup_or_create field room kind l z = ground arith

-- With memory at hand, `rfbStatRecordEncodingSent` adds its bytes to what `rfbStatGetSentBytes`
-- returns, modulo 2 ^ 32.
pub encoding_sent_bytes :
    (c : Client) (kind bytes raw : ℕ)
    → get_sent_bytes (encoding_sent true c kind bytes raw) ≡ u32 (get_sent_bytes c + bytes)
unfolding get_sent_bytes encoding_sent fresh
encoding_sent_bytes c kind bytes raw =
    let field : Stat → ℕ = λ s. s.bytes_sent in
    let old = c.enc_list in
    let new = lookup_or_create true kind old in
    let before = sum_of field 0 c.msg_list in
    let f = count_sent bytes raw in
    let b = sum_of_lem field 0 c.msg_list (omega arith) in
    let small : before < 2 ^ 32 = omega (arith, b) in
    omega (
      arith,
      sum_of_lem field before old small,
      sum_of_lem field before (update_first kind f new) small,
      total_record field bytes kind f new (λ s. refl) (has_kind-lookup_or_create kind old),
      total-lookup_or_create field true kind old refl,
    )

-- No operation gives a type a second entry: recording keeps the types of a list distinct.
pub record-IsDistinct :
    (room : Bool) (c : Client) (kind bytes raw : ℕ)
    → IsDistinct c.enc_list
    → IsDistinct c.msg_list
    → IsDistinct (encoding_sent room c kind bytes raw).enc_list
      × IsDistinct (encoding_rcvd room c kind bytes raw).enc_list
      × IsDistinct (message_sent room c kind bytes raw).msg_list
      × IsDistinct (message_rcvd room c kind bytes raw).msg_list
unfolding encoding_sent encoding_rcvd message_sent message_rcvd
record-IsDistinct room c kind bytes raw e m =
    let e' = lookup_or_create-IsDistinct room kind c.enc_list e in
    let m' = lookup_or_create-IsDistinct room kind c.msg_list m in
    (
      update_first-IsDistinct kind (count_sent bytes raw) _ (λ s. refl) e',
      update_first-IsDistinct kind (count_rcvd bytes raw) _ (λ s. refl) e',
      update_first-IsDistinct kind (count_sent bytes raw) _ (λ s. refl) m',
      update_first-IsDistinct kind (count_rcvd bytes raw) _ (λ s. refl) m',
    )
