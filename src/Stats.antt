-- ===== src/Stats.antt =====
-- libvncserver/stats.c: the traffic counters of a client.
pub mod Names
pub mod Examples
pub mod Laws
use libvncserver.Base.{
  ℕ, ◌+◌, ◌%◌, ◌^◌, Bool, true, false, List, [], ◌∷◌, if◌then◌else◌, ◌==◌, Option, none, some,
}

-- `rfbStatList` without its link; the numbers are `uint32_t`.
pub record Stat : Type 0 where
  pub kind : ℕ
  pub sent_count : ℕ
  pub bytes_sent : ℕ
  pub bytes_sent_if_raw : ℕ
  pub rcvd_count : ℕ
  pub bytes_rcvd : ℕ
  pub bytes_rcvd_if_raw : ℕ

-- The two lists of a client; the others of its fields are not used here.
pub record Client : Type 0 where
  pub enc_list : List Stat
  pub msg_list : List Stat

abbrev pub u32 : ℕ → ℕ
u32 n = n % 2 ^ 32

-- What `memset` and the assignment of `type` make.
pub fresh : ℕ → Stat
fresh kind = record {
  kind = kind;
  sent_count = 0;
  bytes_sent = 0;
  bytes_sent_if_raw = 0;
  rcvd_count = 0;
  bytes_rcvd = 0;
  bytes_rcvd_if_raw = 0;
}

pub has_kind : ℕ → List Stat → Bool
has_kind kind [] = false
has_kind kind (s ∷ l) = if s.kind == kind then true else has_kind kind l

-- The first entry of a type, changed in place through the pointer that a lookup returns.
pub update_first : ℕ → (Stat → Stat) → List Stat → List Stat
update_first kind f [] = []
update_first kind f (s ∷ l) = if s.kind == kind then f s ∷ l else s ∷ update_first kind f l

-- `rfbStatLookupEncoding` and `rfbStatLookupMessage` leave a list with an entry of the type, made in
-- front where there is none. `room` says whether `malloc` gives memory, if it is called.
pub lookup_or_create : Bool → ℕ → List Stat → List Stat
unfolding fresh has_kind
lookup_or_create room kind l = if has_kind kind l then l else if room then fresh kind ∷ l else l

module _ (room : Bool) (c : Client) (kind : ℕ) where
  pub lookup_encoding : Client
  unfolding lookup_or_create
  lookup_encoding = record c { enc_list = lookup_or_create room kind c.enc_list }

  pub lookup_message : Client
  unfolding lookup_or_create
  lookup_message = record c { msg_list = lookup_or_create room kind c.msg_list }

-- The three updates through the pointer. A byte count is an `int`, added modulo 2 ^ 32.
pub add_sent : ℕ → Stat → Stat
add_sent bytes s = record s { bytes_sent = u32 (s.bytes_sent + bytes) }

pub count_sent : ℕ → ℕ → Stat → Stat
count_sent bytes raw s = record s {
  sent_count = u32 (s.sent_count + 1);
  bytes_sent = u32 (s.bytes_sent + bytes);
  bytes_sent_if_raw = u32 (s.bytes_sent_if_raw + raw);
}

pub count_rcvd : ℕ → ℕ → Stat → Stat
count_rcvd bytes raw s = record s {
  rcvd_count = u32 (s.rcvd_count + 1);
  bytes_rcvd = u32 (s.bytes_rcvd + bytes);
  bytes_rcvd_if_raw = u32 (s.bytes_rcvd_if_raw + raw);
}

module _ (room : Bool) (c : Client) (kind : ℕ) where
  -- `rfbStatRecordEncodingSentAdd`
  pub encoding_sent_add : ℕ → Client
  unfolding lookup_encoding update_first add_sent
  encoding_sent_add bytes =
      let c' = lookup_encoding room c kind in
      record c' { enc_list = update_first kind (add_sent bytes) c'.enc_list }

  pub encoding_sent : ℕ → ℕ → Client
  unfolding lookup_encoding update_first count_sent
  encoding_sent bytes raw =
      let c' = lookup_encoding room c kind in
      record c' { enc_list = update_first kind (count_sent bytes raw) c'.enc_list }

  pub encoding_rcvd : ℕ → ℕ → Client
  unfolding lookup_encoding update_first count_rcvd
  encoding_rcvd bytes raw =
      let c' = lookup_encoding room c kind in
      record c' { enc_list = update_first kind (count_rcvd bytes raw) c'.enc_list }

  pub message_sent : ℕ → ℕ → Client
  unfolding lookup_message update_first count_sent
  message_sent bytes raw =
      let c' = lookup_message room c kind in
      record c' { msg_list = update_first kind (count_sent bytes raw) c'.msg_list }

  pub message_rcvd : ℕ → ℕ → Client
  unfolding lookup_message update_first count_rcvd
  message_rcvd bytes raw =
      let c' = lookup_message room c kind in
      record c' { msg_list = update_first kind (count_rcvd bytes raw) c'.msg_list }

-- A loop `bytes += ptr->field`: the sum is an `int`, so its bits are those modulo 2 ^ 32.
pub sum_of : (Stat → ℕ) → ℕ → List Stat → ℕ
sum_of field acc [] = acc
sum_of field acc (s ∷ l) = sum_of field (u32 (acc + field s)) l

module _ (c : Client) where
  pub get_sent_bytes : ℕ
  unfolding sum_of
  get_sent_bytes = sum_of (λ s. s.bytes_sent) (sum_of (λ s. s.bytes_sent) 0 c.msg_list) c.enc_list

  pub get_sent_bytes_if_raw : ℕ
  unfolding sum_of
  get_sent_bytes_if_raw =
      sum_of (λ s. s.bytes_sent_if_raw) (sum_of (λ s. s.bytes_sent_if_raw) 0 c.msg_list) c.enc_list

  pub get_rcvd_bytes : ℕ
  unfolding sum_of
  get_rcvd_bytes = sum_of (λ s. s.bytes_rcvd) (sum_of (λ s. s.bytes_rcvd) 0 c.msg_list) c.enc_list

  pub get_rcvd_bytes_if_raw : ℕ
  unfolding sum_of
  get_rcvd_bytes_if_raw =
      sum_of (λ s. s.bytes_rcvd_if_raw) (sum_of (λ s. s.bytes_rcvd_if_raw) 0 c.msg_list) c.enc_list

-- A loop that returns a counter of the first entry of a type, or 0.
pub count_of : (Stat → ℕ) → ℕ → List Stat → ℕ
count_of field kind [] = 0
count_of field kind (s ∷ l) = if s.kind == kind then field s else count_of field kind l

module _ (c : Client) (kind : ℕ) where
  pub get_message_count_sent : ℕ
  unfolding count_of
  get_message_count_sent = count_of (λ s. s.sent_count) kind c.msg_list

  pub get_message_count_rcvd : ℕ
  unfolding count_of
  get_message_count_rcvd = count_of (λ s. s.rcvd_count) kind c.msg_list

  pub get_encoding_count_sent : ℕ
  unfolding count_of
  get_encoding_count_sent = count_of (λ s. s.sent_count) kind c.enc_list

  pub get_encoding_count_rcvd : ℕ
  unfolding count_of
  get_encoding_count_rcvd = count_of (λ s. s.rcvd_count) kind c.enc_list

-- `rfbResetStats` frees both lists.
pub reset_stats : Client → Client
reset_stats c = record { enc_list = []; msg_list = [] }
