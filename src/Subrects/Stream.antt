-- ===== src/Subrects/Stream.antt =====
-- What `rfbSendRectEncodingRRE` of libvncserver/rre.c puts on its socket.
use libvncserver.Base.{
  ℕ, zero, suc, ◌+◌, ◌-◌, ◌*◌, ◌≤◌, ◌<◌, ◌==◌, ltb, if◌then◌else◌, ◌≡◌, refl, arith, ◌∙◌, List, [],
  ◌∷◌, ◌++◌, none, some, Option-cases, Bool-cases, inl, inr, length, take, drop, sym, ap, subst,
  length-append, length-drop, length-take-le, append-take-drop,
}
use mathlib.Core.List.{append_assoc, append-nil}
use libvncserver.Subrects.Image.{Subrect}
use libvncserver.Subrects.Send.{
  update_buf_size, Sender, Sent, sent, refused, stuck, proceed, Calls, Layout, send_update_buf,
  copy_round, copy_loop, put_rect_header, put_headers, after_enc_buf, send_encoded,
}
use libvncserver.Base.Bytes.{put_16, put_32, put_le}
use libvncserver.Stats.{encoding_sent}
use libvncserver.Subrects.Wire.{put_body, put_subrects}

-- The bytes of a rectangle with its header.
abbrev pub message : Layout → ℕ → ℕ → ℕ → ℕ → ℕ → List Subrect → List ℕ
message l x y w h bg subs = put_rect_header x y w h l.encoding ++ put_body l.put l.pixel bg subs

message_parts :
    (l : Layout) (x y w h bg : ℕ) (subs : List Subrect)
    → put_headers l x y w h (length subs) ++ after_enc_buf l bg subs ≡ message l x y w h bg subs
unfolding put_headers after_enc_buf put_body
message_parts l x y w h bg subs =
    append_assoc (put_rect_header x y w h l.encoding) (put_32 (length subs))
      (put_le l.pixel bg ++ put_subrects l.put l.pixel subs)

length-put_headers : (l : Layout) (x y w h n : ℕ) → length (put_headers l x y w h n) ≡ 16
unfolding put_headers put_rect_header put_16 put_32
length-put_headers l x y w h n = refl

-- A write that succeeds appends its bytes to what was written.
module _ {W : Type 0} (c : Calls W) (written : W → List ℕ)
    (write_law : (bytes : List ℕ) (w w' : W)
      → c.write bytes w ≡ some w'
      → written w' ≡ written w ++ bytes) where
  -- What was written, and what waits in the buffer.
  abbrev pub stream : Sender W → List ℕ
  stream s = written s.world ++ s.update_buf

  -- The buffer does not overflow.
  abbrev pub HasRoom : Sender W → Type 0
  HasRoom s = length s.update_buf ≤ update_buf_size

  -- The routine ends: where it returns `TRUE` it has appended the bytes to the stream, and it returns
  -- `FALSE` only where the socket did not take the buffer.
  abbrev pub Delivers : Sender W → List ℕ → Sent W → Type 0
  Delivers s bytes (sent s') = (stream s' ≡ stream s ++ bytes) × HasRoom s'
  Delivers s bytes (refused s') = c.write s'.update_buf s'.world ≡ none
  Delivers s bytes stuck = ⊥

  -- A full buffer takes a round more.
  abbrev full : Sender W → ℕ
  full s = if length s.update_buf == update_buf_size then 1 else 0

  -- After a round that returns `TRUE` there is room for a byte.
  abbrev Flushed : Sender W → List ℕ → Sent W → Type 0
  Flushed s bytes (sent s') =
      (stream s' ≡ stream s ++ bytes) × (length s'.update_buf < update_buf_size)
  Flushed s bytes (refused s') = c.write s'.update_buf s'.world ≡ none
  Flushed s bytes stuck = ⊥

  send_update_buf-Flushed : (s : Sender W) → Flushed s [] (send_update_buf c s)
  unfolding send_update_buf
  send_update_buf-Flushed s = elim (Option-cases (c.write s.update_buf s.world)) [
    | inl e ↦ rw (send_update_buf, e) e
    | inr (w, e) ↦
        rw (send_update_buf, e)
          (
            append-nil (written w)
                ∙ write_law s.update_buf s.world w e
                ∙ sym (append-nil (stream s)),
            omega arith,
          )
  ]

  -- Bytes that were put into the buffer before.
  Flushed-behind :
      (s s' : Sender W) (bytes : List ℕ) (r : Sent W)
      → stream s' ≡ stream s ++ bytes
      → Flushed s' [] r
      → Flushed s bytes r
  Flushed-behind s s' bytes (sent t) e f = (f.0 ∙ append-nil (stream s') ∙ e, f.1)
  Flushed-behind s s' bytes (refused t) e f = f
  Flushed-behind s s' bytes stuck e f = f

  copy_round-Flushed :
      (bytes : List ℕ) (s : Sender W)
      → HasRoom s
      → Flushed s (take (update_buf_size - length s.update_buf) bytes) (copy_round c bytes s)
  unfolding copy_round
  copy_round-Flushed bytes s h =
      let part = take (update_buf_size - length s.update_buf) bytes in
      let s' : Sender W = record s { update_buf = s.update_buf ++ part } in
      let put : stream s' ≡ stream s ++ part =
        sym (append_assoc (written s.world) s.update_buf part) in
      let size = length-append s.update_buf part in
      let some_part = length-take-le (update_buf_size - length s.update_buf) bytes in
      elim (Bool-cases (length s'.update_buf == update_buf_size)) [
        | inl t ↦
            rw (copy_round, t)
              (Flushed-behind s s' part (send_update_buf c s') put (send_update_buf-Flushed s'))
        | inr t ↦
            let room : length s'.update_buf ≤ update_buf_size = omega arith in
            rw (copy_round, t) (put, ground arith)
      ]

  Delivers-behind :
      (s s' : Sender W) (a b : List ℕ) (r : Sent W)
      → stream s' ≡ stream s ++ a
      → Delivers s' b r
      → Delivers s (a ++ b) r
  Delivers-behind s s' a b (sent t) e d =
      (d.0 ∙ ap (λ l. l ++ b) e ∙ append_assoc (stream s) a b, d.1)
  Delivers-behind s s' a b (refused t) e d = d
  Delivers-behind s s' a b stuck e d = d

  proceed-Delivers :
      (s : Sender W) (a b : List ℕ) (r : Sent W) (f : Sender W → Sent W)
      → Flushed s a r
      → ((s' : Sender W) → length s'.update_buf < update_buf_size → Delivers s' b (f s'))
      → Delivers s (a ++ b) (proceed r f)
  unfolding proceed
  proceed-Delivers s a b (sent s') f p q = Delivers-behind s s' a b (f s') p.0 (q s' p.1)
  proceed-Delivers s a b (refused s') f p q = p
  proceed-Delivers s a b stuck f p q = p

  -- The loop ends with as many rounds as there are bytes, and one for a buffer that is full.
  copy_loop-Delivers :
      (fuel : ℕ) (bytes : List ℕ) (s : Sender W)
      → HasRoom s
      → length bytes + full s ≤ fuel
      → Delivers s bytes (copy_loop c fuel bytes s)
  unfolding copy_loop
  copy_loop-Delivers zero [] s h n = (sym (append-nil (stream s)), h)
  copy_loop-Delivers (suc fuel) [] s h n = (sym (append-nil (stream s)), h)
  copy_loop-Delivers zero (b ∷ bytes) s h n = absurd (omega (arith, n))
  copy_loop-Delivers (suc fuel) (b ∷ bytes) s h n =
      let room = update_buf_size - length s.update_buf in
      let rest = drop room (b ∷ bytes) in
      let less = length-drop room (b ∷ bytes) in
      subst (λ l. Delivers s l (copy_loop c (suc fuel) (b ∷ bytes) s))
        (append-take-drop room (b ∷ bytes))
        (proceed-Delivers s (take room (b ∷ bytes)) rest (copy_round c (b ∷ bytes) s)
          (copy_loop c fuel rest) (copy_round-Flushed (b ∷ bytes) s h)
          (λ s' k. copy_loop-Delivers fuel rest s' (omega (arith, k)) (ground (arith, k, n, less))))

  -- The test in front of the headers leaves room for them.
  Roomy : Sender W → Sent W → Type 0
  Roomy s (sent s') = (stream s' ≡ stream s) × (length s'.update_buf + 16 ≤ update_buf_size)
  Roomy s (refused s') = c.write s'.update_buf s'.world ≡ none
  Roomy s stuck = ⊥

  emptied : (s : Sender W) → Roomy s (send_update_buf c s)
  unfolding send_update_buf Roomy
  emptied s = elim (Option-cases (c.write s.update_buf s.world)) [
    | inl e ↦ rw (send_update_buf, e) e
    | inr (w, e) ↦
        rw (send_update_buf, e)
          (append-nil (written w) ∙ write_law s.update_buf s.world w e, omega arith)
  ]

  make_room :
      (s : Sender W)
      → Roomy s (
          if ltb update_buf_size (length s.update_buf + 12 + 4)
          then send_update_buf c s
          else sent s)
  unfolding Roomy
  make_room s = elim (Bool-cases (ltb update_buf_size (length s.update_buf + 12 + 4))) [
    | inl t ↦ rw t (emptied s)
    | inr t ↦ rw t (refl, ground arith)
  ]

  pub Delivers-same :
      (s s' : Sender W) (bytes : List ℕ) (r : Sent W)
      → stream s' ≡ stream s
      → Delivers s bytes r
      → Delivers s' bytes r
  Delivers-same s s' bytes (sent t) e d = (d.0 ∙ ap (λ l. l ++ bytes) (sym e), d.1)
  Delivers-same s s' bytes (refused t) e d = d
  Delivers-same s s' bytes stuck e d = d

  with_headers :
      (s : Sender W) (a b : List ℕ) (r : Sent W)
      → Roomy s r
      → length a ≡ 16
      → Delivers s (a ++ b) (
          proceed r
            (λ s'. copy_loop c (length b + 1) b (record s' { update_buf = s'.update_buf ++ a })))
  unfolding proceed Roomy
  with_headers s a b (sent s') p e =
      let s1 : Sender W = record s' { update_buf = s'.update_buf ++ a } in
      let put : stream s1 ≡ stream s ++ a =
        sym (append_assoc (written s'.world) s'.update_buf a) ∙ ap (λ l. l ++ a) p.0 in
      let size = length-append s'.update_buf a in
      let room : HasRoom s1 = omega (arith, size, e, p.1) in
      Delivers-behind s s1 a b (copy_loop c (length b + 1) b s1) put
        (copy_loop-Delivers (length b + 1) b s1 room (ground arith))
  with_headers s a b (refused s') p e = p
  with_headers s a b stuck p e = p

  pub send_encoded-Delivers :
      (l : Layout) (x y w h bg : ℕ) (subs : List Subrect) (s : Sender W)
      → Delivers s (message l x y w h bg subs) (send_encoded c l x y w h bg subs s)
  unfolding send_encoded
  send_encoded-Delivers l x y w h bg subs s =
      let bytes = after_enc_buf l bg subs in
      let counted : Sender W = record s {
        stats =
            encoding_sent c.stat_room s.stats l.encoding (12 + 4 + length bytes)
              (12 + w * h * l.pixel);
      } in
      let head = put_headers l x y w h (length subs) in
      let room =
        if ltb update_buf_size (length s.update_buf + 12 + 4)
        then send_update_buf c counted
        else sent counted in
      subst (λ m. Delivers s m (send_encoded c l x y w h bg subs s))
        (message_parts l x y w h bg subs)
        (Delivers-same counted s (head ++ bytes) (send_encoded c l x y w h bg subs s) refl (
          with_headers counted head bytes room (make_room counted)
            (length-put_headers l x y w h (length subs))))
