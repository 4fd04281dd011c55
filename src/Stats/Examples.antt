-- ===== src/Stats/Examples.antt =====
-- The counters of libvncserver/stats.c on a client that has seen one encoding.
use libvncserver.Base.{◌+◌, true, [], ◌∷◌, ◌≡◌, refl, ◌==◌, if◌then◌else◌, some}
use libvncserver.Stats.{
  Client, u32, encoding_sent, encoding_rcvd, message_sent, message_rcvd, get_encoding_count_sent,
  get_sent_bytes, fresh,
}
use libvncserver.Stats.Laws.{
  IsDistinct, encoding_sent_counts, encoding_sent_bytes, record-IsDistinct,
}
use libvncserver.Stats.Names.{encoding_name}

abbrev seen : Client
seen = record { enc_list = fresh 7 ∷ fresh 0 ∷ []; msg_list = fresh 3 ∷ [] }

encoding_sent_counts_example :
    get_encoding_count_sent (encoding_sent true seen 7 100 200) 7
    ≡ (if 7 == 7 then u32 (get_encoding_count_sent seen 7 + 1) else get_encoding_count_sent seen 7)
encoding_sent_counts_example = encoding_sent_counts seen 7 7 100 200

encoding_sent_bytes_example :
    get_sent_bytes (encoding_sent true seen 7 100 200) ≡ u32 (get_sent_bytes seen + 100)
encoding_sent_bytes_example = encoding_sent_bytes seen 7 100 200

seen_encodings : IsDistinct seen.enc_list
unfolding fresh libvncserver.Stats.has_kind
seen_encodings = (refl, (refl, tt))

seen_messages : IsDistinct seen.msg_list
unfolding fresh libvncserver.Stats.has_kind
seen_messages = (refl, tt)

record-IsDistinct_example :
    IsDistinct (encoding_sent true seen 16 1 2).enc_list
    × IsDistinct (encoding_rcvd true seen 16 1 2).enc_list
    × IsDistinct (message_sent true seen 16 1 2).msg_list
    × IsDistinct (message_rcvd true seen 16 1 2).msg_list
record-IsDistinct_example = record-IsDistinct true seen 16 1 2 seen_encodings seen_messages

tight_name : encoding_name 7 ≡ some "tight"
unfolding encoding_name
tight_name = refl
