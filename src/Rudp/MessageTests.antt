-- ===== src/Rudp/MessageTests.antt =====
-- Runs of the message layer of internal/frpg/rudp, and its theorems at concrete inputs.
use dso.Base.{
  ℕ, zero, suc, ◌-◌, ◌<◌, Option, none, some, ◌+◌, ◌%◌, ◌≡◌, refl, arith, true, false, List, [],
  ◌∷◌, ◌++◌, map, inl, inr, length,
}
use dso.Rudp.Sequence.{max_ack_value}
use dso.Rudp.Session.{RecvItem, new_session}
use dso.Base.Result.{ok}
use dso.Rudp.Message.{
  Message, IsMessage, msg_push, push_index, encode_message, decode_message,
  decode_message-encode_message,
}
use dso.Rudp.Fragments.{
  idle, fragment, chunk, fragment_count, fragments_from, encode_fragments, push, push_body,
  append_body, start, push_all,
}
use dso.Rudp.Fragments.RoundTrip.{answers, push_all-encode_fragments}
use dso.Rudp.Session.Sending.{receive}
use dso.Rudp.Connection.{MessageConn, new_message_conn, send_message, recv, recv_loop}
use dso.Rudp.Connection.Receiving.{last_ack, recv-encode_fragments, recv-none_drained}
use dso.Rudp.Connection.Sending.{Queued, packets, send_message-Queued}
use dso.Rudp.Transport.{recv-feed_all}
use dso.Rudp.Delivery.{item, items_after, feed_all}
use dso.Rudp.Delivery.Stream.{Covers}
use dso.Rudp.Tests.{server, payloads, network, server-IsReady}

abbrev no_zlib : List ℕ → Option (List ℕ)
no_zlib b = none

abbrev repeat : ℕ → List ℕ
repeat zero = []
repeat (suc n) = 7 ∷ repeat n

-- A push of 912 bytes when encoded: two fragments.
abbrev long_push : Message
long_push = record {
  msg_type = msg_push;
  index = push_index;
  is_reply = false;
  payload = repeat 900;
  ack_seq = 0;
}

abbrev long_bytes : List ℕ
long_bytes = encode_message long_push

long_push-IsMessage : IsMessage long_push
long_push-IsMessage = record { type_ok = omega arith; index_ok = omega arith; reply_ok = refl }

decode_message-encode_message_example :
    decode_message (encode_message long_push) 5 ≡ ok (record long_push { ack_seq = 5 })
decode_message-encode_message_example =
    decode_message-encode_message long_push 5 long_push-IsMessage

long_fits : length (encode_message long_push) < 65536
unfolding encode_message
long_fits = omega arith

push_all-encode_fragments_example :
    push_all no_zlib (encode_fragments long_bytes 3) idle
    ≡ (idle, answers long_bytes (fragment_count long_bytes - 1))
push_all-encode_fragments_example =
    push_all-encode_fragments no_zlib long_bytes 3 long_fits idle refl

abbrev conn : MessageConn
conn = new_message_conn server

-- The peer's stream, whose numbers 4095 and 4096 carry the fragments.
abbrev fragment_stream : ℕ → List ℕ
fragment_stream n = fragment long_bytes 0 (n - 4095)

fragments_covered : Covers 4094 (length (encode_fragments long_bytes 0)) network
unfolding encode_fragments fragments_from fragment_count encode_message
fragments_covered = inr (inl (refl, inr (inl (refl, tt))))

fragments_carried :
    map RecvItem.bytes (items_after fragment_stream 4094 (length (encode_fragments long_bytes 0)))
    ≡ encode_fragments long_bytes 0
unfolding encode_fragments fragments_from fragment_count encode_message items_after item
fragments_carried = refl

fragment_count_two : fragment_count long_bytes ≡ 2
unfolding fragment_count encode_message
fragment_count_two = refl

recv-feed_all_example :
    (recv no_zlib (record conn { sess = feed_all fragment_stream network conn.sess })).1
    ≡ ok (
        some (record long_push {
          ack_seq = (4094 + length (encode_fragments long_bytes 0)) % max_ack_value;
        }))
unfolding server new_session new_message_conn
recv-feed_all_example =
    recv-feed_all no_zlib fragment_stream 4094 network conn long_push 0 long_push-IsMessage
      long_fits server-IsReady refl refl refl fragments_carried (omega arith) fragments_covered

two_items : List RecvItem
two_items = items_after fragment_stream 4094 2

two_items_carried : map RecvItem.bytes two_items ≡ encode_fragments long_bytes 0
unfolding two_items encode_fragments fragments_from fragment_count encode_message items_after item
two_items_carried = refl

abbrev ready_conn : MessageConn
ready_conn = new_message_conn (record server { received = two_items ++ item payloads 7 ∷ [] })

recv-encode_fragments_example :
    let (mc', answer) = recv no_zlib ready_conn in
    (answer ≡ ok (some (record long_push { ack_seq = last_ack two_items })))
    × (mc'.sess.received ≡ item payloads 7 ∷ [])
    × (mc'.reasm ≡ idle)
unfolding server new_session new_message_conn
recv-encode_fragments_example =
    recv-encode_fragments no_zlib long_push 0 two_items (item payloads 7 ∷ []) ready_conn
      long_push-IsMessage long_fits refl two_items_carried refl

-- Only the first of the two fragments has come.
abbrev half_conn : MessageConn
half_conn = new_message_conn (record server { received = item fragment_stream 4095 ∷ [] })

half_none : (recv no_zlib half_conn).1 ≡ ok none
unfolding recv recv_loop push push_body append_body start receive new_message_conn server
    new_session item fragment chunk encode_message
half_none = refl

recv-none_drained_example : (recv no_zlib half_conn).0.sess.received ≡ []
recv-none_drained_example = recv-none_drained no_zlib half_conn half_none

send_message-Queued_example :
    let frags = encode_fragments (encode_message long_push) 0 in
    Queued
      (4095 + length frags)
      (packets true 9 4095 frags)
      (record server { sequence_index = 4095 })
      (send_message long_push true 9
        (record conn { sess = record server { sequence_index = 4095 } })).sess
unfolding server new_session new_message_conn
send_message-Queued_example =
    send_message-Queued long_push true 9 4095
      (record conn { sess = record server { sequence_index = 4095 } }) refl refl
