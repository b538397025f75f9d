-- ===== src/Rudp/Connection.antt =====
-- internal/frpg/rudp/message.go: MessageConn, whole messages over a session.
pub mod Receiving
pub mod Sending
use dso.Base.{
  ℕ, zero, suc, ◌+◌, ◌%◌, Bool, true, false, ◌&&◌, if◌then◌else◌, Option, none, some, List, [], ◌∷◌,
  length,
}
use dso.Base.Words.{u16, u32}
use dso.Base.Result.{Result, ok, err}
use dso.Rudp.Session.{Session, RecvItem}
use dso.Rudp.Session.Sending.{receive, send_data, send_data_ack}
use dso.Rudp.Message.{
  Message, MessageError, msg_reply, msg_push, push_index, encode_message, decode_message,
}
use dso.Rudp.Fragments.{Reassembler, FragmentError, idle, encode_fragments, push}

pub record MessageConn : Type 0 where
  pub sess : Session
  pub reasm : Reassembler
  pub counter : ℕ
  pub next_idx : ℕ

unfoldable pub new_message_conn : Session → MessageConn
new_message_conn sess = record { sess = sess; reasm = idle; counter = 0; next_idx = 0 }

unfoldable pub send_plain : List (List ℕ) → Session → Session
send_plain [] s = s
send_plain (f ∷ fs) s = send_plain fs (send_data f s)

-- The loop over the fragments: the first one of a reply is a DAT_ACK.
unfoldable pub send_fragments : Bool → ℕ → List (List ℕ) → Session → Session
unfolding send_plain
send_fragments reply ack_seq [] s = s
send_fragments reply ack_seq (f ∷ fs) s =
    send_plain fs (if reply then send_data_ack f ack_seq s else send_data f s)

unfoldable pub send_message : Message → Bool → ℕ → MessageConn → MessageConn
send_message m reply ack_seq mc = record mc {
  sess = send_fragments reply ack_seq (encode_fragments (encode_message m) mc.counter) mc.sess;
  counter = u16 (mc.counter + 1);
}

unfoldable pub send_request : ℕ → List ℕ → MessageConn → MessageConn
send_request msg_type payload mc =
    let mc' = record mc { next_idx = u32 (mc.next_idx + 1) } in
    let m : Message = record {
      msg_type = msg_type;
      index = mc'.next_idx;
      is_reply = false;
      payload = payload;
      ack_seq = 0;
    } in
    send_message m false 0 mc'

unfoldable pub send_reply : Message → List ℕ → MessageConn → MessageConn
send_reply in_reply_to payload mc =
    let m : Message = record {
      msg_type = msg_reply;
      index = in_reply_to.index;
      is_reply = true;
      payload = payload;
      ack_seq = 0;
    } in
    send_message m true in_reply_to.ack_seq mc

unfoldable pub send_push : List ℕ → MessageConn → MessageConn
send_push payload mc =
    let m : Message = record {
      msg_type = msg_push;
      index = push_index;
      is_reply = false;
      payload = payload;
      ack_seq = 0;
    } in
    send_message m false 0 mc

pub data ConnError : Type 0 where
  bad_fragment : FragmentError → ConnError
  bad_message : MessageError → ConnError

-- What Recv returns: an error, no message ready, or a message.
abbrev pub Incoming : Type 0
Incoming = Result ConnError (Option Message)

abbrev pub finish : Result MessageError Message → Incoming
finish (ok m) = ok (some m)
finish (err e) = err (bad_message e)

module _ (inflate : List ℕ → Option (List ℕ)) where
  -- The loop of Recv, on fuel; each round takes one payload from the session.
  unfoldable pub recv_loop : ℕ → MessageConn → MessageConn × Incoming
  recv_loop zero mc = (mc, ok none)
  recv_loop (suc fuel) mc = elim mc.sess.received [
    | [] ↦ (mc, ok none)
    | item ∷ rest ↦
        let pushed = push inflate item.bytes mc.reasm in
        let mc' = record mc { sess = (receive mc.sess).0; reasm = pushed.0 } in
        elim pushed.1 [
          | err e ↦ (mc', err (bad_fragment e))
          | ok answer ↦ elim answer [
            | none ↦ recv_loop fuel mc'
            | some payload ↦ (mc', finish (decode_message payload item.ack_seq))
          ]
        ]
  ]

  -- The session hands out as many payloads as are received; a last round finds none.
  unfoldable pub recv : MessageConn → MessageConn × Incoming
  recv mc = recv_loop (suc (length mc.sess.received)) mc
