-- ===== src/Crypto/Tests.antt =====
-- The ciphers at concrete inputs. The block function of the examples is a rotation.
use dso.Base.{
  ℕ, ◌+◌, ◌*◌, ◌%◌, ◌<◌, ◌≤◌, ◌≡◌, refl, arith, true, false, none, some, List, [], ◌∷◌, ◌++◌,
  length, take, drop,
}
use dso.Base.Words.{at}
use dso.Base.Result.{ok, err}
use dso.Tcp.Framing
use dso.Tcp.Messaging.{Message, Stream, send, recv}
use dso.Crypto.Cwc.Hash.{
  finalize, fill_bytes, new_poly_hash, PolyHash, ablk_len, bit_127, update, swap_words, set_bytes,
  reduce, fold_127, has_bit_127,
}
use dso.Crypto.Cwc.HashLaws.{IsBlock, product, lost, prime_127, update-congruent}
use dso.Crypto.Cwc.Context.{
  absorb_loop, emit_full, flush, crypt, crypt_loop, xor_bytes, xor_prefix, xor_first, compute_tag,
  same_bytes, message_start, out_of_range, Context, Counter, init_message, absorb, be_inc_ctr,
  encrypt_message, decrypt_message,
}
use dso.Crypto.Cwc.Absorbing.{absorb-append}
use dso.Crypto.Cwc.KeyStream.{IsCounter, counter_value, be_inc_ctr_lem}
use dso.Crypto.Cwc.RoundTrip.{decrypt_message-encrypt_message, encrypt_message-decrypt_message}
use dso.Crypto.Frpg.Stream.{verified, tcp_encrypt, tcp_decrypt}
use dso.Crypto.Frpg.Datagram.{
  verified_with, ClientUdpCipher, client_seal, open_client_to_server, token_from_datagram,
}
use dso.Crypto.Frpg.Sealing.{tcp_decrypt-encrypt, tcp_encrypt-decrypt}
use dso.Crypto.Frpg.Tokens.{open_client_to_server-client_seal, client_seal-open_client_to_server}
use dso.Crypto.Frpg.Messages.{new_cwc_tcp, recv-send_cwc}

-- A block, a key and a running hash whose product has digits that overflow.
abbrev block_of_255 : List ℕ
block_of_255 = 255 ∷ 255 ∷ 255 ∷ 255 ∷ 255 ∷ 255 ∷ 255 ∷ 255 ∷ 254 ∷ 255 ∷ 255 ∷ 255 ∷ []

abbrev full_hash : PolyHash
full_hash = record { z = 170141183460469231731687303713736622079; h = bit_127 }

abbrev full_block : IsBlock block_of_255
full_block = record { twelve = refl; bytes = omega arith }

update-congruent_example :
    ((update block_of_255 full_hash).h ≤ bit_127)
    × ((k : ℕ) × (product block_of_255 full_hash
          ≡ (update block_of_255 full_hash).h
            + lost (product block_of_255 full_hash)
            + k * prime_127))
update-congruent_example =
    update-congruent block_of_255 full_hash full_block (omega arith) (omega arith)

-- The carry is lost here: the new hash is 2 less than what is congruent to the product.
carry_is_lost :
    ((update block_of_255 full_hash).h ≡ 2147483645)
    × (lost (product block_of_255 full_hash) ≡ 2)
    × (product block_of_255 full_hash % prime_127 ≡ 2147483647)
unfolding update reduce fold_127 has_bit_127 swap_words set_bytes lost
carry_is_lost = (refl, refl, refl)

abbrev key_context : Context
key_context = record { block = λ b. drop 3 b ++ take 3 b; z = 123456789 }

abbrev iv : List ℕ
iv = 1 ∷ 2 ∷ 3 ∷ 4 ∷ 5 ∷ 6 ∷ 7 ∷ 8 ∷ 9 ∷ 10 ∷ 11 ∷ []

abbrev token : List ℕ
token = 21 ∷ 22 ∷ 23 ∷ 24 ∷ 25 ∷ 26 ∷ 27 ∷ 28 ∷ []

abbrev text : List ℕ
text = 72 ∷ 101 ∷ 108 ∷ 108 ∷ 111 ∷ []

decrypt_message-encrypt_message_example :
    (ct : List ℕ) × (tag : List ℕ) × (encrypt_message key_context iv iv text 16 ≡ ok (ct, tag))
    × (length ct ≡ 5)
    × (length tag ≡ 16)
    × (decrypt_message key_context iv iv ct tag ≡ ok (some text))
decrypt_message-encrypt_message_example =
    decrypt_message-encrypt_message key_context iv iv text 16 (omega arith) (omega arith)

abbrev sealed_text : List ℕ
sealed_text = 75 ∷ 97 ∷ 105 ∷ 106 ∷ 104 ∷ []

abbrev tag_of_text : List ℕ
tag_of_text =
    151 ∷ 249 ∷ 132 ∷ 158 ∷ 33 ∷ 66 ∷ 36 ∷ 3 ∷ 184 ∷ 144 ∷ 87 ∷ 173 ∷ 252 ∷ 236 ∷ 86 ∷ 210 ∷ []

decrypts : decrypt_message key_context iv iv sealed_text tag_of_text ≡ ok (some text)
unfolding decrypt_message init_message message_start absorb absorb_loop emit_full flush crypt
    crypt_loop be_inc_ctr xor_bytes xor_prefix xor_first compute_tag same_bytes update reduce
    fold_127 has_bit_127 swap_words set_bytes finalize fill_bytes new_poly_hash
decrypts = refl

encrypt_message-decrypt_message_example :
    encrypt_message key_context iv iv text (length tag_of_text) ≡ ok (sealed_text, tag_of_text)
encrypt_message-decrypt_message_example =
    encrypt_message-decrypt_message key_context iv iv sealed_text tag_of_text text decrypts

-- A short iv and a long tag panic.
panics :
    (encrypt_message key_context text iv text 16 ≡ err out_of_range)
    × (encrypt_message key_context iv iv [] 17 ≡ err out_of_range)
unfolding encrypt_message init_message compute_tag xor_prefix
panics = (refl, refl)

absorb-append_example :
    (absorb (text ++ iv) (message_start key_context iv)
      ≡ absorb iv (absorb text (message_start key_context iv)))
    × (length (absorb text (message_start key_context iv)).buf < ablk_len)
absorb-append_example =
    absorb-append text iv (message_start key_context iv) (unfold message_start in omega arith)

abbrev carrying : Counter
carrying = record { nonce = iv; b12 = 0; b13 = 7; b14 = 255; b15 = 255 }

be_inc_ctr_lem_example :
    (counter_value (be_inc_ctr carrying) ≡ (counter_value carrying + 1) % 4294967296)
    × IsCounter (be_inc_ctr carrying)
    × ((be_inc_ctr carrying).nonce ≡ iv)
be_inc_ctr_lem_example = be_inc_ctr_lem carrying (record {
  byte_12 = omega arith;
  byte_13 = omega arith;
  byte_14 = omega arith;
  byte_15 = omega arith;
})

tcp_decrypt-encrypt_example :
    (d : List ℕ) × (tcp_encrypt key_context (some iv) text ≡ ok d)
    × (length d ≡ 32)
    × (tcp_decrypt key_context d ≡ ok text)
tcp_decrypt-encrypt_example = tcp_decrypt-encrypt key_context iv text refl

-- The packet of this text, byte by byte.
abbrev packet : List ℕ
packet =
    1 ∷ 2 ∷ 3 ∷ 4 ∷ 5 ∷ 6 ∷ 7 ∷ 8 ∷ 9 ∷ 10 ∷ 11 ∷ 151 ∷ 249 ∷ 132 ∷ 158 ∷ 33 ∷ 66 ∷ 36 ∷ 3 ∷ 184
    ∷ 144 ∷ 87 ∷ 173 ∷ 252 ∷ 236 ∷ 86 ∷ 210 ∷ 75 ∷ 97 ∷ 105 ∷ 106 ∷ 104 ∷ []

opens : tcp_decrypt key_context packet ≡ ok text
unfolding decrypt_message init_message message_start absorb absorb_loop emit_full flush crypt
    crypt_loop be_inc_ctr xor_bytes xor_prefix xor_first compute_tag same_bytes update reduce
    fold_127 has_bit_127 swap_words set_bytes finalize fill_bytes new_poly_hash tcp_decrypt verified
opens = refl

tcp_encrypt-decrypt_example :
    (28 ≤ length packet) × (tcp_encrypt key_context (some (take 11 packet)) text ≡ ok packet)
tcp_encrypt-decrypt_example = tcp_encrypt-decrypt key_context packet text opens

abbrev client : ClientUdpCipher
client = record { ctx = key_context; token = token }

open_client_to_server-client_seal_example :
    (d : List ℕ) × (client_seal client (some iv) text true ≡ ok d)
    × (length d ≡ 41)
    × (token_from_datagram d ≡ some token)
    × (open_client_to_server key_context d ≡ ok (text, true))
open_client_to_server-client_seal_example =
    open_client_to_server-client_seal client iv text true refl refl

-- The datagram of this text, byte by byte.
abbrev datagram_of_text : List ℕ
datagram_of_text =
    21 ∷ 22 ∷ 23 ∷ 24 ∷ 25 ∷ 26 ∷ 27 ∷ 28 ∷ 1 ∷ 2 ∷ 3 ∷ 4 ∷ 5 ∷ 6 ∷ 7 ∷ 8 ∷ 9 ∷ 10 ∷ 11 ∷ 252 ∷ 186
    ∷ 43 ∷ 4 ∷ 222 ∷ 102 ∷ 47 ∷ 13 ∷ 113 ∷ 92 ∷ 101 ∷ 43 ∷ 47 ∷ 187 ∷ 41 ∷ 210 ∷ 1 ∷ 75 ∷ 97 ∷ 105
    ∷ 106 ∷ 104 ∷ []

server_opens : open_client_to_server key_context datagram_of_text ≡ ok (text, true)
unfolding decrypt_message init_message message_start absorb absorb_loop emit_full flush crypt
    crypt_loop be_inc_ctr xor_bytes xor_prefix xor_first compute_tag same_bytes update reduce
    fold_127 has_bit_127 swap_words set_bytes finalize fill_bytes new_poly_hash
    open_client_to_server verified_with
server_opens = refl

client_seal-open_client_to_server_example :
    (37 ≤ length datagram_of_text)
    × (token_from_datagram datagram_of_text ≡ some token)
    × (1 ≡ at datagram_of_text 35)
    × (client_seal client (some iv) text true ≡ ok datagram_of_text)
client_seal-open_client_to_server_example =
    client_seal-open_client_to_server key_context datagram_of_text text true server_opens
      (omega arith)

abbrev socket : List ℕ → Framing.Stream
socket input = record { input = input; output = []; sent = 65535; write_fails = λ out. false }

abbrev login : Message
login = record { msg_type = 5; index = 3; payload = text }

abbrev auth_client : Stream
auth_client = record { pkt = socket []; enc = some (new_cwc_tcp key_context (some iv)); dec = none }

abbrev auth_server : Stream
auth_server = record {
  pkt = socket ((send login auth_client).0.pkt.output ++ 6 ∷ []);
  enc = none;
  dec = some (new_cwc_tcp key_context none);
}

recv-send_cwc_example :
    ((send login auth_client).1 ≡ ok tt)
    × (recv auth_server ≡ (record auth_server { pkt = socket (6 ∷ []) }, ok login))
recv-send_cwc_example =
    recv-send_cwc key_context iv (6 ∷ []) none login auth_client auth_server refl
      (record { type_ok = omega arith; index_ok = omega arith }) (omega arith) (omega arith) refl
      refl refl (λ out. refl) refl
