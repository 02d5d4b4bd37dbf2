-- ===== src/Tests/Conversations.antt =====
-- A text that is sent by the command of one machine and received by that of another.
use go_ratchet.Prelude.{
  ◌≡◌, refl, sym, ap, Option, some, none, [], ◌∷◌, Result, ok, err, panic, Bytes, bytes_eq,
  replicate, IsBytes,
}
use mathlib.Core.Path.{subst}
use go_ratchet.Prelude.Maps.{lookup}
use go_ratchet.DoubleRatchet.Ratchet.{DoubleRatchet, encrypt_message, decrypt_message}
use go_ratchet.DoubleRatchet.Ratchet.Conversing.{heard}
use go_ratchet.Xochimilco.Session.{Session}
use go_ratchet.Disk.{pos, DiskSession, zero_disk_session, zero_session}
use go_ratchet.Disk.Manager.{DiskSessionManager, get_session, put_session, set_position}
use go_ratchet.Disk.Manager.Stored.{no_faults}
use go_ratchet.Xochimilco.Base64.{encode, encode_digit}
use go_ratchet.Xochimilco.Session.Persist.{
  marshal_ratchet_of, marshal_session, unmarshal_session, load_double_ratchet,
}
use go_ratchet.Disk.Marshal.{marshal_disk_session}
use go_ratchet.Prelude.Maps.{assign, assign_all}
use go_ratchet.Disk.{
  unmarshal_disk_session, load_disk_session, embedded, load_peer_key, set_peer_key,
}
use go_ratchet.Disk.Manager.{
  load_manager, new_session_manager, session_hash, load_content, is_weak, load_bytes, checked,
}
use go_ratchet.DoubleRatchet.Persist.{
  chains, decode_elements, load_dh_ratchet, load_key_buffer, load_ratchet, marshal_dh_ratchet,
  marshal_element, marshal_elements, marshal_key_buffer, marshal_ratchet, restore, set_current,
  unmarshal_dh_ratchet, unmarshal_element, unmarshal_elements, unmarshal_key_buffer,
  unmarshal_ratchet,
}
use go_ratchet.Crypto.{read_full}
use go_ratchet.DoubleRatchet.Pkcs7.{pkcs7_pad}
use go_ratchet.DoubleRatchet.Header.{marshal, parse_header}
use go_ratchet.DoubleRatchet.Primitives.{
  encrypt, encrypt_params, derive_params, new_cipher, chain_kdf,
}
use go_ratchet.DoubleRatchet.Ratchet.{
  message_key_for, current_key, next_recv_key, when, next_send_key, take_header,
}
use go_ratchet.Disk.Manager.{by_name, create_file, write_file}
use go_ratchet.Client.Delivery.{CanReach, Holds, renewed}
use go_ratchet.Cli.{manager, cli_send, cli_recv}
use go_ratchet.Cli.Sending.{send_prints}
use go_ratchet.Cli.Conversation.{client_of, send_recv}
use go_ratchet.Tests.Toy.{toy, toy_laws, are_bytes-IsBytes}
use go_ratchet.Tests.Ratchets.{sample, text}
use go_ratchet.Tests.Talks.{listener, speaker, value}
use go_ratchet.Tests.Libraries.{toy_libraries}
use go_ratchet.Tests.Clients.{salty}
use go_ratchet.Tests.Machines.{
  conditions, first, second, loaded, first-CanCall, second-CanCall, again, again-CanSay,
}

abbrev session_in : Result DiskSession → DiskSession
session_in (ok s) = s
session_in (err e) = zero_disk_session
session_in panic = zero_disk_session

abbrev inner_of : Option Session → Session
inner_of (some x) = x
inner_of none = zero_session

abbrev mine : DiskSession
mine = session_in (get_session toy_libraries no_faults (replicate 16 1) (loaded first)).0

-- The other manager once the input has moved its position.
abbrev moved : DiskSessionManager
moved = set_position (pos 2) (loaded second)

abbrev theirs : DiskSession
theirs = session_in (get_session toy_libraries no_faults (replicate 16 2) moved).0

mine-Holds :
    Holds
      (manager {Text = Bytes} {Ev = Bytes} toy toy_libraries salty conditions)
      (loaded first)
      (replicate 16 1)
      mine
      (inner_of mine.session)
      (again speaker)
unfolding get_session lookup load_manager new_session_manager bytes_eq session_hash encode
    load_content is_weak load_bytes checked unmarshal_disk_session load_disk_session embedded
    unmarshal_session load_double_ratchet marshal_disk_session load_peer_key set_peer_key chains
    decode_elements load_dh_ratchet load_key_buffer load_ratchet marshal_dh_ratchet marshal_element
    marshal_elements marshal_key_buffer marshal_ratchet restore set_current unmarshal_dh_ratchet
    unmarshal_element unmarshal_elements unmarshal_key_buffer unmarshal_ratchet assign assign_all
    encode_digit marshal_ratchet_of marshal_session
mine-Holds = record { got = refl; inner = refl; ratchet = refl }

theirs-Holds :
    Holds
      (manager {Text = Bytes} {Ev = Bytes} toy toy_libraries salty conditions)
      moved
      (replicate 16 2)
      theirs
      (inner_of theirs.session)
      (again listener)
unfolding get_session lookup load_manager new_session_manager bytes_eq session_hash encode
    load_content is_weak load_bytes checked unmarshal_disk_session load_disk_session embedded
    unmarshal_session load_double_ratchet marshal_disk_session load_peer_key set_peer_key chains
    decode_elements load_dh_ratchet load_key_buffer load_ratchet marshal_dh_ratchet marshal_element
    marshal_elements marshal_key_buffer marshal_ratchet restore set_current unmarshal_dh_ratchet
    unmarshal_element unmarshal_elements unmarshal_key_buffer unmarshal_ratchet assign assign_all
    encode_digit marshal_ratchet_of marshal_session set_position read_full
theirs-Holds = record { got = refl; inner = refl; ratchet = refl }

abbrev sent_by_mine : DoubleRatchet
sent_by_mine = (encrypt_message toy sample text (again speaker)).1

abbrev ciphertext : Bytes
ciphertext = value (encrypt_message toy sample text (again speaker)).0

abbrev heard_by_theirs : DoubleRatchet
heard_by_theirs = (decrypt_message toy sample ciphertext (again listener)).1

abbrev after : DiskSessionManager
after =
    (put_session toy_libraries no_faults (renewed mine (inner_of mine.session) sent_by_mine)
      (loaded first)).1

mine_put :
    put_session toy_libraries no_faults
      (renewed mine (inner_of mine.session) sent_by_mine)
      (loaded first)
    ≡ (ok tt, after)
unfolding get_session lookup load_manager new_session_manager bytes_eq session_hash encode
    load_content is_weak load_bytes checked unmarshal_disk_session load_disk_session embedded
    unmarshal_session load_double_ratchet marshal_disk_session load_peer_key set_peer_key chains
    decode_elements load_dh_ratchet load_key_buffer load_ratchet marshal_dh_ratchet marshal_element
    marshal_elements marshal_key_buffer marshal_ratchet restore set_current unmarshal_dh_ratchet
    unmarshal_element unmarshal_elements unmarshal_key_buffer unmarshal_ratchet assign assign_all
    encode_digit marshal_ratchet_of marshal_session encrypt_message when next_send_key take_header
    marshal encrypt encrypt_params derive_params new_cipher chain_kdf read_full pkcs7_pad
    put_session create_file write_file
mine_put = refl

ciphertext-IsBytes : IsBytes ciphertext
unfolding get_session lookup load_manager new_session_manager bytes_eq session_hash encode
    load_content is_weak load_bytes checked unmarshal_disk_session load_disk_session embedded
    unmarshal_session load_double_ratchet marshal_disk_session load_peer_key set_peer_key chains
    decode_elements load_dh_ratchet load_key_buffer load_ratchet marshal_dh_ratchet marshal_element
    marshal_elements marshal_key_buffer marshal_ratchet restore set_current unmarshal_dh_ratchet
    unmarshal_element unmarshal_elements unmarshal_key_buffer unmarshal_ratchet assign assign_all
    encode_digit marshal_ratchet_of marshal_session encrypt_message when next_send_key take_header
    marshal encrypt encrypt_params derive_params new_cipher chain_kdf read_full pkcs7_pad
ciphertext-IsBytes = are_bytes-IsBytes ciphertext refl

abbrev their_after : DiskSessionManager
their_after =
    (put_session toy_libraries no_faults (renewed theirs (inner_of theirs.session) heard_by_theirs)
      moved).1

theirs_put :
    put_session toy_libraries no_faults
      (renewed theirs (inner_of theirs.session) heard_by_theirs)
      moved
    ≡ (ok tt, their_after)
unfolding get_session lookup load_manager new_session_manager bytes_eq session_hash encode
    load_content is_weak load_bytes checked unmarshal_disk_session load_disk_session embedded
    unmarshal_session load_double_ratchet marshal_disk_session load_peer_key set_peer_key chains
    decode_elements load_dh_ratchet load_key_buffer load_ratchet marshal_dh_ratchet marshal_element
    marshal_elements marshal_key_buffer marshal_ratchet restore set_current unmarshal_dh_ratchet
    unmarshal_element unmarshal_elements unmarshal_key_buffer unmarshal_ratchet assign assign_all
    encode_digit marshal_ratchet_of marshal_session encrypt_message when next_send_key take_header
    marshal encrypt encrypt_params derive_params new_cipher chain_kdf read_full pkcs7_pad
    put_session create_file write_file set_position decrypt_message parse_header message_key_for
    current_key next_recv_key
theirs_put = refl

first_reaches :
    CanReach toy toy_laws toy_libraries toy_libraries
      (manager {Text = Bytes} {Ev = Bytes} toy toy_libraries salty conditions)
      (manager {Text = Bytes} {Ev = Bytes} toy toy_libraries salty conditions)
      salty
      (client_of toy_libraries conditions (75 ∷ []) (112 ∷ []) first first-CanCall)
      (client_of toy_libraries conditions (75 ∷ []) (112 ∷ []) second second-CanCall)
      (pos 1)
      (66 ∷ [])
      text
      []
      7
      8
      sample
      sample
unfolding first-CanCall second-CanCall get_session lookup load_manager new_session_manager bytes_eq
    session_hash encode load_content is_weak load_bytes checked unmarshal_disk_session
    load_disk_session embedded unmarshal_session load_double_ratchet marshal_disk_session
    load_peer_key set_peer_key chains decode_elements load_dh_ratchet load_key_buffer load_ratchet
    marshal_dh_ratchet marshal_element marshal_elements marshal_key_buffer marshal_ratchet restore
    set_current unmarshal_dh_ratchet unmarshal_element unmarshal_elements unmarshal_key_buffer
    unmarshal_ratchet assign assign_all encode_digit marshal_ratchet_of marshal_session by_name
    set_position read_full
first_reaches =
    let h = heard toy toy_laws (again speaker) (again listener) text sample sample again-CanSay in
    let same_text : h.ct ≡ ciphertext = ap (λ r. value r.0) (sym h.encrypted) in
    let got : decrypt_message toy sample ciphertext (again listener) ≡ (ok text, h.recipient) =
      subst (λ b. decrypt_message toy sample b (again listener) ≡ (ok text, h.recipient)) same_text
        h.decrypted in
    record {
      uid = replicate 16 1;
      s = mine;
      x = inner_of mine.session;
      from = again speaker;
      other_s = theirs;
      other_x = inner_of theirs.session;
      to = again listener;
      after = after;
      other_after = their_after;
      named = refl;
      holds = mine-Holds;
      other_holds = theirs-Holds;
      no_pending = refl;
      can_say = again-CanSay;
      put_back =
          subst
            (λ d.
              put_session toy_libraries no_faults (renewed mine (inner_of mine.session) d)
                (loaded first)
              ≡ (ok tt, after))
            (ap (λ r. r.1) h.encrypted) mine_put;
      other_put_back =
          subst
            (λ d.
              put_session toy_libraries no_faults (renewed theirs (inner_of theirs.session) d) moved
              ≡ (ok tt, their_after))
            (ap (λ r. r.1) got) theirs_put;
      parses = refl;
      bytes = subst IsBytes (sym same_text) ciphertext-IsBytes;
      stamp_bytes = are_bytes-IsBytes (replicate 16 2) refl;
      stamp_length = refl;
    }

send_recv_example :
    let (r, m') =
      cli_send toy toy_libraries salty conditions (75 ∷ []) (112 ∷ []) (66 ∷ []) text first in
    (sealed : Bytes) × (r ≡ ok tt)
    × (m'.printed ≡ sealed ∷ [])
    × let (r', n') =
        cli_recv toy toy_libraries salty conditions (75 ∷ []) (112 ∷ []) sealed second in
      (r' ≡ ok tt) × (n'.printed ≡ text ∷ [])
send_recv_example =
    send_recv toy toy_laws toy_libraries toy_libraries salty conditions conditions (75 ∷ [])
      (112 ∷ []) (75 ∷ []) (112 ∷ []) (66 ∷ []) text first second first-CanCall second-CanCall
      first_reaches refl

first_sends :
    (cli_send toy toy_libraries salty conditions (75 ∷ []) (112 ∷ []) (66 ∷ []) text first).0
    ≡ ok tt
first_sends =
    (send_recv toy toy_laws toy_libraries toy_libraries salty conditions conditions (75 ∷ [])
      (112 ∷ []) (75 ∷ []) (112 ∷ []) (66 ∷ []) text first second first-CanCall second-CanCall
      first_reaches refl).1

send_prints_example :
    let (r, m') =
      cli_send toy toy_libraries salty conditions (75 ∷ []) (112 ∷ []) (66 ∷ []) text first in
    (endpoint : Bytes) × (sealed : Bytes) × (m'.posted ≡ (endpoint, sealed) ∷ [])
    × (m'.printed ≡ sealed ∷ [])
send_prints_example =
    send_prints toy toy_libraries salty conditions (75 ∷ []) (112 ∷ []) (66 ∷ []) text first
      first_sends
