-- ===== src/Lib.antt =====
-- A model of go-ratchet, a chat program for salty.im in which two parties agree on keys (X3DH) and
-- then encrypt each message with the Double Ratchet.
--
-- The program's parts, and how they interact. A session (xochimilco/session.go) makes an offer with
-- a signed prekey, or answers one with an acknowledgement. Both texts travel in an envelope
-- (xochimilco/message.go). The answering party creates an initial message of the key agreement
-- (x3dh/x3dh.go) and becomes the active party of a Double Ratchet (doubleratchet/doubleratchet.go),
-- the offering party receives it and becomes the passive one. From then on each text that is sent
-- is encrypted by the ratchet and marshalled as a data message. A Double Ratchet has a ratchet of
-- Diffie-Hellman keys (doubleratchet/dh_ratchet.go), two chains of keys
-- (doubleratchet/primitives.go), and a buffer for the keys of messages that were skipped
-- (doubleratchet/key_buff.go). The client (client/client.go) keeps a session with each peer in a
-- manager, which stores them in files (session/disk-session.go): it loads a session by the id that a
-- message is stamped with, lets it send or receive, posts the message to the peer's endpoint, puts
-- the session back, and dispatches events to the handlers of the user interfaces. There are three of
-- them: the commands (cli/basic.go), each of which makes a manager and a client and calls the client
-- once, the interactive mode (interactive/interactive.go) and the terminal interface (ui/chat.go).
-- main.go chooses between them.
--
-- Which file models which part:
--   Prelude          numbers, lists, byte slices and maps; `Result` (a value, an error or a run-time
--                    panic) for Go's functions; `Action` for methods on a mutable receiver
--   Crypto           the cryptographic functions, as a parameter with laws
--   DoubleRatchet    Pkcs7 (doubleratchet/pkcs7.go), Header (msg_header.go), KeyBuffer
--                    (key_buff.go), Primitives (primitives.go), DhRatchet (dh_ratchet.go),
--                    Ratchet (doubleratchet.go) and Persist (marshal.go)
--   X3dh             x3dh/x3dh.go, and in Convert x3dh/curve25519_conv.go
--   Xochimilco       Base64 (encoding/base64, as the program uses it), Message
--                    (xochimilco/message.go) and Session (xochimilco/session.go)
--   Disk             session/disk-session.go: a session with a peer, and in Disk.Manager the manager
--   Client           client/client.go: Interface (the manager's interface), Operations (Chat, Send,
--                    Close, SendSalty) and Inputs (the handlers of what arrives)
--   Memory           session/mem/mem-session.go: the log of events for each peer
--   Interactive      interactive/interactive.go: what is done with each line that is typed
--   Ui               ui/chat.go: the model of the terminal interface and its update
--   Commands         a specification of what a typed line asks of the client, for both of these
--   Cli              cli/basic.go: each command, from the key file to the deferred close
--   Driver           client/driver-msgbus/msgbus.go: the handler that gives messages to the client
--   Main             main.go: the choice of a command, and where the text of a message comes from
--   Tests            a small cryptography that has the laws, and each theorem at concrete inputs
--
-- How state and operations correspond. A function of the program keeps its name in snake case;
-- `Encrypt` and `Decrypt` of a Double Ratchet are `encrypt_message` and `decrypt_message`, `Close`
-- of a session is `close_session`, `Offer` and `OfferSealed` are `make_offer` and
-- `make_offer_sealed`; the client's `Send` and `Close` are `send_text` and `close_chat`, the
-- manager's `Get`, `Put` and `Delete` are `get_session`, `put_session` and `delete_session`,
-- `MarshalBinary` of a session is `marshal_session`, `Update` of the terminal interface is
-- `update_model`, and the commands of cli/basic.go are `cli_offer`, `cli_send`, `cli_recv` and
-- `cli_close`. A method maps a state to a result and the state that it leaves, with an error too:
-- what Go has written before a `return err` stays written. A byte slice is a list of numbers, and a
-- nil slice is the empty list unless the code compares it with nil; those are options. A ring is
-- the list of its cells from the current one on. What the code reads from crypto/rand and from the
-- clock is an argument.
--
-- Orders of events. A run of the client is a relation on its states (Client.Running) with a step
-- for each operation and for an input; each step chooses anew what is random, what fails and what
-- the operating system does. A run of the interactive mode (Interactive.Turns) begins with a peer
-- or with none, and goes on with lines that are typed and inputs that arrive, in any order; a line
-- that is being handled is not interrupted by an input.
--
-- Bounds. Every loop of the modelled code runs over a list or a count, so that no fuel is needed.
-- An int is a natural number where the code's is never negative; the positions in a stream and in a
-- log, and the height of a viewport, are integers. The counters, which grow by one for each
-- message, do not reach 2 ^ 63. The numbers of a header keep their 16 bits. The eight chains of the
-- buffer and the limit of 32 skipped messages are those of the code.
--
-- Not modelled: the timing of comparisons; that HMAC, HKDF, AES, Curve25519, Ed25519 and nacl/box
-- are hard to break (they are parameters, and only their documented functional laws are used); the
-- formats of encoding/gob and encoding/json, file names and hashes, which are parameters too; what
-- the file system does between two calls; the Boolean that `Chat` returns; the texts in which the
-- user interfaces show events, the views of the terminal interface and its widgets; the parsing of
-- options, the message bus, and the deferred calls after a run-time panic. Of the program's code,
-- `setupChatlog` is never called and is left out.
pub mod Prelude
pub mod Crypto
pub mod Cli
pub mod Client
pub mod Commands
pub mod Disk
pub mod DoubleRatchet
pub mod Interactive
pub mod Driver
pub mod Main
pub mod Memory
pub mod Ui
pub mod X3dh
pub mod Xochimilco
pub mod Tests
