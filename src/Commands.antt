-- ===== src/Commands.antt =====
-- What a typed line asks of the client, for both user interfaces (interactive/interactive.go,
-- ui/chat.go): a specification that knows the client and the current peer only. It leaves out
-- "/quit", and "/log", which only one of them has.
use go_ratchet.Prelude.{◌++◌, false, if◌then◌else◌, ◌≡◌, List, [], ◌∷◌, Bytes, bytes_eq}
use go_ratchet.Crypto.{Crypto}
use go_ratchet.Xochimilco.Message.{has_prefix}
use go_ratchet.Disk.{Libraries}
use go_ratchet.Client.Interface.{SessionManager}
use go_ratchet.Client.{Client, Salty}
use go_ratchet.Client.Operations.{chat, send_text, close_chat, send_salty}
use go_ratchet.Interactive.{
  Strings, Outside, chat_command, close_command, salty_command, trim_prefix, target_of,
}

-- The peer that a "/chat" names, if it names one, is somebody else.
abbrev pub IsOther : Bytes → List Bytes → Type 0
IsOther me [] = Unit {0}
IsOther me (command ∷ []) = Unit {0}
IsOther me (command ∷ them ∷ more) = bytes_eq me them ≡ false

module _ {M Text Ev : Type 0} (c : Crypto) (l : Libraries) (w : SessionManager M)
    (y : Salty Text Ev) (str : Strings) where
  -- The client and the current peer.
  abbrev pub Situation : Type 0
  Situation = Client M Text Ev × Bytes

  -- A peer that is named becomes the current one, and `Chat` is called.
  abbrev pub chat_meaning : Outside → List Bytes → Situation → Situation
  chat_meaning o [] s = s
  chat_meaning o (command ∷ []) s = s
  chat_meaning o (command ∷ them ∷ more) s =
      ((chat c l w o.offer_sample o.other_sample o.post_failed them s.0).1, them)

  -- The chat with the peer that is named, or else with the current one, is closed, and nobody is
  -- the current peer any more.
  abbrev pub close_meaning : Outside → Bytes → Situation → Situation
  close_meaning o [] s = s
  close_meaning o (t ∷ target) s = ((close_chat c l w o.post_failed (t ∷ target) s.0).1, [])

  abbrev salty_meaning : Outside → Bytes × Bytes → Situation → Situation
  salty_meaning o parts s =
      ((send_salty c l w y o.now o.found o.post_failed parts.0 parts.1 [] s.0).1, s.1)

  -- Any other line is a text for the current peer, if there is one.
  abbrev pub text_meaning : Outside → Bytes → Bytes → Client M Text Ev → Situation
  text_meaning o line [] client = (client, [])
  text_meaning o line (t ∷ them) client = (
    (send_text c l w y o.now o.later o.offer_sample o.post_failed (t ∷ them) line [] client).1,
    t ∷ them,
  )

  unfoldable pub meaning : Outside → Bytes → Situation → Situation
  meaning o line s =
      if has_prefix line chat_command
      then chat_meaning o (str.fields line) s
      else if has_prefix line close_command
      then close_meaning o (target_of (str.fields line) s.1) s
      else if has_prefix line salty_command
      then salty_meaning o (str.cut (trim_prefix line (salty_command ++ (32 ∷ [])))) s
      else text_meaning o line s.1 s.0
