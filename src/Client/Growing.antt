-- ===== src/Client/Growing.antt =====
-- The events that a client (client/client.go) has dispatched are never taken back.
use go_ratchet.Prelude.{◌≡◌, sym, ap, ◌∙◌, Bool, true, false, List, [], ◌∷◌, ◌++◌, Bytes}
use mathlib.Core.List.{append_assoc, append-nil}
use go_ratchet.Prelude.Methods.{Action}
use go_ratchet.Prelude.Keeps.{Keeps}
use go_ratchet.Client.Interface.{SessionManager}
use go_ratchet.Client.{Client, Event, on_manager, dispatch, post}
use go_ratchet.Client.Kept.{ClientKeeps}

module _ {M Text Ev : Type 0} (before : List (Event Text Ev)) where
  -- The events that were dispatched begin with `before`.
  abbrev pub Extends : Client M Text Ev → Type 0
  Extends me = (new : List (Event Text Ev)) × (me.events ≡ before ++ new)

  on_manager-Extends : {A : Type 0} (m : Action M A) → Keeps Extends (on_manager m)
  on_manager-Extends m = record { after = λ me h. h }

  dispatch-Extends : (e : Event Text Ev) → Keeps Extends (dispatch e)
  unfolding dispatch
  dispatch-Extends e = record {
    after = λ me h. (
      h.0 ++ (e ∷ []),
      ap (λ (es : List (Event Text Ev)). es ++ (e ∷ [])) h.1 ∙ append_assoc before h.0 (e ∷ []),
    );
  }

  post-Extends :
      (post_failed : Bool) (endpoint text : Bytes) → Keeps Extends (post post_failed endpoint text)
  unfolding post
  post-Extends true endpoint text = record { after = λ me h. h }
  post-Extends false endpoint text = record { after = λ me h. h }

  pub Extends-ClientKeeps : (w : SessionManager M) → ClientKeeps w Extends
  Extends-ClientKeeps w = record {
    by_name-Keeps = λ name. on_manager-Extends (w.by_name name);
    new-Keeps = λ name. on_manager-Extends (w.new name);
    get-Keeps = λ uid. on_manager-Extends (w.get uid);
    put-Keeps = λ s. on_manager-Extends (w.put s);
    delete-Keeps = λ s. on_manager-Extends (w.delete s);
    dispatch-Keeps = dispatch-Extends;
    post-Keeps = post-Extends;
  }

-- A call that keeps every beginning of the events adds some to them.
pub added :
    {M Text Ev A : Type 0} (m : Action (Client M Text Ev) A)
    → ((before : List (Event Text Ev)) → Keeps (Extends before) m)
    → (me : Client M Text Ev) → Extends me.events (m me).1
added m keeps me = (keeps me.events).after me ([], sym (append-nil me.events))
