-- ===== src/Client/Managing.antt =====
-- Properties of the manager as properties of the client (client/client.go).
use go_ratchet.Prelude.{Bool, true, false, Bytes}
use go_ratchet.Prelude.Methods.{Action}
use go_ratchet.Prelude.Keeps.{Keeps}
use go_ratchet.Disk.{DiskSession}
use go_ratchet.Client.Interface.{SessionManager}
use go_ratchet.Client.{Client, Event, on_manager, dispatch, post}
use go_ratchet.Client.Kept.{ClientKeeps}

-- Each operation of the manager, but for `SetPosition`, keeps `P`.
pub record ManagerKeeps {M : Type 0} (w : SessionManager M) (P : M → Type 0) : Type 0 where
  pub by_name-Keeps : (name : Bytes) → Keeps P (w.by_name name)
  pub new-Keeps : (name : Bytes) → Keeps P (w.new name)
  pub get-Keeps : (uid : Bytes) → Keeps P (w.get uid)
  pub put-Keeps : (s : DiskSession) → Keeps P (w.put s)
  pub delete-Keeps : (s : DiskSession) → Keeps P (w.delete s)

module _ {M Text Ev : Type 0} (P : M → Type 0) where
  -- `P` of the client's manager.
  abbrev pub Managed : Client M Text Ev → Type 0
  Managed c = P c.sm

  managed-Keeps : {A : Type 0} (m : Action M A) → Keeps P m → Keeps Managed (on_manager m)
  managed-Keeps m km = record { after = λ c h. km.after c.sm h }

  dispatch-Managed : (e : Event Text Ev) → Keeps Managed (dispatch e)
  unfolding dispatch
  dispatch-Managed e = record { after = λ c h. h }

  post-Managed :
      (post_failed : Bool) (endpoint text : Bytes) → Keeps Managed (post post_failed endpoint text)
  unfolding post
  post-Managed true endpoint text = record { after = λ c h. h }
  post-Managed false endpoint text = record { after = λ c h. h }

  pub managed-ClientKeeps : (w : SessionManager M) → ManagerKeeps w P → ClientKeeps w Managed
  managed-ClientKeeps w k = record {
    by_name-Keeps = λ name. managed-Keeps (w.by_name name) (k.by_name-Keeps name);
    new-Keeps = λ name. managed-Keeps (w.new name) (k.new-Keeps name);
    get-Keeps = λ uid. managed-Keeps (w.get uid) (k.get-Keeps uid);
    put-Keeps = λ s. managed-Keeps (w.put s) (k.put-Keeps s);
    delete-Keeps = λ s. managed-Keeps (w.delete s) (k.delete-Keeps s);
    dispatch-Keeps = dispatch-Managed;
    post-Keeps = post-Managed;
  }
