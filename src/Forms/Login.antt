-- ===== src/Forms/Login.antt =====
-- Client/login.cpp: the form for the name and the password, one function per slot.
use Prim.Native.String.{String, ◌++◌ as ◌+++◌}
use mathlib.Core.List.{append_assoc}
use scriba.Prelude.{◌≡◌, arith, Bool, true, false, List, [], ◌∷◌, ◌++◌, ◌||◌, not, if◌then◌else◌}
use scriba.Qt.{same, is_empty}
use scriba.Forms.{Texts, Call, login, disconnect, change_to_home, change_to_signup}

pub record Login (Pixmap : Type 0) : Type 0 where
  pub username : String
  pub password : String
  pub label_message : String
  pub icon_error : Bool
  pub error_username : Bool
  pub error_password : Bool
  pub login_enabled : Bool
  pub account_enabled : Bool
  pub calls : List (Call Pixmap)

module _ {Pixmap : Type 0} (t : Texts) where
  abbrev pub call : Call Pixmap → Login Pixmap → Login Pixmap
  call a f = record f { calls = f.calls ++ a ∷ [] }

  unfoldable pub enable_all_buttons : Login Pixmap → Login Pixmap
  enable_all_buttons f = record f { login_enabled = true; account_enabled = true }

  -- Login::addError
  unfoldable pub add_error : String → Login Pixmap → Login Pixmap
  add_error error f = record f {
    icon_error = true;
    label_message =
        if t.contains f.label_message error
        then f.label_message
        else if is_empty f.label_message || t.contains error "Invalid"
        then error
        else f.label_message +++ "\n" +++ error;
    error_username = not (same error "Empty password") || f.error_username;
    error_password = not (same error "Empty email") || f.error_password;
  }

  unfoldable pub clear_error : Login Pixmap → Login Pixmap
  clear_error f = record f {
    icon_error = false;
    label_message = "";
    error_username = false;
    error_password = false;
  }

  -- Login::loginFailed
  unfoldable pub login_failed : String → Login Pixmap → Login Pixmap
  unfolding enable_all_buttons add_error
  login_failed reason f = call disconnect (add_error reason (enable_all_buttons f))

  -- Login::try_to_log; the failures are slots of the form itself.
  unfoldable pub try_to_log : Login Pixmap → Login Pixmap
  unfolding login_failed
  try_to_log f =
      let f1 : Login Pixmap = record f { login_enabled = false; account_enabled = false } in
      let f2 = if is_empty f.username then login_failed "Empty username" f1 else f1 in
      let f3 = if is_empty f.password then login_failed "Empty password" f2 else f2 in
      if is_empty f.username || is_empty f.password
      then f3
      else call (login f.username f.password) f3

  -- The field takes a text; a new name clears the error.
  unfoldable pub set_username : String → Login Pixmap → Login Pixmap
  unfolding clear_error
  set_username s f = if same s f.username then f else clear_error (record f { username = s })

  -- Login::loggedIn
  unfoldable pub logged_in : Login Pixmap → Login Pixmap
  unfolding enable_all_buttons set_username
  logged_in f =
      call change_to_home (record (set_username "" (enable_all_buttons f)) { password = "" })

  unfoldable pub clear_line_edit : Login Pixmap → Login Pixmap
  unfolding clear_error set_username
  clear_line_edit f = clear_error (set_username "" (record f { password = "" }))

  unfoldable pub on_new_account_clicked : Login Pixmap → Login Pixmap
  unfolding clear_error clear_line_edit
  on_new_account_clicked f = call change_to_signup (clear_line_edit (clear_error f))

  -- Login::disconnect
  unfoldable pub disconnect_client : Login Pixmap → Login Pixmap
  disconnect_client f = call disconnect f

  -- Trying to log in: the client is asked to when neither field is empty; else it is disconnected,
  -- once for each empty field, and the buttons can be pressed again.
  pub try_to_log-calls :
      (f : Login Pixmap)
      → ((try_to_log f).calls ≡ (
          if is_empty f.username
          then (if is_empty f.password
              then f.calls ++ disconnect ∷ disconnect ∷ []
              else f.calls ++ disconnect ∷ [])
          else if is_empty f.password
          then f.calls ++ disconnect ∷ []
          else f.calls ++ login f.username f.password ∷ []))
        × ((try_to_log f).login_enabled ≡ (is_empty f.username || is_empty f.password))
  unfolding try_to_log login_failed add_error enable_all_buttons
  try_to_log-calls f = ground (arith, append_assoc f.calls (disconnect ∷ []) (disconnect ∷ []))
