-- ===== src/Forms/Modify/Slots.antt =====
-- The slots of the form for the account: buttons, answers of the client, and what ends the form.
use Prim.Native.String.{String}
use scriba.Prelude.{Bool, true, false, Option, none, some, ◌&&◌, not, if◌then◌else◌}
use scriba.Qt.{same, is_empty}
use scriba.Forms.{
  Texts, check_old_password, update_password, update_nickname, override_profile_image,
  send_profile_image, change_to_home, popup,
}
use scriba.Forms.Modify.{
  Modify, add_password_error, call, check_confirmation, check_password, clear_old_password_error,
  correct, is_correct, is_unchecked, set_confirm, set_new, set_old, wrong,
}

module _ {Pixmap : Type 0} (t : Texts) where
  -- Modify::clearLabels
  unfoldable pub clear_labels : Modify Pixmap → Modify Pixmap
  unfolding set_new set_old set_confirm
  clear_labels f = set_confirm t "" (set_old t "" (set_new t "" f))

  unfoldable pub clear_form : Modify Pixmap → Modify Pixmap
  unfolding set_old set_new set_confirm
  clear_form f = record (set_confirm t "" (set_new t "" (set_old t "" f))) {
    label_pass = "";
    icon_error_pass = false;
    icon_old_pass = false;
    icon_new_pass = false;
    error_old = false;
    error_new = false;
    error_confirm = false;
  }

  -- The field takes a text, and textChanged clears its error.
  abbrev pub set_nickname : String → Modify Pixmap → Modify Pixmap
  set_nickname s f = if same s f.nickname then f else record f {
    nickname = s;
    icon_error_nick = false;
    label_nick = "";
    error_nickname = false;
  }

  -- Modify::upload, with the client's nickname
  unfoldable pub upload : String → Modify Pixmap → Modify Pixmap
  unfolding clear_labels
  upload nickname f = clear_labels (set_nickname nickname f)

  abbrev pub add_error_nickname : String → Modify Pixmap → Modify Pixmap
  add_error_nickname error f = record f {
    icon_error_nick = true;
    label_nick = error;
    error_nickname = true;
  }

  -- Modify::checkNickname
  unfoldable pub check_nickname : String → Modify Pixmap → Bool × Modify Pixmap
  check_nickname nickname f =
      if is_empty nickname then (false, add_error_nickname "Empty nickname" f) else (true, f)

  unfoldable pub on_nickname_editing_finished : Modify Pixmap → Modify Pixmap
  unfolding check_nickname
  on_nickname_editing_finished f = (check_nickname f.nickname f).1

  -- With the client's nickname, and whether the user says that they are sure.
  unfoldable pub on_save_nickname_clicked : String → Bool → Modify Pixmap → Modify Pixmap
  unfolding check_nickname
  on_save_nickname_clicked original sure f =
      if same f.nickname original
      then add_error_nickname "Nickname not modified" f
      else let (named, g) = check_nickname f.nickname f in
        if named && sure
        then call t (popup "Nickname correctly updated") (call t (update_nickname f.nickname) g)
        else g

  unfoldable pub on_profile_image_clicked : Option Pixmap → Modify Pixmap → Modify Pixmap
  on_profile_image_clicked none f = f
  on_profile_image_clicked (some image) f =
      call t send_profile_image (call t (override_profile_image image) f)

  unfoldable pub on_finish_clicked : Modify Pixmap → Modify Pixmap
  unfolding clear_form
  on_finish_clicked f = call t change_to_home (clear_form f)

  unfoldable pub on_save_password_clicked : Bool → Modify Pixmap → Modify Pixmap
  unfolding check_password check_confirmation
  on_save_password_clicked sure f =
      let g = check_password t f.new_pass f in
      let h =
        if is_unchecked g.correct_old_password
        then call t (check_old_password f.old_pass) g
        else g in
      if h.valid_new_password && is_correct h.correct_old_password
      then (let (confirmed, k) = check_confirmation t f.new_pass f.confirm_pass h in
          if confirmed && sure then call t (update_password f.old_pass f.new_pass) k else k)
      else h

  unfoldable pub on_old_pass_editing_finished : Modify Pixmap → Modify Pixmap
  on_old_pass_editing_finished f = call t (check_old_password f.old_pass) f

  unfoldable pub on_failed_update_password : String → Modify Pixmap → Modify Pixmap
  unfolding add_password_error
  on_failed_update_password reason f =
      let g =
        if t.contains reason "password" && not (t.contains reason "new")
        then record f { icon_error_pass = true; icon_old_pass = true; error_old = false }
        else if t.contains reason "Wrong password"
        then record f { correct_old_password = wrong; icon_old_pass = true; error_old = false }
        else record f { icon_new_pass = true; error_new = false } in
      add_password_error t reason g

  unfoldable pub on_success_update_password : Modify Pixmap → Modify Pixmap
  on_success_update_password f = call t (popup "Password correctly updated") (record f {
    correct_old_password = correct;
    icon_error_pass = false;
    icon_old_pass = false;
    icon_new_pass = false;
    error_new = false;
    error_old = false;
    error_confirm = false;
  })

  -- With whether the form is visible.
  unfoldable pub on_wrong_old_password_entered : String → Bool → Modify Pixmap → Modify Pixmap
  unfolding add_password_error
  on_wrong_old_password_entered reason visible f =
      let g : Modify Pixmap = record f { correct_old_password = wrong } in
      if visible then add_password_error t reason g else g

  unfoldable pub on_correct_old_password_entered : Modify Pixmap → Modify Pixmap
  unfolding clear_old_password_error
  on_correct_old_password_entered f =
      clear_old_password_error t (record f { correct_old_password = correct })
