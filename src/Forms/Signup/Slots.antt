-- ===== src/Forms/Signup/Slots.antt =====
-- The slots of the form for signing up: the fields when they are left, the buttons, the answers of the
-- client, and which event each is for.
use Prim.Native.String.{String}
use scriba.Prelude.{true, false, List, [], ◌∷◌, Option, none, some, ◌&&◌, not, if◌then◌else◌}
use scriba.Qt.{same}
use scriba.Forms.{Texts, no_units, check_username, signup, disconnect, change_to_login, popup}
use scriba.Forms.Signup.{
  Signup, call, check_confirmation, check_password, check_username_text, clear_pass_error, free,
  is_unchecked, is_used, set_confirm, set_password, set_username, used,
}

module _ {Pixmap : Type 0} (t : Texts) where
  unfoldable pub on_username_editing_finished : Signup Pixmap → Signup Pixmap
  unfolding check_username_text
  on_username_editing_finished f =
      let g = (check_username_text t f.username f).1 in
      if not (no_units t f.username) && is_unchecked g.inuse_username
      then call t (check_username f.username) g
      else g

  unfoldable pub on_password_editing_finished : Signup Pixmap → Signup Pixmap
  unfolding check_password check_confirmation
  on_password_editing_finished f =
      let g = check_password t f.password f in
      if not g.valid
      then g
      else if no_units t g.confirm
      then clear_pass_error t g
      else (check_confirmation t f.password g.confirm g).1

  unfoldable pub on_confirm_password_editing_finished : Signup Pixmap → Signup Pixmap
  unfolding check_confirmation
  on_confirm_password_editing_finished f = (check_confirmation t f.password f.confirm f).1

  -- The request of on_pushButtonSignup_clicked, for a name whose form is right.
  unfoldable pub submit : String → String → String → Signup Pixmap → Signup Pixmap
  unfolding check_confirmation
  submit username password confirm f =
      if f.valid && not (is_used f.inuse_username)
      then (let (confirmed, g) = check_confirmation t password confirm f in
          if confirmed
          then call t (signup username password (if g.photo then some g.profile else none))
              (record g { signup_enabled = false; back_enabled = false })
          else g)
      else f

  unfoldable pub on_signup_clicked : Signup Pixmap → Signup Pixmap
  unfolding check_username_text submit
  on_signup_clicked f =
      let g = if is_unchecked f.inuse_username then call t (check_username f.username) f else f in
      let (named, h) = check_username_text t f.username g in
      if named then submit f.username f.password f.confirm h else h

  unfoldable pub clear_line_edit : Signup Pixmap → Signup Pixmap
  unfolding set_username set_password set_confirm
  clear_line_edit f = set_confirm t "" (set_password t "" (set_username t "" f))

  unfoldable pub clear_label : Signup Pixmap → Signup Pixmap
  clear_label f = record f {
    label_pass = "";
    label_user = "";
    icon_user = false;
    icon_pass = false;
    error_user = false;
    error_pass = false;
    error_confirm = false;
  }

  unfoldable pub signed_up : Signup Pixmap → Signup Pixmap
  unfolding clear_line_edit
  signed_up f =
      let g = clear_line_edit (record f { signup_enabled = true; back_enabled = true }) in
      call t change_to_login (
        call t (popup "Correctly signed up") (
          call t disconnect (record g {
            error_pass = false;
            error_confirm = false;
            error_user = false;
            label_pass = "";
            icon_user = false;
            icon_pass = false;
            photo = false;
          })))

  unfoldable pub signup_failed : String → Signup Pixmap → Signup Pixmap
  unfolding clear_label clear_line_edit
  signup_failed reason f =
      let g = call t disconnect f in
      let h =
        if t.contains reason "username"
        then record g {
          label_user = reason;
          icon_user = true;
          error_user = true;
          inuse_username = used;
        }
        else record g {
          label_pass = reason;
          error_pass = true;
          error_confirm = true;
          icon_pass = true;
        } in
      record (clear_line_edit (clear_label (call t (popup "Failed sign up") h))) {
        signup_enabled = true;
        back_enabled = true;
      }

  unfoldable pub on_back_login_clicked : Signup Pixmap → Signup Pixmap
  unfolding clear_label clear_line_edit
  on_back_login_clicked f =
      call t change_to_login (record (clear_line_edit (clear_label f)) { photo = false })

  unfoldable pub enable_all_buttons : Signup Pixmap → Signup Pixmap
  enable_all_buttons f = record f { signup_enabled = true; back_enabled = true }

  -- The image in the file that was chosen, if one was.
  unfoldable pub on_profile_image_clicked : Option Pixmap → Signup Pixmap → Signup Pixmap
  on_profile_image_clicked none f = f
  on_profile_image_clicked (some image) f = record f { profile = image; photo = true }

  unfoldable pub on_failed_username_check : String → Signup Pixmap → Signup Pixmap
  on_failed_username_check username f =
      if same f.username username
      then record f {
        inuse_username = used;
        label_user = "Username already in use";
        icon_user = true;
        error_user = true;
      }
      else f

  unfoldable pub on_success_username_check : String → Signup Pixmap → Signup Pixmap
  on_success_username_check username f =
      if same f.username username then record f { inuse_username = free } else f

-- What happens to the form.
pub data Event (Pixmap : Type 0) : Type 0 where
  typed_username typed_password typed_confirm : String → Event Pixmap
  username_finished password_finished confirm_finished : Event Pixmap
  signup_clicked back_clicked done enabled : Event Pixmap
  failed name_in_use name_free : String → Event Pixmap
  image_clicked : Option Pixmap → Event Pixmap

module _ {Pixmap : Type 0} (t : Texts) where
  unfoldable pub handle : Event Pixmap → Signup Pixmap → Signup Pixmap
  handle (typed_username s) f = set_username t s f
  handle (typed_password s) f = set_password t s f
  handle (typed_confirm s) f = set_confirm t s f
  handle username_finished f = on_username_editing_finished t f
  handle password_finished f = on_password_editing_finished t f
  handle confirm_finished f = on_confirm_password_editing_finished t f
  handle signup_clicked f = on_signup_clicked t f
  handle back_clicked f = on_back_login_clicked t f
  handle done f = signed_up t f
  handle enabled f = enable_all_buttons t f
  handle (failed reason) f = signup_failed t reason f
  handle (name_in_use s) f = on_failed_username_check t s f
  handle (name_free s) f = on_success_username_check t s f
  handle (image_clicked image) f = on_profile_image_clicked t image f

  unfoldable pub run : List (Event Pixmap) → Signup Pixmap → Signup Pixmap
  unfolding handle
  run [] f = f
  run (e ∷ es) f = run es (handle e f)
