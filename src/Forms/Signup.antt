-- ===== src/Forms/Signup.antt =====
-- Client/signup.cpp: the form for a new account, one function per slot. The user's typing and a
-- file dialog's answer are events.
pub mod Slots
pub mod Asks
pub mod Safe
pub mod Runs
use Prim.Native.String.{String}
use scriba.Prelude.{
  ℕ, Bool, true, false, List, [], ◌∷◌, ◌++◌, Option, none, some, ◌&&◌, ◌||◌, not, if◌then◌else◌,
}
use scriba.Qt.{same, is_empty}
use scriba.Forms.{Texts, no_units, Call, check_username, signup, disconnect, change_to_login, popup}
use scriba.Forms.Password.{is_valid_password}

pub data UsernameStatus : Type 0 where
  free used unchecked : UsernameStatus

-- The fields' texts, the labels, icons and error marks, what is enabled, and the form's members.
pub record Signup (Pixmap : Type 0) : Type 0 where
  pub username : String
  pub password : String
  pub confirm : String
  pub label_user : String
  pub label_pass : String
  pub icon_user : Bool
  pub icon_pass : Bool
  pub error_user : Bool
  pub error_pass : Bool
  pub error_confirm : Bool
  pub confirm_enabled : Bool
  pub signup_enabled : Bool
  pub back_enabled : Bool
  pub valid : Bool
  pub inuse_username : UsernameStatus
  pub photo : Bool
  pub profile : Pixmap
  pub calls : List (Call Pixmap)

abbrev pub email_pattern : String
email_pattern =
    "^[A-Za-z0-9\\-_]+(\\.[A-Za-z0-9\\-_]+)*@[A-Za-z0-9\\-]+(\\.[A-Za-z0-9\\-]+)*(\\.[a-z]{2,6})$"

abbrev pub is_unchecked : UsernameStatus → Bool
is_unchecked unchecked = true
is_unchecked _ = false

abbrev pub is_used : UsernameStatus → Bool
is_used used = true
is_used _ = false

module _ {Pixmap : Type 0} (t : Texts) where
  abbrev pub call : Call Pixmap → Signup Pixmap → Signup Pixmap
  call a f = record f { calls = f.calls ++ a ∷ [] }

  -- The constructor
  unfoldable pub new_signup : Pixmap → Signup Pixmap
  new_signup anonymous = record {
    username = "";
    password = "";
    confirm = "";
    label_user = "";
    label_pass = "";
    icon_user = false;
    icon_pass = false;
    error_user = false;
    error_pass = false;
    error_confirm = false;
    confirm_enabled = false;
    signup_enabled = true;
    back_enabled = true;
    valid = false;
    inuse_username = unchecked;
    photo = false;
    profile = anonymous;
    calls = [];
  }

  -- Signup::checkUsername
  unfoldable pub check_username_text : String → Signup Pixmap → Bool × Signup Pixmap
  check_username_text username f =
      if not (no_units t username) && not (t.matches email_pattern username)
      then (false, record f { label_user = "Invalid email"; icon_user = true; error_user = true })
      else (true, f)

  -- Signup::checkPassword
  unfoldable pub check_password : String → Signup Pixmap → Signup Pixmap
  check_password password f =
      if no_units t password
      then f
      else let (success, message) = is_valid_password (t.units password) in
        if success
        then record f { valid = true }
        else record f { valid = false; label_pass = message; icon_pass = true; error_pass = true }

  -- Signup::checkConfirmation
  unfoldable pub check_confirmation : String → String → Signup Pixmap → Bool × Signup Pixmap
  check_confirmation pass conf f =
      if not f.valid
      then (true, f)
      else if is_empty conf
      then (
        false,
        record f {
          label_pass = "Empty confirmation password";
          icon_pass = true;
          error_pass = true;
          error_confirm = true;
        },
      )
      else if same pass conf
      then (true, f)
      else (
        false,
        record f { label_pass = "Passwords don't match"; icon_pass = true; error_confirm = true },
      )

  -- What several slots do to the password's label and marks.
  abbrev pub clear_pass_error : Signup Pixmap → Signup Pixmap
  clear_pass_error f = record f {
    label_pass = "";
    error_pass = false;
    error_confirm = false;
    icon_pass = false;
  }

  unfoldable pub on_confirm_password_text_changed : Signup Pixmap → Signup Pixmap
  unfolding check_confirmation
  on_confirm_password_text_changed f =
      let g = if t.contains f.label_pass "match" then clear_pass_error f else f in
      (check_confirmation g.password g.confirm g).1

  -- The field takes a text.
  unfoldable pub set_confirm : String → Signup Pixmap → Signup Pixmap
  unfolding on_confirm_password_text_changed
  set_confirm s f =
      if same s f.confirm then f else on_confirm_password_text_changed (record f { confirm = s })

  unfoldable pub on_password_text_changed : String → Signup Pixmap → Signup Pixmap
  unfolding set_confirm check_password check_confirmation
  on_password_text_changed arg f =
      let conf = f.confirm in
      let g = clear_pass_error f in
      if no_units t arg
      then set_confirm "" (record g { confirm_enabled = false })
      else let h = check_password arg g in
        if not h.confirm_enabled
        then record h { confirm_enabled = true }
        else if no_units t h.confirm
        then h
        else (check_confirmation arg conf h).1

  unfoldable pub set_password : String → Signup Pixmap → Signup Pixmap
  unfolding on_password_text_changed
  set_password s f =
      if same s f.password then f else on_password_text_changed s (record f { password = s })

  unfoldable pub on_username_text_changed : Signup Pixmap → Signup Pixmap
  on_username_text_changed f = record f {
    inuse_username = unchecked;
    label_user = "";
    error_user = false;
    icon_user = false;
  }

  unfoldable pub set_username : String → Signup Pixmap → Signup Pixmap
  unfolding on_username_text_changed
  set_username s f =
      if same s f.username then f else on_username_text_changed (record f { username = s })
