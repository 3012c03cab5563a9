-- ===== src/Forms/Modify.antt =====
-- Client/modify.cpp: the form for the nickname, the image and the password, one function per slot.
-- What message boxes and file dialogs answer comes with the event.
pub mod Slots
pub mod Saves
use Prim.Native.String.{String, ◌++◌ as ◌+++◌}
use scriba.Prelude.{
  ℕ, Bool, true, false, List, [], ◌∷◌, ◌++◌, Option, none, some, ◌&&◌, ◌||◌, not, if◌then◌else◌,
}
use scriba.Qt.{same, is_empty}
use scriba.Forms.{
  Texts, no_units, Call, check_old_password, update_password, update_nickname,
  override_profile_image, send_profile_image, change_to_home, popup,
}
use scriba.Forms.Password.{is_valid_password}

pub data OldPassStatus : Type 0 where
  correct wrong unchecked : OldPassStatus

pub record Modify (Pixmap : Type 0) : Type 0 where
  pub old_pass : String
  pub new_pass : String
  pub confirm_pass : String
  pub nickname : String
  pub label_pass : String
  pub label_nick : String
  pub icon_error_pass : Bool
  pub icon_old_pass : Bool
  pub icon_new_pass : Bool
  pub icon_error_nick : Bool
  pub error_old : Bool
  pub error_new : Bool
  pub error_confirm : Bool
  pub error_nickname : Bool
  pub new_enabled : Bool
  pub confirm_enabled : Bool
  pub valid_new_password : Bool
  pub correct_old_password : OldPassStatus
  pub calls : List (Call Pixmap)

abbrev pub is_correct : OldPassStatus → Bool
is_correct correct = true
is_correct _ = false

abbrev pub is_unchecked : OldPassStatus → Bool
is_unchecked unchecked = true
is_unchecked _ = false

abbrev pub wrong_pattern : String
wrong_pattern = "\n?Wrong password\n?"

abbrev pub match_pattern : String
match_pattern = "\n?Passwords don't match\n?"

abbrev pub rules_pattern : String
rules_pattern =
    "\n?((Empty password)|(Min. 8 characters, Max 12 characters)|(Use at least 1 upper case letter)|(Use at least 1 special character)|(Use at least 1 digit)|(Characters allowed: A-Z, a-z, 0-9, @ . _ -))\n?"

module _ {Pixmap : Type 0} (t : Texts) where
  abbrev pub call : Call Pixmap → Modify Pixmap → Modify Pixmap
  call a f = record f { calls = f.calls ++ a ∷ [] }

  -- The constructor
  unfoldable pub new_modify : Modify Pixmap
  new_modify = record {
    old_pass = "";
    new_pass = "";
    confirm_pass = "";
    nickname = "";
    label_pass = "";
    label_nick = "";
    icon_error_pass = false;
    icon_old_pass = false;
    icon_new_pass = false;
    icon_error_nick = false;
    error_old = false;
    error_new = false;
    error_confirm = false;
    error_nickname = false;
    new_enabled = false;
    confirm_enabled = false;
    valid_new_password = false;
    correct_old_password = unchecked;
    calls = [];
  }

  -- Modify::addPasswordError
  unfoldable pub add_password_error : String → Modify Pixmap → Modify Pixmap
  add_password_error error f =
      let rule =
        t.contains error "Min" || t.contains error "at least" || t.contains error "Empty" in
      let differ = t.contains error "match" in
      let bad = t.contains error "Wrong" in
      record f {
        icon_error_pass = true;
        icon_new_pass = rule || differ || f.icon_new_pass;
        error_new = rule || differ || f.error_new;
        error_confirm = differ || f.error_confirm;
        icon_old_pass = bad || f.icon_old_pass;
        error_old = bad || f.error_old;
        label_pass =
            if t.contains f.label_pass error
            then f.label_pass
            else if is_empty f.label_pass
            then error
            else f.label_pass +++ "\n" +++ error;
      }

  -- What the three functions below share: a message goes, and the icon with the last one.
  unfoldable pub drop_message : String → Modify Pixmap → Modify Pixmap
  drop_message pattern f =
      let label =
        if t.contains_re f.label_pass pattern
        then t.without_re f.label_pass pattern
        else f.label_pass in
      record f {
        label_pass = label;
        icon_error_pass = if is_empty label then false else f.icon_error_pass;
      }

  unfoldable pub clear_old_password_error : Modify Pixmap → Modify Pixmap
  unfolding drop_message
  clear_old_password_error f =
      drop_message wrong_pattern (record f { icon_old_pass = false; error_old = false })

  unfoldable pub clear_new_password_error : Modify Pixmap → Modify Pixmap
  unfolding drop_message
  clear_new_password_error f =
      let g =
        if not (t.contains f.label_pass "match")
        then record f { icon_new_pass = false; error_new = false }
        else f in
      drop_message rules_pattern g

  unfoldable pub clear_confirm_password_error : Modify Pixmap → Modify Pixmap
  unfolding drop_message
  clear_confirm_password_error f =
      let g =
        if not (t.contains f.label_pass "Min") && not (t.contains f.label_pass "at least")
        then record f { icon_new_pass = false; error_new = false }
        else f in
      drop_message match_pattern (record g { error_confirm = false })

  -- Modify::checkPassword
  unfoldable pub check_password : String → Modify Pixmap → Modify Pixmap
  unfolding add_password_error
  check_password password f =
      if no_units t password
      then f
      else let (success, message) = is_valid_password (t.units password) in
        if success
        then record f { valid_new_password = true }
        else add_password_error message (record f { valid_new_password = false })

  -- Modify::checkConfirmation; an empty confirmation passes.
  unfoldable pub check_confirmation : String → String → Modify Pixmap → Bool × Modify Pixmap
  unfolding add_password_error
  check_confirmation pass conf f =
      if not (no_units t conf) && f.valid_new_password && not (same pass conf)
      then (false, add_password_error "Passwords don't match" f)
      else (true, f)

  unfoldable pub on_confirm_pass_text_changed : Modify Pixmap → Modify Pixmap
  unfolding clear_confirm_password_error check_confirmation
  on_confirm_pass_text_changed f =
      let g = clear_confirm_password_error f in (check_confirmation g.new_pass g.confirm_pass g).1

  -- The field takes a text.
  unfoldable pub set_confirm : String → Modify Pixmap → Modify Pixmap
  unfolding on_confirm_pass_text_changed
  set_confirm s f =
      if same s f.confirm_pass
      then f
      else on_confirm_pass_text_changed (record f { confirm_pass = s })

  unfoldable pub on_new_pass_text_changed : String → Modify Pixmap → Modify Pixmap
  unfolding clear_new_password_error clear_confirm_password_error set_confirm check_password
      check_confirmation
  on_new_pass_text_changed arg f =
      let conf = f.confirm_pass in
      let g = clear_new_password_error f in
      if no_units t arg
      then clear_confirm_password_error (set_confirm "" (record g { confirm_enabled = false }))
      else let h = check_password arg g in
        if not h.confirm_enabled
        then record h { confirm_enabled = true }
        else if no_units t h.confirm_pass
        then h
        else (check_confirmation arg conf h).1

  unfoldable pub set_new : String → Modify Pixmap → Modify Pixmap
  unfolding on_new_pass_text_changed
  set_new s f =
      if same s f.new_pass then f else on_new_pass_text_changed s (record f { new_pass = s })

  unfoldable pub on_new_pass_editing_finished : Modify Pixmap → Modify Pixmap
  unfolding check_password check_confirmation clear_new_password_error
  on_new_pass_editing_finished f =
      let g = check_password f.new_pass f in
      if not g.valid_new_password
      then g
      else if no_units t g.confirm_pass
      then clear_new_password_error g
      else (check_confirmation f.new_pass g.confirm_pass g).1

  unfoldable pub on_confirm_pass_editing_finished : Modify Pixmap → Modify Pixmap
  unfolding check_confirmation
  on_confirm_pass_editing_finished f = (check_confirmation f.new_pass f.confirm_pass f).1

  unfoldable pub on_old_pass_text_changed : String → Modify Pixmap → Modify Pixmap
  unfolding clear_old_password_error clear_new_password_error set_new set_confirm
  on_old_pass_text_changed arg f =
      let g = clear_old_password_error (record f { correct_old_password = unchecked }) in
      if no_units t arg
      then set_confirm "" (
          set_new ""
            (clear_new_password_error (record g { new_enabled = false; confirm_enabled = false })))
      else record g { new_enabled = true }

  unfoldable pub set_old : String → Modify Pixmap → Modify Pixmap
  unfolding on_old_pass_text_changed
  set_old s f =
      if same s f.old_pass then f else on_old_pass_text_changed s (record f { old_pass = s })
