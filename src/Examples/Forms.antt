-- ===== src/Examples/Forms.antt =====
-- An account that is asked for, and a password that is changed without its confirmation.
use Prim.Native.Char.{code}
use Prim.Native.String.{String, ◌∷◌ as ◌∷ₛ◌, [] as empty_text}
use scriba.Prelude.{
  ℕ, ◌≡◌, refl, ◌↔◌, true, false, List, [], ◌∷◌, ◌++◌, none, arith, ◌==◌, ◌&&◌, ◌||◌,
}
use scriba.Qt.{same, is_empty}
use scriba.Order.Rank.{All}
use scriba.Forms.{
  Texts, no_units, when, check_username, signup, check_old_password, update_password,
}
use scriba.Forms.Password.{
  IsAcceptable, is_valid_password, is_valid_password-IsAcceptable, some_unit,
}
use scriba.Forms.Signup.{
  Signup, free, new_signup, set_username, set_password, set_confirm, is_unchecked, email_pattern,
  check_username_text, check_password, check_confirmation, on_password_text_changed,
  on_username_text_changed, on_confirm_password_text_changed,
}
use scriba.Forms.Signup.Slots.{
  Event, run, typed_username, typed_password, typed_confirm, name_free, signup_clicked, handle,
  on_signup_clicked, submit, on_success_username_check,
}
use scriba.Forms.Signup.Asks.{image_of, ready, on_signup_clicked-calls}
use scriba.Forms.Signup.Safe.{IsSound}
use scriba.Forms.Signup.Runs.{run-IsSound}
use scriba.Forms.Modify.{Modify, correct, is_correct, is_unchecked as is_unchecked_old}
use scriba.Forms.Modify.Slots.{on_save_password_clicked}
use scriba.Forms.Modify.Saves.{verdict, on_save_password_clicked-calls}

abbrev codes : String → List ℕ
codes empty_text = []
codes (c ∷ₛ s) = code c ∷ codes s

abbrev texts : Texts
texts = record {
  units = codes;
  contains = λ s p. same s p;
  matches = λ p s. some_unit (λ c. c == 64) (codes s);
  contains_re = λ s p. false;
  without_re = λ s p. s;
}

faithful : (s : String) → no_units texts s ≡ true → is_empty s ≡ true
faithful empty_text h = refl
faithful (c ∷ₛ s) h = absurd (ground (arith, h))

is_valid_password-IsAcceptable_example :
    (((is_valid_password (codes "Engine-1842")).0 ≡ true) ↔ IsAcceptable (codes "Engine-1842"))
    × ((is_valid_password (codes "Engine-1842")).0 ≡ true
        → (is_valid_password (codes "Engine-1842")).1 ≡ "")
is_valid_password-IsAcceptable_example = is_valid_password-IsAcceptable (codes "Engine-1842")

abbrev filled : List (Event ℕ)
filled =
    typed_username "ada@analytical.uk"
    ∷ typed_password "Engine-1842"
    ∷ typed_confirm "Engine-1842"
    ∷ name_free "ada@analytical.uk"
    ∷ signup_clicked
    ∷ []

-- The form does ask for the account.
asked :
    (run texts filled (new_signup texts 0)).calls
    ≡ signup "ada@analytical.uk" "Engine-1842" none ∷ []
unfolding run handle new_signup set_username set_password set_confirm on_signup_clicked submit
    check_username_text check_password check_confirmation on_password_text_changed
    on_username_text_changed on_confirm_password_text_changed on_success_username_check
    is_valid_password
asked = refl

run-IsSound_example : All (IsSound texts) (run texts filled (new_signup texts 0)).calls
run-IsSound_example = run-IsSound texts faithful filled 0

abbrev ada_form : Signup ℕ
ada_form = record {
  username = "ada@analytical.uk";
  password = "Engine-1842";
  confirm = "Engine-1842";
  label_user = "";
  label_pass = "";
  icon_user = false;
  icon_pass = false;
  error_user = false;
  error_pass = false;
  error_confirm = false;
  confirm_enabled = true;
  signup_enabled = true;
  back_enabled = true;
  valid = true;
  inuse_username = free;
  photo = false;
  profile = 0;
  calls = [];
}

on_signup_clicked-calls_example :
    (on_signup_clicked texts ada_form).calls
    ≡ ada_form.calls
      ++ when (is_unchecked ada_form.inuse_username) (check_username ada_form.username)
      ++ when
          ((no_units texts ada_form.username || texts.matches email_pattern ada_form.username)
            && ready texts ada_form.password ada_form.confirm ada_form)
          (signup ada_form.username ada_form.password (image_of texts ada_form))
on_signup_clicked-calls_example = on_signup_clicked-calls texts ada_form

abbrev unconfirmed : Modify ℕ
unconfirmed = record {
  old_pass = "Engine-1842";
  new_pass = "Engine-1843";
  confirm_pass = "";
  nickname = "ada";
  label_pass = "";
  label_nick = "";
  icon_error_pass = false;
  icon_old_pass = false;
  icon_new_pass = false;
  icon_error_nick = false;
  error_old = false;
  error_new = false;
  error_confirm = false;
  error_nickname = false;
  new_enabled = true;
  confirm_enabled = true;
  valid_new_password = true;
  correct_old_password = correct;
  calls = [];
}

on_save_password_clicked-calls_example :
    (on_save_password_clicked texts true unconfirmed).calls
    ≡ unconfirmed.calls
      ++ when
          (is_unchecked_old unconfirmed.correct_old_password)
          (check_old_password unconfirmed.old_pass)
      ++ when
          (verdict texts unconfirmed
            && is_correct unconfirmed.correct_old_password
            && (no_units texts unconfirmed.confirm_pass
                || same unconfirmed.new_pass unconfirmed.confirm_pass)
            && true)
          (update_password unconfirmed.old_pass unconfirmed.new_pass)
on_save_password_clicked-calls_example = on_save_password_clicked-calls texts true unconfirmed
