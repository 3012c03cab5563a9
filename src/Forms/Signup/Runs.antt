-- ===== src/Forms/Signup/Runs.antt =====
-- Runs of the signup form: what the client is asked to sign up with.
use Prim.Native.String.{String}
use text.Mathlib.TextEquality.{eq_iff}
use scriba.Prelude.{
  ◌≡◌, refl, sym, ◌∙◌, ap, subst, ◌⊎◌, inl, inr, Bool, true, false, List, [], ◌∷◌, none, some,
  arith, ◌&&◌, not, if◌then◌else◌,
}
use scriba.Qt.{is_empty}
use scriba.Order.Rank.{All}
use scriba.Forms.{Texts, no_units, Call, check_username, signup, disconnect, change_to_login, popup}
use scriba.Forms.Password.{IsAcceptable}
use scriba.Forms.Signup.{
  Signup, email_pattern, new_signup, check_username_text, check_confirmation, is_unchecked, is_used,
  call, used,
}
use scriba.Forms.Signup.Slots.{
  Event, handle, run, on_confirm_password_editing_finished, on_signup_clicked, submit,
  clear_line_edit, clear_label, signed_up, signup_failed, on_back_login_clicked, enable_all_buttons,
  on_profile_image_clicked, on_failed_username_check, on_success_username_check, typed_username,
  typed_password, typed_confirm, username_finished, password_finished, confirm_finished,
  signup_clicked, back_clicked, done, enabled, failed, name_in_use, name_free, image_clicked,
}
use scriba.Forms.Signup.Safe.{
  IsSafe, IsSafe-call, IsSafe-if, IsSound, Same, Same-IsSafe, check_confirmation-Same,
  check_username_text-Same, clear_line_edit-IsSafe, confirmed, named, on_password_finished-IsSafe,
  on_username_finished-IsSafe, set_confirm-Same, set_password-IsSafe, set_username-Same,
}

module _ {Pixmap : Type 0} (t : Texts) where
  module _ (faithful : (s : String) → no_units t s ≡ true → is_empty s ≡ true) where
    acceptable :
        (f : Signup Pixmap) (c : String)
        → IsSafe t f
        → f.valid ≡ true
        → (check_confirmation t f.password c f).0 ≡ true
        → IsAcceptable (t.units f.password)
    acceptable f c w v h =
        let (full, eq) = confirmed t f.password c f v h in
        elim (w.checked v) [
          | inr a ↦ a
          | inl e ↦ absurd (ground (arith, faithful f.password e, full, eq_iff f.password c, eq))
        ]

    asked-password :
        (b : Bool) (a : Call Pixmap) (f : Signup Pixmap)
        → (if b then call t a f else f).password ≡ f.password
    asked-password true a f = refl
    asked-password false a f = refl

    submit-IsSafe :
        (u p c : String) (f : Signup Pixmap)
        → p ≡ f.password
        → (no_units t u ≡ true) ⊎ (t.matches email_pattern u ≡ true)
        → IsSafe t f
        → IsSafe t (submit t u p c f)
    unfolding submit Same
    submit-IsSafe u p c f e n w =
        let g = (check_confirmation t p c f).1 in
        let v = Same-IsSafe t f g (check_confirmation-Same t p c f) w in
        IsSafe-if t (f.valid && not (is_used f.inuse_username))
          (λ h.
            IsSafe-if t ((check_confirmation t p c f).0)
              (λ k.
                IsSafe-call t (signup u p (if g.photo then some g.profile else none))
                  (record g { signup_enabled = false; back_enabled = false })
                  (
                    subst (λ s. IsAcceptable (t.units s)) (sym e)
                        (acceptable f c w (ground (arith, h))
                          (ap (λ s. (check_confirmation t s c f).0) (sym e) ∙ k)),
                    n,
                  )
                  (Same-IsSafe t g (record g { signup_enabled = false; back_enabled = false })
                    (refl, refl, refl) v))
              (λ _. v))
          (λ _. w)

    on_signup_clicked-IsSafe : (f : Signup Pixmap) → IsSafe t f → IsSafe t (on_signup_clicked t f)
    unfolding on_signup_clicked Same
    on_signup_clicked-IsSafe f w =
        let g = if is_unchecked f.inuse_username then call t (check_username f.username) f else f in
        let v =
          IsSafe-if t (is_unchecked f.inuse_username)
            (λ _. IsSafe-call t (check_username f.username) f tt w) (λ _. w) in
        let h = (check_username_text t f.username g).1 in
        let same_h = check_username_text-Same t f.username g in
        let x = Same-IsSafe t g h same_h v in
        IsSafe-if t ((check_username_text t f.username g).0)
          (λ k.
            submit-IsSafe f.username f.password f.confirm h
              (sym (
                same_h.0
                ∙ asked-password (is_unchecked f.inuse_username) (check_username f.username) f))
              (named t f.username g k) x)
          (λ _. x)

    signed_up-IsSafe : (f : Signup Pixmap) → IsSafe t f → IsSafe t (signed_up t f)
    unfolding signed_up Same
    signed_up-IsSafe f w =
        let g = clear_line_edit t (record f { signup_enabled = true; back_enabled = true }) in
        let v =
          clear_line_edit-IsSafe t (record f { signup_enabled = true; back_enabled = true })
            (Same-IsSafe t f (record f { signup_enabled = true; back_enabled = true })
              (refl, refl, refl) w) in
        let h : Signup Pixmap = record g {
          error_pass = false;
          error_confirm = false;
          error_user = false;
          label_pass = "";
          icon_user = false;
          icon_pass = false;
          photo = false;
        } in
        IsSafe-call t change_to_login (call t (popup "Correctly signed up") (call t disconnect h))
          tt
          (IsSafe-call t (popup "Correctly signed up") (call t disconnect h) tt
            (IsSafe-call t disconnect h tt (Same-IsSafe t g h (refl, refl, refl) v)))

    signup_failed-IsSafe :
        (reason : String) (f : Signup Pixmap) → IsSafe t f → IsSafe t (signup_failed t reason f)
    unfolding signup_failed clear_label Same
    signup_failed-IsSafe reason f w =
        let g = call t disconnect f in
        let v = IsSafe-call t disconnect f tt w in
        let h =
          if t.contains reason "username"
          then record g {
            label_user = reason;
            icon_user = true;
            error_user = true;
            inuse_username = used;
          }
          else record g {
            label_pass = reason;
            error_pass = true;
            error_confirm = true;
            icon_pass = true;
          } in
        let x =
          IsSafe-if t (t.contains reason "username") (λ _. Same-IsSafe t g _ (refl, refl, refl) v)
            (λ _. Same-IsSafe t g _ (refl, refl, refl) v) in
        let told = call t (popup "Failed sign up") h in
        let cleared = clear_line_edit t (clear_label t told) in
        Same-IsSafe t cleared _ (refl, refl, refl)
          (clear_line_edit-IsSafe t (clear_label t told) (
            Same-IsSafe t told _ (refl, refl, refl)
              (IsSafe-call t (popup "Failed sign up") h tt x)))

    on_back_clicked-IsSafe : (f : Signup Pixmap) → IsSafe t f → IsSafe t (on_back_login_clicked t f)
    unfolding on_back_login_clicked clear_label Same
    on_back_clicked-IsSafe f w =
        let g = clear_line_edit t (clear_label t f) in
        IsSafe-call t change_to_login (record g { photo = false }) tt
          (Same-IsSafe t g _ (refl, refl, refl)
            (clear_line_edit-IsSafe t (clear_label t f) (Same-IsSafe t f _ (refl, refl, refl) w)))

    answered-Same :
        (s : String) (f : Signup Pixmap)
        → Same t f (on_failed_username_check t s f) × Same t f (on_success_username_check t s f)
    unfolding on_failed_username_check on_success_username_check Same
    answered-Same s f = ground arith

    handle-IsSafe : (e : Event Pixmap) (f : Signup Pixmap) → IsSafe t f → IsSafe t (handle t e f)
    unfolding handle enable_all_buttons on_profile_image_clicked
        on_confirm_password_editing_finished Same
    handle-IsSafe (typed_username s) f w = Same-IsSafe t f _ (set_username-Same t s f) w
    handle-IsSafe (typed_password s) f w = set_password-IsSafe t s f w
    handle-IsSafe (typed_confirm s) f w = Same-IsSafe t f _ (set_confirm-Same t s f) w
    handle-IsSafe username_finished f w = on_username_finished-IsSafe t f w
    handle-IsSafe password_finished f w = on_password_finished-IsSafe t f w
    handle-IsSafe confirm_finished f w =
        Same-IsSafe t f _ (check_confirmation-Same t f.password f.confirm f) w
    handle-IsSafe signup_clicked f w = on_signup_clicked-IsSafe f w
    handle-IsSafe back_clicked f w = on_back_clicked-IsSafe f w
    handle-IsSafe done f w = signed_up-IsSafe f w
    handle-IsSafe enabled f w = Same-IsSafe t f _ (refl, refl, refl) w
    handle-IsSafe (failed reason) f w = signup_failed-IsSafe reason f w
    handle-IsSafe (name_in_use s) f w = Same-IsSafe t f _ (answered-Same s f).0 w
    handle-IsSafe (name_free s) f w = Same-IsSafe t f _ (answered-Same s f).1 w
    handle-IsSafe (image_clicked none) f w = w
    handle-IsSafe (image_clicked (some image)) f w = Same-IsSafe t f _ (refl, refl, refl) w

    run-IsSafe : (es : List (Event Pixmap)) (f : Signup Pixmap) → IsSafe t f → IsSafe t (run t es f)
    unfolding run
    run-IsSafe [] f w = w
    run-IsSafe (e ∷ es) f w = run-IsSafe es (handle t e f) (handle-IsSafe e f w)

    -- A text without units is the empty text. Whatever happens to a new signup form, in any order,
    -- each request to sign up that it makes of the client carries a password that follows the rule
    -- and a name that has the form of an e-mail address or is empty.
    pub run-IsSound :
        (es : List (Event Pixmap)) (anonymous : Pixmap)
        → All (IsSound t) (run t es (new_signup t anonymous)).calls
    unfolding new_signup
    run-IsSound es anonymous =
        (run-IsSafe es (new_signup t anonymous) (record { checked = λ v. cc; sound = tt })).sound
