-- ===== src/Forms/Signup/Safe.antt =====
-- What keeps the requests of the signup form sound, slot by slot.
use Prim.Native.String.{String}
use scriba.Prelude.{
  ◌≡◌, refl, sym, ◌∙◌, ap, subst, ◌⊎◌, inl, inr, Bool, true, false, Bool-cases, [], ◌∷◌, arith,
  ◌&&◌, not, if◌then◌else◌,
}
use scriba.Qt.{same, is_empty}
use scriba.Order.Rank.{All, All-append}
use scriba.Forms.{Texts, no_units, Call, check_username, signup}
use scriba.Forms.Password.{is_valid_password, IsAcceptable, is_valid_password-IsAcceptable}
use scriba.Forms.Signup.{
  Signup, email_pattern, check_username_text, check_password, check_confirmation,
  on_confirm_password_text_changed, set_confirm, on_password_text_changed, set_password,
  on_username_text_changed, set_username, clear_pass_error, is_unchecked, call,
}
use scriba.Forms.Signup.Slots.{
  on_username_editing_finished, on_password_editing_finished, clear_line_edit,
}

module _ {Pixmap : Type 0} (t : Texts) where
  -- What a request to sign up may carry: a password that follows the rule, and a name that has the
  -- form of an e-mail address or is empty.
  abbrev pub IsSound : Call Pixmap → Type 0
  IsSound (signup username password image) =
      IsAcceptable (t.units password)
      × ((no_units t username ≡ true) ⊎ (t.matches email_pattern username ≡ true))
  IsSound _ = Unit

  -- While the form takes the password for valid, it is, or the field is empty.
  abbrev pub Checked : Signup Pixmap → Type 0
  Checked f = f.valid ≡ true → (no_units t f.password ≡ true) ⊎ IsAcceptable (t.units f.password)

  pub record IsSafe (f : Signup Pixmap) : Type 0 where
    pub checked : Checked f
    pub sound : All IsSound f.calls

  -- The same password, the same verdict on it and the same calls.
  unfoldable pub Same : Signup Pixmap → Signup Pixmap → Type 0
  Same f g = (g.password ≡ f.password) × (g.valid ≡ f.valid) × (g.calls ≡ f.calls)

  pub Same-IsSafe : (f g : Signup Pixmap) → Same f g → IsSafe f → IsSafe g
  unfolding Same
  Same-IsSafe f g (p, v, c) s = record {
    checked = λ h. elim (s.checked (sym v ∙ h)) [
      | inl e ↦ inl (ap (no_units t) p ∙ e)
      | inr a ↦ inr (subst (λ s. IsAcceptable (t.units s)) (sym p) a)
    ];
    sound = subst (All IsSound) (sym c) s.sound;
  }

  pub check_confirmation-Same :
      (p c : String) (f : Signup Pixmap) → Same f (check_confirmation t p c f).1
  unfolding check_confirmation Same
  check_confirmation-Same p c f = ground arith

  pub check_username_text-Same :
      (s : String) (f : Signup Pixmap) → Same f (check_username_text t s f).1
  unfolding check_username_text Same
  check_username_text-Same s f = ground arith

  pub on_confirm-Same : (f : Signup Pixmap) → Same f (on_confirm_password_text_changed t f)
  unfolding on_confirm_password_text_changed check_confirmation Same
  on_confirm-Same f = ground arith

  pub set_confirm-Same : (s : String) (f : Signup Pixmap) → Same f (set_confirm t s f)
  unfolding set_confirm Same
  set_confirm-Same s f = ground (arith, on_confirm-Same (record f { confirm = s }))

  pub set_username-Same : (s : String) (f : Signup Pixmap) → Same f (set_username t s f)
  unfolding set_username on_username_text_changed Same
  set_username-Same s f = ground arith

  pub check_password-parts :
      (p : String) (f : Signup Pixmap)
      → ((check_password t p f).password ≡ f.password)
        × ((check_password t p f).calls ≡ f.calls)
        × ((check_password t p f).valid
            ≡ (if no_units t p then f.valid else (is_valid_password (t.units p)).0))
  unfolding check_password
  check_password-parts p f = ground arith

  -- The password in the field is checked.
  pub check_password-IsSafe :
      (f : Signup Pixmap) → All IsSound f.calls → IsSafe (check_password t f.password f)
  check_password-IsSafe f sound =
      let (p, c, v) = check_password-parts f.password f in
      record {
        checked = λ h. elim (Bool-cases (no_units t f.password)) [
          | inl e ↦ inl (ap (no_units t) p ∙ e)
          | inr e ↦ inr (
              subst (λ s. IsAcceptable (t.units s)) (sym p)
                ((is_valid_password-IsAcceptable (t.units f.password)).0.0
                  (ground (arith, h, v, e))))
        ];
        sound = subst (All IsSound) (sym c) sound;
      }

  pub IsSafe-if :
      (b : Bool) {f g : Signup Pixmap}
      → (b ≡ true → IsSafe f)
      → (b ≡ false → IsSafe g)
      → IsSafe (if b then f else g)
  IsSafe-if true h k = h refl
  IsSafe-if false h k = k refl

  pub IsSafe-call :
      (a : Call Pixmap) (f : Signup Pixmap) → IsSound a → IsSafe f → IsSafe (call t a f)
  IsSafe-call a f h s = record {
    checked = s.checked;
    sound = All-append IsSound f.calls (a ∷ []) s.sound (h, tt);
  }

  pub on_password-IsSafe :
      (f : Signup Pixmap) → All IsSound f.calls → IsSafe (on_password_text_changed t f.password f)
  unfolding on_password_text_changed Same
  on_password-IsSafe f sound =
      let g : Signup Pixmap = clear_pass_error t f in
      let h = check_password t f.password g in
      let w = check_password-IsSafe g sound in
      IsSafe-if (no_units t f.password)
        (λ e.
          Same-IsSafe (record g { confirm_enabled = false }) _
            (set_confirm-Same "" (record g { confirm_enabled = false }))
            (record { checked = λ v. inl e; sound = sound }))
        (λ _.
          IsSafe-if (not h.confirm_enabled)
            (λ _. Same-IsSafe h (record h { confirm_enabled = true }) (refl, refl, refl) w)
            (λ _.
              IsSafe-if (no_units t h.confirm) (λ _. w)
                (λ _. Same-IsSafe h _ (check_confirmation-Same f.password f.confirm h) w)))

  pub set_password-IsSafe :
      (s : String) (f : Signup Pixmap) → IsSafe f → IsSafe (set_password t s f)
  unfolding set_password
  set_password-IsSafe s f w =
      IsSafe-if (same s f.password) (λ _. w)
        (λ _. on_password-IsSafe (record f { password = s }) w.sound)

  pub clear_line_edit-IsSafe : (f : Signup Pixmap) → IsSafe f → IsSafe (clear_line_edit t f)
  unfolding clear_line_edit
  clear_line_edit-IsSafe f w =
      let g = set_username t "" f in
      let h = set_password t "" g in
      Same-IsSafe h _ (set_confirm-Same "" h)
        (set_password-IsSafe "" g (Same-IsSafe f g (set_username-Same "" f) w))

  pub on_password_finished-IsSafe :
      (f : Signup Pixmap) → IsSafe f → IsSafe (on_password_editing_finished t f)
  unfolding on_password_editing_finished Same
  on_password_finished-IsSafe f w =
      let g = check_password t f.password f in
      let v = check_password-IsSafe f w.sound in
      IsSafe-if (not g.valid) (λ _. v)
        (λ _.
          IsSafe-if (no_units t g.confirm)
            (λ _. Same-IsSafe g (clear_pass_error t g) (refl, refl, refl) v)
            (λ _. Same-IsSafe g _ (check_confirmation-Same f.password g.confirm g) v))

  pub on_username_finished-IsSafe :
      (f : Signup Pixmap) → IsSafe f → IsSafe (on_username_editing_finished t f)
  unfolding on_username_editing_finished
  on_username_finished-IsSafe f w =
      let g = (check_username_text t f.username f).1 in
      let v = Same-IsSafe f g (check_username_text-Same f.username f) w in
      IsSafe-if (not (no_units t f.username) && is_unchecked g.inuse_username)
        (λ _. IsSafe-call (check_username f.username) g tt v) (λ _. v)

  -- A password that is confirmed while it is taken for valid is that of the confirmation.
  pub confirmed :
      (p c : String) (f : Signup Pixmap)
      → f.valid ≡ true
      → (check_confirmation t p c f).0 ≡ true
      → (is_empty c ≡ false) × (same p c ≡ true)
  unfolding check_confirmation
  confirmed p c f v h = (ground (arith, v, h), ground (arith, v, h))

  pub named :
      (s : String) (f : Signup Pixmap)
      → (check_username_text t s f).0 ≡ true
      → (no_units t s ≡ true) ⊎ (t.matches email_pattern s ≡ true)
  unfolding check_username_text
  named s f h = ground (arith, h)
