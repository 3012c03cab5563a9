-- ===== src/Forms/Modify/Saves.antt =====
-- What the save buttons of the form ask of the client, on every branch.
use mathlib.Core.List.{append-nil, append_assoc}
use Prim.Native.String.{String}
use scriba.Prelude.{
  ◌≡◌, refl, sym, ◌∙◌, ap, Bool, true, false, [], ◌∷◌, ◌++◌, arith, ◌&&◌, ◌||◌, not, if◌then◌else◌,
}
use scriba.Qt.{same, is_empty}
use scriba.Forms.{
  when, Texts, no_units, Call, check_old_password, update_password, update_nickname, popup,
}
use scriba.Forms.Password.{is_valid_password}
use scriba.Forms.Modify.{
  Modify, is_correct, is_unchecked, call, add_password_error, check_password, check_confirmation,
}
use scriba.Forms.Modify.Slots.{check_nickname, on_save_password_clicked, on_save_nickname_clicked}

passes_when_valid :
    (v c n s sure : Bool) → ((v && c) && (n || not v || s) && sure) ≡ (v && c && (n || s) && sure)
passes_when_valid true c n s sure = ground arith
passes_when_valid false c n s sure = refl

module _ {Pixmap : Type 0} (t : Texts) where
  -- Whether the form takes the new password for valid: an empty field leaves the verdict alone.
  abbrev pub verdict : Modify Pixmap → Bool
  verdict f =
      if no_units t f.new_pass
      then f.valid_new_password
      else (is_valid_password (t.units f.new_pass)).0

  check_password-parts :
      (f : Modify Pixmap)
      → ((check_password t f.new_pass f).calls ≡ f.calls)
        × ((check_password t f.new_pass f).correct_old_password ≡ f.correct_old_password)
        × ((check_password t f.new_pass f).valid_new_password ≡ verdict f)
  unfolding check_password add_password_error
  check_password-parts f = ground arith

  check_confirmation-parts :
      (p c : String) (f : Modify Pixmap)
      → ((check_confirmation t p c f).1.calls ≡ f.calls)
        × ((check_confirmation t p c f).0 ≡ (no_units t c || not f.valid_new_password || same p c))
  unfolding check_confirmation add_password_error
  check_confirmation-parts p c f = ground arith

  asked-parts :
      (b : Bool) (a : Call Pixmap) (f : Modify Pixmap)
      → ((if b then call t a f else f).calls ≡ f.calls ++ when b a)
        × ((if b then call t a f else f).correct_old_password ≡ f.correct_old_password)
        × ((if b then call t a f else f).valid_new_password ≡ f.valid_new_password)
  asked-parts true a f = (refl, refl, refl)
  asked-parts false a f = (sym (append-nil f.calls), refl, refl)

  finished :
      (v c sure : Bool) (a : Call Pixmap) (k h : Modify Pixmap)
      → k.calls ≡ h.calls
      → (if v then (if c && sure then call t a k else k) else h).calls
        ≡ h.calls ++ when (v && c && sure) a
  finished true true true a k h e = ap (λ l. l ++ a ∷ []) e
  finished true true false a k h e = e ∙ sym (append-nil h.calls)
  finished true false sure a k h e = e ∙ sym (append-nil h.calls)
  finished false c sure a k h e = sym (append-nil h.calls)

  -- Saving the password, whatever the form holds and the user answers: the client is asked about the
  -- old password if it has not been, and to change the password exactly when the form takes the new
  -- one for valid, the old one is known to be right, the user is sure, and the confirmation is
  -- empty or the same as the new password.
  pub on_save_password_clicked-calls :
      (sure : Bool) (f : Modify Pixmap)
      → (on_save_password_clicked t sure f).calls
        ≡ f.calls
          ++ when (is_unchecked f.correct_old_password) (check_old_password f.old_pass)
          ++ when
              (verdict f
                && is_correct f.correct_old_password
                && (no_units t f.confirm_pass || same f.new_pass f.confirm_pass)
                && sure)
              (update_password f.old_pass f.new_pass)
  unfolding on_save_password_clicked
  on_save_password_clicked-calls sure f =
      let g = check_password t f.new_pass f in
      let (calls, old, valid) = check_password-parts f in
      let asks = check_old_password f.old_pass in
      let h = if is_unchecked g.correct_old_password then call t asks g else g in
      let (asked, old', valid') = asked-parts (is_unchecked g.correct_old_password) asks g in
      let c = check_confirmation t f.new_pass f.confirm_pass h in
      let (same_calls, passes) = check_confirmation-parts f.new_pass f.confirm_pass h in
      let saves = update_password f.old_pass f.new_pass in
      let fits = no_units t f.confirm_pass || same f.new_pass f.confirm_pass in
      let v = valid' ∙ valid in
      let o = old' ∙ old in
      finished (h.valid_new_password && is_correct h.correct_old_password) c.0 sure saves c.1 h
        same_calls
      ∙ ap
          (λ l.
            l
            ++ when ((h.valid_new_password && is_correct h.correct_old_password) && c.0 && sure)
                saves)
          (asked
            ∙ ap (λ l. l ++ when (is_unchecked g.correct_old_password) asks) calls
            ∙ ap (λ b. f.calls ++ when (is_unchecked b) asks) old)
      ∙ ap (λ b. f.calls ++ when (is_unchecked f.correct_old_password) asks ++ when b saves)
          (ap (λ b. (h.valid_new_password && is_correct h.correct_old_password) && b && sure) passes
            ∙ passes_when_valid h.valid_new_password (is_correct h.correct_old_password)
                (no_units t f.confirm_pass) (same f.new_pass f.confirm_pass) sure
            ∙ ap (λ b. b && is_correct h.correct_old_password && fits && sure) v
            ∙ ap (λ b. verdict f && is_correct b && fits && sure) o)

  -- Saving the nickname: the client is asked to change it exactly when it is another one than the
  -- client's, is not empty, and the user is sure.
  pub on_save_nickname_clicked-calls :
      (original : String) (sure : Bool) (f : Modify Pixmap)
      → (on_save_nickname_clicked t original sure f).calls ≡ (
          if not (same f.nickname original) && not (is_empty f.nickname) && sure
          then f.calls ++ update_nickname f.nickname ∷ popup "Nickname correctly updated" ∷ []
          else f.calls)
  unfolding on_save_nickname_clicked check_nickname
  on_save_nickname_clicked-calls original sure f = ground (
    arith,
    append_assoc f.calls (update_nickname f.nickname ∷ [])
        (popup "Nickname correctly updated" ∷ []),
  )
