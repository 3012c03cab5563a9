-- ===== src/Forms/Signup/Asks.antt =====
-- The signup button on every branch.
use mathlib.Core.List.{append-nil}
use Prim.Native.String.{String}
use scriba.Prelude.{
  ◌≡◌, refl, sym, ◌∙◌, ap, Bool, true, false, ◌++◌, Option, some, none, arith, ◌&&◌, ◌||◌, not,
  if◌then◌else◌,
}
use scriba.Qt.{same, is_empty}
use scriba.Forms.{when, Texts, no_units, Call, check_username, signup}
use scriba.Forms.Signup.{
  Signup, email_pattern, is_used, is_unchecked, call, check_username_text, check_confirmation,
}
use scriba.Forms.Signup.Slots.{submit, on_signup_clicked}

module _ {Pixmap : Type 0} (t : Texts) where
  abbrev pub image_of : Signup Pixmap → Option Pixmap
  image_of f = if f.photo then some f.profile else none

  -- Whether the fields and what the form knows let it ask for the account.
  abbrev pub ready : String → String → Signup Pixmap → Bool
  ready p c f = f.valid && not (is_used f.inuse_username) && not (is_empty c) && same p c

  submit-calls :
      (u p c : String) (f : Signup Pixmap)
      → (submit t u p c f).calls ≡ f.calls ++ when (ready p c f) (signup u p (image_of f))
  unfolding submit check_confirmation
  submit-calls u p c f = ground (arith, append-nil f.calls)

  -- The parts of a form that its requests depend on.
  Alike : Signup Pixmap → Signup Pixmap → Type 0
  Alike f g =
      (g.valid ≡ f.valid)
      × (g.inuse_username ≡ f.inuse_username)
      × (g.photo ≡ f.photo)
      × (g.profile ≡ f.profile)

  checked_name :
      (u : String) (f : Signup Pixmap)
      → ((check_username_text t u f).0 ≡ (no_units t u || t.matches email_pattern u))
        × ((check_username_text t u f).1.calls ≡ f.calls)
        × Alike f (check_username_text t u f).1
  unfolding check_username_text Alike
  checked_name u f = ground arith

  asked :
      (b : Bool) (a : Call Pixmap) (f : Signup Pixmap)
      → ((if b then call t a f else f).calls ≡ f.calls ++ when b a)
        × Alike f (if b then call t a f else f)
  unfolding Alike
  asked true a f = (refl, (refl, refl, refl, refl))
  asked false a f = (sym (append-nil f.calls), (refl, refl, refl, refl))

  ready-Alike : (p c : String) (f g : Signup Pixmap) → Alike f g → ready p c g ≡ ready p c f
  unfolding Alike
  ready-Alike p c f g (v, s, _, _) = ground (arith, v, s)

  image_of-Alike : (f g : Signup Pixmap) → Alike f g → image_of g ≡ image_of f
  unfolding Alike
  image_of-Alike f g (_, _, p, q) = ground (arith, p, q)

  chosen :
      (n r : Bool) (a : Call Pixmap) (g h : Signup Pixmap)
      → g.calls ≡ h.calls ++ when r a
      → (if n then g else h).calls ≡ h.calls ++ when (n && r) a
  chosen true r a g h e = e
  chosen false r a g h e = sym (append-nil h.calls)

  -- The signup button, whatever the form holds: the client is asked whether the name is in use if the
  -- form does not know, and to sign up exactly when the name is empty or has the form of an e-mail
  -- address, is not known to be in use, the password is taken for valid, and the confirmation is not
  -- empty and the same as the password; the image goes with it if one was chosen.
  pub on_signup_clicked-calls :
      (f : Signup Pixmap)
      → (on_signup_clicked t f).calls
        ≡ f.calls
          ++ when (is_unchecked f.inuse_username) (check_username f.username)
          ++ when
              ((no_units t f.username || t.matches email_pattern f.username)
                && ready f.password f.confirm f)
              (signup f.username f.password (image_of f))
  unfolding on_signup_clicked
  on_signup_clicked-calls f =
      let asks = check_username f.username in
      let u = is_unchecked f.inuse_username in
      let g = if u then call t asks f else f in
      let (calls, like) = asked u asks f in
      let (named, calls', like') = checked_name f.username g in
      let h = (check_username_text t f.username g).1 in
      let r =
        ready-Alike f.password f.confirm g h like' ∙ ready-Alike f.password f.confirm f g like in
      let i = image_of-Alike g h like' ∙ image_of-Alike f g like in
      let before = calls' ∙ calls in
      let fits = no_units t f.username || t.matches email_pattern f.username in
      chosen (check_username_text t f.username g).0 (ready f.password f.confirm h)
        (signup f.username f.password (image_of h)) (submit t f.username f.password f.confirm h) h
        (submit-calls f.username f.password f.confirm h)
      ∙ ap
          (λ l.
            l
            ++ when ((check_username_text t f.username g).0 && ready f.password f.confirm h)
                (signup f.username f.password (image_of h)))
          before
      ∙ ap
          (λ n.
            (f.calls ++ when u asks)
            ++ when (n && ready f.password f.confirm h) (signup f.username f.password (image_of h)))
          named
      ∙ ap
          (λ b.
            (f.calls ++ when u asks)
            ++ when (fits && b) (signup f.username f.password (image_of h)))
          r
      ∙ ap
          (λ m.
            (f.calls ++ when u asks)
            ++ when (fits && ready f.password f.confirm f) (signup f.username f.password m))
          i
