-- ===== src/Forms.antt =====
-- The forms of the client: what Client/login.cpp, Client/signup.cpp and Client/modify.cpp ask of the client, and when.
-- The texts of the fields and labels, what is enabled and shown, and the members of a form are its
-- state; drawing, pop-ups' timers and file dialogs are left out. A field that gets another text
-- emits textChanged, as QLineEdit does, and the handler runs at once.
pub mod Password
pub mod Login
pub mod Signup
pub mod Modify
use Prim.Native.String.{String}
use scriba.Prelude.{ℕ, Bool, true, false, List, [], ◌∷◌, Option, length, ◌==◌}

-- What the forms take from Qt: the UTF-16 units of a text, QString::contains, the match of a
-- QRegularExpression, given by its pattern, and for a QRegExp whether a text contains it and the text
-- without it.
pub record Texts : Type 0 where
  pub units : String → List ℕ
  pub contains : String → String → Bool
  pub matches : String → String → Bool
  pub contains_re : String → String → Bool
  pub without_re : String → String → String

-- size() == 0
abbrev pub no_units : Texts → String → Bool
no_units t s = length (t.units s) == 0

-- A list of one element or none.
abbrev pub when {ℓ} : {A : Type ℓ} → Bool → A → List A
when true a = a ∷ []
when false a = []

-- What a form asks of the client, in order, the widget that it changes to, and its pop-ups.
pub data Call (Pixmap : Type 0) : Type 0 where
  check_username : String → Call Pixmap
  signup : String → String → Option Pixmap → Call Pixmap
  login : String → String → Call Pixmap
  check_old_password : String → Call Pixmap
  update_password : String → String → Call Pixmap
  update_nickname : String → Call Pixmap
  override_profile_image : Pixmap → Call Pixmap
  disconnect : Call Pixmap
  send_profile_image : Call Pixmap
  change_to_login change_to_home change_to_signup : Call Pixmap
  popup : String → Call Pixmap
