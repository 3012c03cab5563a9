-- ===== src/Client.antt =====
-- Client/client.h and Client/client.cpp: the client between the server and the editor. A Client keeps
-- its members and, in order, what it does to its socket and the signals that it emits. Qt's texts,
-- JSON documents, streams of symbols and images are parameters.
pub mod Requests
pub mod Answers
pub mod Contents
pub mod Messages
pub mod Relay
pub mod Typing
pub mod Login
pub mod Bulk
pub mod Deleting
use Prim.Native.String.{String}
use scriba.Prelude.{ℕ, Bool, List, [], ◌∷◌, ◌++◌, Option, none, some}
use scriba.Prelude.Int.{ℤ}
use scriba.Qt.{Text}
use scriba.Json.{Json, Fields, str, bool, value}
use scriba.Symbol.{Symbol}

-- simplified() and comparisons; toJson() and toJson(QJsonDocument::Compact); fromJson, `none` on a
-- parse error; the streams of a vector of symbols; loadFromData over a pixmap, save as PNG, the
-- pixmap at ":/images/anonymous" and a null one.
pub record ClientEnv (Pixmap : Type 0) : Type 0 where
  pub text : Text
  pub document : Fields → List ℕ
  pub compact : Fields → List ℕ
  pub parse : List ℕ → Option Json
  pub write_symbols : List Symbol → List ℕ
  pub read_symbols : List ℕ → List Symbol
  pub from_data : List ℕ → Pixmap → Pixmap
  pub png : Pixmap → List ℕ
  pub anonymous : Pixmap
  pub null_pixmap : Pixmap

-- The signals of client.h that the code emits.
pub data ClientSignal (Pixmap : Type 0) : Type 0 where
  logged_in signed_up : ClientSignal Pixmap
  correct_old_password success_update_password : ClientSignal Pixmap
  correct_new_file correct_opened_file add_crdt_terminator : ClientSignal Pixmap
  signup_error login_error wrong_old_password failed_update_password : String → ClientSignal Pixmap
  open_files_error wrong_new_file wrong_list_files wrong_shared_link : String → ClientSignal Pixmap
  existing_username success_username_check : String → ClientSignal Pixmap
  files_received : Bool → ClientSignal Pixmap
  remote_insert remote_align_change : Symbol → ClientSignal Pixmap
  remote_paste remote_erase remote_change : List Symbol → ClientSignal Pixmap
  remote_cursor : ℤ → Symbol → ClientSignal Pixmap
  users_connected_received : List ((String × String) × Pixmap) → ClientSignal Pixmap
  user_disconnected : String → String → ClientSignal Pixmap

-- `connect` is connectToServer, and `packet` is sendByteArray.
pub data Act (Pixmap : Type 0) : Type 0 where
  connect disconnect : Act Pixmap
  packet : List ℕ → Act Pixmap
  signal : ClientSignal Pixmap → Act Pixmap

pub record Client (Pixmap : Type 0) : Type 0 where
  pub is_logged_in : Bool
  pub username : String
  pub nickname : String
  pub profile : Pixmap
  pub files : List (String × String)
  pub openfile : String
  pub shared_link : String
  pub progress_counter : ℕ
  pub acts : List (Act Pixmap)

module _ {Pixmap : Type 0} where
  abbrev pub act : Act Pixmap → Client Pixmap → Client Pixmap
  act a c = record c { acts = c.acts ++ a ∷ [] }

  abbrev pub emit : ClientSignal Pixmap → Client Pixmap → Client Pixmap
  emit s c = act (signal s) c

-- value.isNull() || !value.isString(), and the same for isBool.
abbrev pub with_text {ℓ} : {A : Type ℓ} → Fields → String → A → (String → A) → A
with_text doc key otherwise k = elim (value doc key) [ some (str s) ↦ k s | _ ↦ otherwise ]

abbrev pub with_bool {ℓ} : {A : Type ℓ} → Fields → String → A → (Bool → A) → A
with_bool doc key otherwise k = elim (value doc key) [ some (bool b) ↦ k b | _ ↦ otherwise ]
