-- ===== src/Client/Login.antt =====
-- A login, from the server's answer to the client that is logged in.
use Prim.Native.String.{String}
use scriba.Prelude.{
  ℕ, ◌<◌, ◌≡◌, refl, sym, ◌∙◌, ap, true, false, List, [], ◌∷◌, ◌++◌, Option, none, some, arith, ok,
  subst, length, if◌then◌else◌, drop, ◌==◌,
}
use scriba.Qt.{is_empty}
use scriba.Json.{Json, null, num, arr, Fields, str, bool, obj, value, assign, to_bool}
use scriba.Server.{Server, Env, message, update_worker}
use scriba.Server.Frame.{
  images, block, payload, after_block, read_le32, create_byte_array_json_image,
}
use scriba.Server.Frame.Blocks.{block-read}
use scriba.Server.Accounts.{check_credentials, text_of, accept}
use scriba.Client.{ClientEnv, Client, logged_in, emit, signal}
use scriba.Client.Contents.{on_byte_array_received, login_answer}
use scriba.Client.Relay.{Words}

abbrev pub welcome : String → String → Fields
welcome username nickname =
    assign "nickname" (str nickname) (assign "username" (str username) (accept (message "login")))

module _ (e : Env) (sender : ℕ) (doc : Fields) (s : Server) where
  abbrev pub answer : Fields
  answer = (check_credentials e sender doc s).0

  abbrev pub after : Server
  after = (check_credentials e sender doc s).1

  -- An answer that says "success" names the user that the worker now stands for.
  abbrev Welcomes : Type 0
  Welcomes =
      (raw : String) × (is_empty (e.text.simplified raw) ≡ false)
      × ((after.worker sender).username ≡ e.text.simplified raw)
      × (answer ≡ welcome (e.text.simplified raw) (after.worker sender).nickname)

  from_username :
      (o : Option Json)
      → value doc "username" ≡ o
      → to_bool (value answer "success") ≡ true
      → Welcomes
  unfolding check_credentials text_of update_worker
  from_username none v h = absurd (ground (arith, v, h))
  from_username (some null) v h = absurd (ground (arith, v, h))
  from_username (some (bool b)) v h = absurd (ground (arith, v, h))
  from_username (some (num n)) v h = absurd (ground (arith, v, h))
  from_username (some (arr l)) v h = absurd (ground (arith, v, h))
  from_username (some (obj o)) v h = absurd (ground (arith, v, h))
  from_username (some (str raw)) v h =
      (raw, ground (arith, v, h), ground (arith, v, h), ground (arith, v, h))

login_received :
    {Pixmap : Type 0} (ce : ClientEnv Pixmap)
    → Words ce.text
    → (m : Fields) (b : List ℕ) (c : Client Pixmap) → value m "type" ≡ some (str "login")
    → ce.parse (payload b) ≡ some (obj m)
    → on_byte_array_received ce b c ≡ ok (login_answer ce m (after_block b) c)
unfolding on_byte_array_received
login_received ce words m b c type h = ground (
  arith,
  h,
  type,
  words.apart "login" "file_to_open" refl refl,
  words.apart "login" "connection" refl refl,
  words.apart "login" "login" refl refl,
)

-- A client that is not logged in, given an answer that welcomes a user.
welcomed :
    {Pixmap : Type 0} (ce : ClientEnv Pixmap) (user nick : String) (b : List ℕ) (c : Client Pixmap)
    → c.is_logged_in ≡ false
    → is_empty (ce.text.simplified user) ≡ false
    → is_empty (ce.text.simplified nick) ≡ false
    → (profile : Pixmap) × (login_answer ce (welcome user nick) b c
        ≡ emit logged_in (record c {
          is_logged_in = true;
          username = ce.text.simplified user;
          nickname = ce.text.simplified nick;
          profile = profile;
        }))
unfolding login_answer
welcomed ce user nick b c out h k = (
  if read_le32 b == 0 then c.profile else ce.from_data (drop 4 b) c.profile,
  ground (arith, out, h, k),
)

-- The same for a frame, and what the client then is.
welcome_received :
    {Pixmap : Type 0} (ce : ClientEnv Pixmap)
    → Words ce.text
    → (user nick : String) (m : Fields) (b : List ℕ) (c : Client Pixmap) → m ≡ welcome user nick
    → ce.parse (payload b) ≡ some (obj m)
    → c.is_logged_in ≡ false
    → is_empty (ce.text.simplified user) ≡ false
    → is_empty (ce.text.simplified nick) ≡ false
    → (c' : Client Pixmap) × (on_byte_array_received ce b c ≡ ok c')
      × (c'.is_logged_in ≡ true)
      × (c'.username ≡ ce.text.simplified user)
      × (c'.nickname ≡ ce.text.simplified nick)
      × (c'.acts ≡ c.acts ++ signal logged_in ∷ [])
welcome_received ce words user nick m b c shape parse out h k =
    let w = welcomed ce user nick (after_block b) c out h k in
    (
      emit logged_in (record c {
        is_logged_in = true;
        username = ce.text.simplified user;
        nickname = ce.text.simplified nick;
        profile = w.0;
      }),
      login_received ce words m b c (ap (λ m. value m "type") shape) parse
          ∙ ap ok (ap (λ m. login_answer ce m (after_block b) c) shape ∙ w.1),
      refl,
      refl,
      refl,
      refl,
    )

module _ {Pixmap : Type 0} (e : Env) (words : Words e.text) (ce : ClientEnv Pixmap)
    (same_text : e.text ≡ ce.text) where
  json_image :
      (m : Fields) (v : List (List ℕ))
      → create_byte_array_json_image e m v ≡ block (e.document m) ++ images v
  unfolding create_byte_array_json_image
  json_image m v = refl

  simplified_alike : (x : String) → e.text.simplified x ≡ ce.text.simplified x
  simplified_alike x = ap (λ t. t.simplified x) same_text

  -- The server accepts a user's name and password, with an answer that is written and read alike on
  -- both sides; simplifying a text twice is simplifying it once, and the user's nickname is not
  -- empty when simplified. A client that is not logged in takes the answer, with whatever images
  -- after it, and is then logged in under the name that the server's worker has for it and under its
  -- nickname, simplified, which it signals.
  pub login_answer-check_credentials :
      (sender : ℕ) (doc : Fields) (s : Server) (v : List (List ℕ)) (c : Client Pixmap)
      → to_bool (value (answer e sender doc s) "success") ≡ true
      → ce.parse (e.document (answer e sender doc s)) ≡ some (obj (answer e sender doc s))
      → length (e.document (answer e sender doc s)) < 4294967296
      → ((x : String) → e.text.simplified (e.text.simplified x) ≡ e.text.simplified x)
      → is_empty (e.text.simplified ((after e sender doc s).worker sender).nickname) ≡ false
      → c.is_logged_in ≡ false
      → (c' : Client Pixmap) × (on_byte_array_received ce
            (create_byte_array_json_image e (answer e sender doc s) v)
            c
          ≡ ok c')
        × (c'.is_logged_in ≡ true)
        × (c'.username ≡ ((after e sender doc s).worker sender).username)
        × (c'.nickname ≡ e.text.simplified ((after e sender doc s).worker sender).nickname)
        × (c'.acts ≡ c.acts ++ signal logged_in ∷ [])
  login_answer-check_credentials sender doc s v c h parse short idem nick out =
      let m = answer e sender doc s in
      let b = create_byte_array_json_image e m v in
      let (raw, named, user, shape) = from_username e sender doc s (value doc "username") refl h in
      let again = sym (simplified_alike (e.text.simplified raw)) ∙ idem raw in
      let nickname = ((after e sender doc s).worker sender).nickname in
      let (c', run, on, name, nick', acts) =
        welcome_received ce (subst Words same_text words) (e.text.simplified raw) nickname m b c
          shape
          (ap (λ x. ce.parse (payload x)) (json_image m v)
            ∙ ap ce.parse (block-read (e.document m) (images v) short).0
            ∙ parse)
          out (ap is_empty again ∙ named) (ap is_empty (sym (simplified_alike nickname)) ∙ nick) in
      (c', run, on, name ∙ again ∙ sym user, nick' ∙ sym (simplified_alike nickname), acts)
