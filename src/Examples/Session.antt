-- ===== src/Examples/Session.antt =====
-- A user with an account, whose login reaches a client that is not logged in.
use scriba.Prelude.{ℕ, ◌≡◌, refl, [], ◌∷◌, ◌++◌, true, false, some, arith, ok, ap, sym}
use scriba.Qt.{is_empty}
use scriba.Json.{Fields, str, obj, value, assign, to_bool}
use scriba.Mongo.{User, login, find_user, attempt}
use scriba.Server.{Server, Env, update_worker, message}
use scriba.Server.Frame.{create_byte_array_json_image}
use scriba.Server.Accounts.{check_credentials, text_of, is_connected}
use scriba.Client.{ClientEnv, Client, logged_in, signal}
use scriba.Client.Contents.{on_byte_array_received}
use scriba.Client.Login.{answer, after, login_answer-check_credentials, welcome}
use scriba.Examples.Rooms.{env, server, notes}
use scriba.Examples.Relay.{counting, counting-Words, guest, reader}

abbrev bob : User
bob = record {
  username = "bob";
  nickname = "bobby";
  password = "loom";
  files = [];
  shared_with_me = [];
}

abbrev lobby : Server
lobby = record server {
  db = record { users = bob ∷ []; images = []; bucket = (notes, []) ∷ []; calls = 0; draws = 0 };
}

abbrev host : Env
host = record env { text = counting }

abbrev visitor : Client ℕ
visitor = record reader { is_logged_in = false; username = ""; nickname = ""; openfile = "" }

abbrev request : Fields
request = assign "password" (str "loom") (assign "username" (str "bob") (message "login"))

abbrev screen : ClientEnv ℕ
screen = record guest { parse = λ b. some (obj (welcome "bob" "bobby")) }

bob_welcomed : answer host 3 request lobby ≡ welcome "bob" "bobby"
unfolding check_credentials text_of is_connected login attempt find_user update_worker
bob_welcomed = refl

bob_named : ((after host 3 request lobby).worker 3).nickname ≡ "bobby"
unfolding check_credentials text_of is_connected login attempt find_user update_worker
bob_named = refl

login_answer-check_credentials_example :
    (c' : Client ℕ) × (on_byte_array_received screen
        (create_byte_array_json_image host (answer host 3 request lobby) ((7 ∷ []) ∷ []))
        visitor
      ≡ ok c')
    × (c'.is_logged_in ≡ true)
    × (c'.username ≡ ((after host 3 request lobby).worker 3).username)
    × (c'.nickname ≡ host.text.simplified ((after host 3 request lobby).worker 3).nickname)
    × (c'.acts ≡ visitor.acts ++ signal logged_in ∷ [])
login_answer-check_credentials_example =
    login_answer-check_credentials host counting-Words screen refl 3 request lobby ((7 ∷ []) ∷ [])
      visitor (ap (λ m. to_bool (value m "success")) bob_welcomed)
      (ap some (ap obj (sym bob_welcomed))) (omega arith) (λ x. refl) (ap is_empty bob_named) refl
