-- ===== src/Examples/Rooms.antt =====
-- Three clients, two of them at the file "notes,ada".
use Prim.Native.String.{String}
use scriba.Prelude.{
  ℕ, ◌==◌, ◌≡◌, refl, List, [], ◌∷◌, ◌++◌, true, false, none, some, ok, if◌then◌else◌,
}
use scriba.Prelude.Int.{pos}
use scriba.Qt.{Text, same}
use scriba.Symbol.{Symbol}
use scriba.Mongo.{retrieve_file}
use scriba.Server.{Server, Env, json, broadcast, message}
use scriba.Server.Files.{save_all}
use scriba.Server.Files.Symbols.{save_all-retrieve, values}
use scriba.Server.Rooms.{sends, times, copies, receives, broadcast-receives}
use scriba.Examples.Documents.{symbol_at}

abbrev pub text : Text
text = record {
  simplified = λ s. s;
  same_word = λ a b. same a b;
  less = λ a b. false;
  split_last = λ s. ("notes", "ada");
  one_char = λ v. "a";
  first_unit = λ s. some 97;
  decimal = λ n. "0";
}

abbrev pub env : Env
env = record {
  text = text;
  codec = record {
    write = λ l. 1 ∷ 2 ∷ [];
    read = λ b. symbol_at 97 3 ∷ [];
    compress = λ b. b;
    uncompress = λ b. b;
  };
  crypto = record { hash = λ n p. some p; verify = λ h p. same h p; before_at = λ s. none };
  driver = record { throws_at = λ n. false; generate = λ n. n };
  image_key = λ s. s;
  document = λ m. 123 ∷ 125 ∷ [];
  parse = λ b. none;
  rounds = 1;
}

abbrev pub held : List (String × Symbol)
held = ("[0_0]", symbol_at 97 3) ∷ []

abbrev pub notes : String
notes = "notes,ada"

abbrev pub server : Server
server = record {
  ideal_thread_count = 2;
  threads_load = pos 2 ∷ pos 1 ∷ [];
  clients = 1 ∷ 2 ∷ 3 ∷ [];
  worker = λ w. record { username = "ada"; nickname = "ada"; filename = notes };
  map_file_workers = (notes, 1 ∷ 2 ∷ []) ∷ [];
  symbols_list = (notes, held) ∷ [];
  changed = (notes, true) ∷ [];
  db = record { users = []; images = []; bucket = (notes, []) ∷ []; calls = 0; draws = 0 };
  outbox = [];
}

save_all-retrieve_example :
    retrieve_file env.codec notes (save_all env server).db ≡ some (values env notes held)
save_all-retrieve_example = save_all-retrieve env notes server held refl refl refl refl

broadcast-receives_example :
    (s' : Server) × (broadcast (json (message "operation")) 1 server ≡ ok s')
    × ((c : ℕ)
        → receives c s'.outbox
          ≡ receives c server.outbox
            ++ (if c == 1 then [] else copies (times c (1 ∷ 2 ∷ [])) (json (message "operation"))))
    × (s' ≡ record server { outbox = s'.outbox })
broadcast-receives_example =
    broadcast-receives (json (message "operation")) 1 (1 ∷ 2 ∷ []) server refl

-- A client that has opened the file twice is sent everything twice.
abbrev twice : Server
twice = record server { map_file_workers = (notes, 1 ∷ 2 ∷ 2 ∷ []) ∷ [] }

sent_twice :
    receives 2 (sends 1 (json (message "operation")) (1 ∷ 2 ∷ 2 ∷ []))
    ≡ json (message "operation") ∷ json (message "operation") ∷ []
sent_twice = refl
