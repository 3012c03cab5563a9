-- ===== src/Server/Files/Symbols.antt =====
-- The symbols that the server holds in memory, and their way to the database and back.
use Prim.Native.String.{String}
use text.Mathlib.TextEquality.{eq_iff}
use scriba.Prelude.{
  ◌≡◌, refl, ◌∙◌, ap, ◌≢◌, List, [], ◌∷◌, none, some, arith, true, false, Bool-cases, inl, inr,
  if◌then◌else◌, map, ok,
}
use scriba.Qt.{same, find, has, put, erase_key, find-put, find-erase_key}
use scriba.Symbol.{Symbol}
use scriba.Symbol.Print.{position_string}
use scriba.Mongo.{save_file, retrieve_file}
use scriba.Server.{Server, Env}
use scriba.Server.Files.{store_symbol, remove_symbol, save_one, save_files, save_all}
use scriba.Server.Accounts.{with_db}

module _ (e : Env) (filename : String) where
  -- For a file in memory, storing a symbol and then removing one at the same position text leaves
  -- every other position text as it was and that one free; in between the stored symbol is found
  -- there, in place of what was there before. The other files in memory are as they were throughout.
  pub store-remove :
      (x : Symbol) (symbols : List (String × Symbol)) (s : Server)
      → find filename s.symbols_list ≡ some symbols
      → (s1 : Server) × (s2 : Server) × (m1 : List (String × Symbol)) × (m2 : List
          (String × Symbol))
        × (store_symbol e filename x s ≡ ok s1)
        × (remove_symbol e filename x s1 ≡ ok s2)
        × (find filename s1.symbols_list ≡ some m1)
        × (find filename s2.symbols_list ≡ some m2)
        × ((k : String)
            → (find k m1 ≡ (if same (position_string e.text x) k then some x else find k symbols))
              × (find k m2 ≡ (if same (position_string e.text x) k then none else find k symbols)))
        × ((other : String)
            → (find other s1.symbols_list
                ≡ (if same filename other then some m1 else find other s.symbols_list))
              × (find other s2.symbols_list
                  ≡ (if same filename other then some m2 else find other s.symbols_list)))
  unfolding store_symbol remove_symbol
  store-remove x symbols s there =
      let p = position_string e.text x in
      let m1 = put e.text.less p x symbols in
      let m2 = erase_key p m1 in
      let l1 = put e.text.less filename m1 s.symbols_list in
      let l2 = put e.text.less filename m2 l1 in
      let f1 = find-put e.text.less filename filename m1 s.symbols_list in
      let f2 = find-put e.text.less filename filename m2 l1 in
      (
        record s { symbols_list = l1 },
        record s { symbols_list = l2 },
        m1,
        m2,
        rw there refl,
        ground (arith, f1, eq_iff filename filename),
        ground (arith, f1, eq_iff filename filename),
        ground (arith, f2, eq_iff filename filename),
        λ k. (
          find-put e.text.less p k x symbols,
          ground (arith, find-put e.text.less p k x symbols, find-erase_key p k m1),
        ),
        λ other. (
          find-put e.text.less filename other m1 s.symbols_list,
          ground (
            arith,
            find-put e.text.less filename other m1 s.symbols_list,
            find-put e.text.less filename other m2 l1,
          ),
        ),
      )

  abbrev pub values : List (String × Symbol) → List Symbol
  values m = map (λ p. p.1) m

  save_one-changed :
      (f : String) (m : List (String × Symbol)) (s : Server)
      → find filename (save_one e f m s).changed
        ≡ (if same f filename then some false else find filename s.changed)
  unfolding save_one
  save_one-changed f m s = ground (
    arith,
    find-put e.text.less f filename false s.changed,
    find-put e.text.less f filename false
        (with_db s
          (save_file e.text f (e.codec.compress (e.codec.write (values m))) s.db).1).changed,
  )

  save_one-other :
      (f : String) (m : List (String × Symbol)) (s : Server)
      → f ≢ filename
      → find filename (save_one e f m s).db.bucket ≡ find filename s.db.bucket
  unfolding save_one save_file
  save_one-other f m s h = ground (
    arith,
    find-put e.text.less f filename (e.codec.compress (e.codec.write (values m))) s.db.bucket,
    eq_iff f filename,
  )

  save_one-unchanged :
      (m : List (String × Symbol)) (s : Server)
      → find filename s.changed ≡ some false
      → find filename (save_one e filename m s).db.bucket ≡ find filename s.db.bucket
  unfolding save_one save_file
  save_one-unchanged m s h = ground (arith, h)

  save_one-saved :
      (m : List (String × Symbol)) (s : Server)
      → find filename s.changed ≡ some true
      → has filename s.db.bucket ≡ true
      → find filename (save_one e filename m s).db.bucket
        ≡ some (e.codec.compress (e.codec.write (values m)))
  unfolding save_one save_file
  save_one-saved m s h k = ground (
    arith,
    h,
    k,
    find-put e.text.less filename filename (e.codec.compress (e.codec.write (values m)))
        s.db.bucket,
    eq_iff filename filename,
  )

  -- A file that is not marked as changed keeps its bytes while the loop of saveFile goes on.
  save_files-unchanged :
      (rest : List (String × List (String × Symbol))) (s : Server)
      → find filename s.changed ≡ some false
      → find filename (save_files e rest s).db.bucket ≡ find filename s.db.bucket
  unfolding save_files
  save_files-unchanged [] s h = refl
  save_files-unchanged ((f, m) ∷ rest) s h =
      save_files-unchanged rest (save_one e f m s) (ground (arith, save_one-changed f m s, h))
      ∙ elim (Bool-cases (same f filename)) [
        | inl b ↦
            let same_file : f ≡ filename = ground (arith, b, eq_iff f filename) in
            ap (λ k. find filename (save_one e k m s).db.bucket) same_file
            ∙ save_one-unchanged m s h
        | inr b ↦ save_one-other f m s (λ k. ground (arith, b, eq_iff f filename, k))
      ]

  save_files-saved :
      (rest : List (String × List (String × Symbol))) (s : Server)
      (symbols : List (String × Symbol))
      → find filename rest ≡ some symbols
      → find filename s.changed ≡ some true
      → has filename s.db.bucket ≡ true
      → find filename (save_files e rest s).db.bucket
        ≡ some (e.codec.compress (e.codec.write (values symbols)))
  unfolding save_files
  save_files-saved [] s symbols h c k = cc
  save_files-saved ((f, m) ∷ rest) s symbols h c k = elim (Bool-cases (same f filename)) [
    | inl b ↦
        let same_file : f ≡ filename = ground (arith, b, eq_iff f filename) in
        let found : m ≡ symbols = ground (arith, b, h) in
        save_files-unchanged rest (save_one e f m s) (ground (arith, save_one-changed f m s, b))
        ∙ ap (λ k. find filename (save_one e k m s).db.bucket) same_file
        ∙ ap (λ n. find filename (save_one e filename n s).db.bucket) found
        ∙ save_one-saved symbols s c k
    | inr b ↦
        let kept = save_one-other f m s (λ g. ground (arith, b, eq_iff f filename, g)) in
        save_files-saved rest (save_one e f m s) symbols (ground (arith, b, h))
          (ground (arith, b, c, save_one-changed f m s)) (ground (arith, k, kept))
  ]

  -- After saveFile, the database gives back the symbols of a file that is in memory, is marked as
  -- changed and is known to the database, in the order of their position texts, if Qt's stream
  -- and compression read back these symbols from what they made of them.
  pub save_all-retrieve :
      (s : Server) (symbols : List (String × Symbol))
      → e.codec.read (e.codec.uncompress (e.codec.compress (e.codec.write (values symbols))))
        ≡ values symbols
      → find filename s.symbols_list ≡ some symbols
      → find filename s.changed ≡ some true
      → has filename s.db.bucket ≡ true
      → retrieve_file e.codec filename (save_all e s).db ≡ some (values symbols)
  unfolding retrieve_file
  save_all-retrieve s symbols law h c k =
      rw (retrieve_file, save_files-saved s.symbols_list s symbols h c k, law) refl
