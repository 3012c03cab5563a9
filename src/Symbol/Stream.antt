-- ===== src/Symbol/Stream.antt =====
-- The stream operators of Utility/symbol.h, over Qt's for numbers, booleans, texts and vectors.
use Prim.Native.String.{String}
use mathlib.Core.List.{append_assoc}
use scriba.Prelude.{ℕ, ◌<◌, ◌≡◌, refl, Bool, List, [], ◌∷◌, ◌++◌}
use scriba.Prelude.Int.{ℤ, pos, ◌≤ℤ◌, ◌-ℤ◌}
use scriba.Order.Rank.{All}
use scriba.Symbol.{Identifier, SymbolFormat, Symbol}

-- How a type is written to a stream, and read from one with what is left of it.
pub record Wire (A : Type 0) : Type 0 where
  pub put : A → List ℕ
  pub get : List ℕ → A × List ℕ

-- Qt's operators on int, qint64, ushort, bool, QString and QVector.
pub record Streams : Type 1 where
  pub int32 : Wire ℤ
  pub int64 : Wire ℤ
  pub ushort : Wire ℕ
  pub boolean : Wire Bool
  pub text : Wire String
  pub vector : {A : Type 0} → Wire A → Wire (List A)

-- What is written is read back, whatever follows it in the stream.
abbrev pub Reads : {A : Type 0} → Wire A → A → Type 0
Reads w a = (rest : List ℕ) → w.get (w.put a ++ rest) ≡ (a, rest)

module _ {A B : Type 0} where
  -- out << a << b, and in >> a >> b
  unfoldable pub both : Wire A → Wire B → Wire (A × B)
  both w v = record {
    put = λ p. w.put p.0 ++ v.put p.1;
    get = λ b. (((w.get b).0, (v.get (w.get b).1).0), (v.get (w.get b).1).1);
  }

  -- The members of a record, one after another.
  unfoldable pub members : (A → B) → (B → A) → Wire B → Wire A
  members to from w = record { put = λ a. w.put (to a); get = λ b. (from (w.get b).0, (w.get b).1) }

  both-Reads :
      (w : Wire A) (v : Wire B) (a : A) (b : B) → Reads w a → Reads v b → Reads (both w v) (a, b)
  unfolding both
  both-Reads w v a b h k rest =
      rw (append_assoc (w.put a) (v.put b) rest, h (v.put b ++ rest), k rest) refl

  members-Reads :
      (to : A → B) (from : B → A) (w : Wire B) (a : A)
      → from (to a) ≡ a
      → Reads w (to a)
      → Reads (members to from w) a
  unfolding members
  members-Reads to from w a e h rest = rw (h rest, e) refl

module _ (q : Streams) where
  -- operator<< and operator>> of Identifier
  unfoldable pub identifier_wire : Wire Identifier
  identifier_wire =
      members (λ i. (i.digit, i.site)) (λ (digit, site). record { digit = digit; site = site })
        (both q.int32 q.int32)

  -- Those of SymbolFormat. Its enum goes as a qint64, and the cast back is the identity on what was
  -- cast from an enum.
  unfoldable pub format_wire : Wire SymbolFormat
  format_wire =
      members (λ f. (f.align, ((f.italic, (f.bold, f.underline)), (f.font, (f.size, f.color)))))
        (λ p. record {
          align = p.0;
          italic = p.1.0.0;
          bold = p.1.0.1.0;
          underline = p.1.0.1.1;
          font = p.1.1.0;
          size = p.1.1.1.0;
          color = p.1.1.1.1;
        })
        (both q.int64
          (both (both q.boolean (both q.boolean q.boolean)) (both q.text (both q.int32 q.text))))

  -- Those of Symbol
  unfoldable pub symbol_wire : Wire Symbol
  symbol_wire =
      members (λ s. (s.value, (s.position, (s.counter, s.format))))
        (λ p. record { value = p.0; position = p.1.0; counter = p.1.1.0; format = p.1.1.1 })
        (both q.ushort (both (q.vector identifier_wire) (both q.int32 format_wire)))

abbrev InRange : ℕ → ℤ → Type 0
InRange n z = (pos 0 -ℤ pos n ≤ℤ z) × (z ≤ℤ pos n -ℤ pos 1)

abbrev pub IsInt32 : ℤ → Type 0
IsInt32 = InRange 2147483648

abbrev pub IsInt64 : ℤ → Type 0
IsInt64 = InRange 9223372036854775808

-- What is relied on of Qt's operators: values of the type's range are read back, and a vector of
-- what is read back is.
pub record Laws (q : Streams) : Type 1 where
  pub int32 : (z : ℤ) → IsInt32 z → Reads q.int32 z
  pub int64 : (z : ℤ) → IsInt64 z → Reads q.int64 z
  pub ushort : (n : ℕ) → n < 65536 → Reads q.ushort n
  pub boolean : (b : Bool) → Reads q.boolean b
  pub text : (s : String) → Reads q.text s
  pub vector : {A : Type 0} (w : Wire A) (l : List A) → All (Reads w) l → Reads (q.vector w) l

-- A symbol whose numbers are of their types' ranges.
pub record IsStorable (s : Symbol) : Type 0 where
  pub value : s.value < 65536
  pub position : All (λ i. IsInt32 i.digit × IsInt32 i.site) s.position
  pub counter : IsInt32 s.counter
  pub align : IsInt64 s.format.align
  pub size : IsInt32 s.format.size

module _ (q : Streams) (l : Laws q) where
  identifier_wire-Reads :
      (i : Identifier) → IsInt32 i.digit × IsInt32 i.site → Reads (identifier_wire q) i
  unfolding identifier_wire
  identifier_wire-Reads i (a, b) =
      members-Reads _ _ (both q.int32 q.int32) i refl
        (both-Reads q.int32 q.int32 i.digit i.site (l.int32 i.digit a) (l.int32 i.site b))

  format_wire-Reads :
      (f : SymbolFormat) → IsInt64 f.align → IsInt32 f.size → Reads (format_wire q) f
  unfolding format_wire
  format_wire-Reads f a b = members-Reads _ _ _ f refl (
      both-Reads q.int64 _ f.align _ (l.int64 f.align a) (
        both-Reads _ _ _ _
          (both-Reads q.boolean _ f.italic _ (l.boolean f.italic) (
            both-Reads q.boolean q.boolean f.bold f.underline (l.boolean f.bold)
              (l.boolean f.underline)))
          (both-Reads q.text _ f.font _ (l.text f.font)
            (both-Reads q.int32 q.text f.size f.color (l.int32 f.size b) (l.text f.color)))))

  identifiers-Reads :
      (p : List Identifier)
      → All (λ i. IsInt32 i.digit × IsInt32 i.site) p
      → All (Reads (identifier_wire q)) p
  identifiers-Reads [] h = tt
  identifiers-Reads (i ∷ p) h = (identifier_wire-Reads i h.0, identifiers-Reads p h.1)

  symbol_wire-Reads : (s : Symbol) → IsStorable s → Reads (symbol_wire q) s
  unfolding symbol_wire
  symbol_wire-Reads s w = members-Reads _ _ _ s refl (
      both-Reads q.ushort _ s.value _ (l.ushort s.value w.value) (
        both-Reads (q.vector (identifier_wire q)) _ s.position _
          (l.vector (identifier_wire q) s.position (identifiers-Reads s.position w.position))
          (both-Reads q.int32 (format_wire q) s.counter s.format (l.int32 s.counter w.counter)
            (format_wire-Reads s.format w.align w.size))))

  symbols-Reads : (ss : List Symbol) → All IsStorable ss → All (Reads (symbol_wire q)) ss
  symbols-Reads [] h = tt
  symbols-Reads (s ∷ ss) h = (symbol_wire-Reads s h.0, symbols-Reads ss h.1)

  -- Qt's operators read back what they write, as `Laws` says. Symbols whose numbers are of their
  -- types' ranges, written to a stream, are read back as they are, in their order, whatever follows
  -- them, with what follows left.
  pub symbols-read :
      (ss : List Symbol) (rest : List ℕ)
      → All IsStorable ss
      → (q.vector (symbol_wire q)).get ((q.vector (symbol_wire q)).put ss ++ rest) ≡ (ss, rest)
  symbols-read ss rest h = l.vector (symbol_wire q) ss (symbols-Reads ss h) rest
