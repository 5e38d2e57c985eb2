-- ===== src/Telemetry/Format.antt =====
-- format_event_line of src/telemetry/format.cpp, and a reader of its lines, to say what the escapes
-- are for. Characters are their ASCII codes.
use no_cap_kvm.Prelude.{
  ℕ, Bool, true, false, ◌||◌, Option, none, some, List, [], ◌∷◌, ◌++◌, ◌≡◌, refl, ap, ◌==◌,
  if◌then◌else◌, Bool-cases, inl, inr,
}

-- '"' and '\\'
abbrev pub quote : ℕ
quote = 34

abbrev pub backslash : ℕ
backslash = 92

abbrev pub is_special : ℕ → Bool
is_special ch = (ch == quote) || (ch == backslash)

-- The loop that escapes.
unfoldable pub escape : List ℕ → List ℕ
escape [] = []
escape (ch ∷ message) =
    let rest = escape message in if is_special ch then backslash ∷ ch ∷ rest else ch ∷ rest

-- "event=" and " message=\""
abbrev pub event_prefix : List ℕ
event_prefix = 101 ∷ 118 ∷ 101 ∷ 110 ∷ 116 ∷ 61 ∷ []

abbrev pub message_prefix : List ℕ
message_prefix = 32 ∷ 109 ∷ 101 ∷ 115 ∷ 115 ∷ 97 ∷ 103 ∷ 101 ∷ 61 ∷ 34 ∷ []

unfoldable pub format_event_line : List ℕ → List ℕ → List ℕ
format_event_line key message =
    event_prefix ++ (key ++ (message_prefix ++ (escape message ++ (quote ∷ []))))

abbrev pub push_char : ℕ → Option (List ℕ × List ℕ) → Option (List ℕ × List ℕ)
push_char ch none = none
push_char ch (some (text, rest)) = some (ch ∷ text, rest)

-- What a reader makes of a quoted text: up to the first quote that no backslash precedes.
unfoldable pub read_quoted : List ℕ → Option (List ℕ × List ℕ)
read_quoted [] = none
read_quoted (ch ∷ []) = if ch == quote then some ([], []) else none
read_quoted (ch ∷ next ∷ rest) =
    let skipped = read_quoted rest in
    let later = read_quoted (next ∷ rest) in
    if ch == quote
    then some ([], next ∷ rest)
    else if ch == backslash
    then push_char next skipped
    else push_char ch later

neither : (a b : Bool) → (a || b) ≡ false → (a ≡ false) × (b ≡ false)
neither true b h = cc
neither false b h = (refl, h)

read_quoted_plain :
    (ch : ℕ) (tail text rest : List ℕ)
    → is_special ch ≡ false
    → read_quoted tail ≡ some (text, rest)
    → read_quoted (ch ∷ tail) ≡ some (ch ∷ text, rest)
unfolding read_quoted
read_quoted_plain ch [] text rest plain e = cc
read_quoted_plain ch (next ∷ tail) text rest plain e =
    let (a, b) = neither (ch == quote) (ch == backslash) plain in
    rw (read_quoted, a, b) (ap (push_char ch) e)

-- A reader that looks for the first quote that is not escaped gets the message back as it was, and
-- what comes after the line untouched, whatever quotes and backslashes the message contains.
pub read_quoted-escape :
    (message rest : List ℕ) → read_quoted (escape message ++ (quote ∷ rest)) ≡ some (message, rest)
unfolding read_quoted escape
read_quoted-escape [] [] = refl
read_quoted-escape [] (b ∷ rest) = refl
read_quoted-escape (ch ∷ message) rest = elim (Bool-cases (is_special ch)) [
  | inl special ↦ rw (escape, special) (ap (push_char ch) (read_quoted-escape message rest))
  | inr plain ↦
      rw (escape, plain)
        (read_quoted_plain ch (escape message ++ (quote ∷ rest)) message rest plain
          (read_quoted-escape message rest))
]
