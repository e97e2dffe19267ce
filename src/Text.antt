-- ===== src/Text.antt =====
-- What the program uses of Go's package strings, and the length of a Go string, on texts of Unicode
-- characters: a Go string that is not valid UTF-8 is outside the model.
pub mod Sorting
use taskflow_api.Base.{
  ℕ, ◌+◌, String, Bool, true, false, ◌&&◌, ◌||◌, List, [], ◌∷◌, Option, none, some, str_eq, ltb,
  leb, ◌==◌, if◌then◌else◌,
}
use Prim.Native.Char.{Char, code}

-- The bytes of a character in UTF-8.
unfoldable pub utf8_size : Char → ℕ
utf8_size c =
    if ltb (code c) 128
    then 1
    else if ltb (code c) 2048
    then 2
    else if ltb (code c) 65536
    then 3
    else 4

-- `len(s)`
unfoldable pub byte_length : String → ℕ
byte_length String.[] = 0
byte_length (String.◌∷◌ c s) = utf8_size c + byte_length s

-- `strings.Contains(s, c)`, for a text of one character.
unfoldable pub contains_char : ℕ → String → Bool
contains_char k String.[] = false
contains_char k (String.◌∷◌ c s) = (code c == k) || contains_char k s

-- `strings.SplitN(s, " ", 2)`: two parts where there is a space, and otherwise one.
unfoldable pub split_space : String → Option (String × String)
split_space String.[] = none
split_space (String.◌∷◌ c s) =
    let rest = split_space s in
    if code c == b' '
    then some ("", s)
    else elim rest [ none ↦ none | some (word, tail) ↦ some (String.◌∷◌ c word, tail) ]

-- A letter of ASCII in lower case.
unfoldable pub fold_code : ℕ → ℕ
fold_code n = if leb b'A' n && leb n b'Z' then n + 32 else n

-- `strings.EqualFold(s, t)`, for a `t` of letters to which only the two cases of ASCII fold, as the
-- letters of "Bearer".
unfoldable pub equal_fold : String → String → Bool
equal_fold String.[] String.[] = true
equal_fold String.[] (String.◌∷◌ d t) = false
equal_fold (String.◌∷◌ c s) String.[] = false
equal_fold (String.◌∷◌ c s) (String.◌∷◌ d t) =
    (fold_code (code c) == fold_code (code d)) && equal_fold s t

-- `unicode.IsSpace`
unfoldable pub is_space : ℕ → Bool
is_space n =
    (leb 9 n && leb n 13)
    || (n == 32)
    || (n == 133)
    || (n == 160)
    || (n == 5760)
    || (leb 8192 n && leb n 8202)
    || (n == 8232)
    || (n == 8233)
    || (n == 8239)
    || (n == 8287)
    || (n == 12288)

unfoldable pub trim_left : String → String
trim_left String.[] = ""
trim_left (String.◌∷◌ c s) =
    let rest = trim_left s in if is_space (code c) then rest else String.◌∷◌ c s

-- The text without the spaces at its end.
unfoldable pub trim_right : String → String
trim_right String.[] = ""
trim_right (String.◌∷◌ c s) = elim (trim_right s) [
  | String.[] ↦ if is_space (code c) then "" else String.◌∷◌ c ""
  | String.◌∷◌ d t ↦ String.◌∷◌ c (String.◌∷◌ d t)
]

-- `strings.TrimSpace(s)`
unfoldable pub trim_space : String → String
trim_space s = trim_right (trim_left s)

unfoldable pub push_char : Char → List String → List String
push_char c [] = String.◌∷◌ c "" ∷ []
push_char c (s ∷ rest) = String.◌∷◌ c s ∷ rest

-- `strings.Split(s, ",")`
unfoldable pub split_commas : String → List String
split_commas String.[] = "" ∷ []
split_commas (String.◌∷◌ c s) =
    let rest = split_commas s in if code c == b',' then "" ∷ rest else push_char c rest

-- `strings.Split(s, "/")`
unfoldable pub split_slashes : String → List String
split_slashes String.[] = "" ∷ []
split_slashes (String.◌∷◌ c s) =
    let rest = split_slashes s in if code c == b'/' then "" ∷ rest else push_char c rest

-- `slices.Contains`
unfoldable pub contains : List String → String → Bool
contains [] s = false
contains (t ∷ ts) s = str_eq t s || contains ts s
