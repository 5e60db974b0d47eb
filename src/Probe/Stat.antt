-- ===== src/Probe/Stat.antt =====
-- probe/probe.py: `parse_stat`, `_status_fields` and `_parent_kind`. A text is the list of its
-- characters' codes. What Python's `int` reads and the regular expressions find is a parameter.
pub mod RoundTrip
use node_monitor.Common.{
  ℕ, suc, ◌+◌, String, Bool, true, false, ◌||◌, ◌&&◌, Option, none, some, List, [], ◌∷◌,
  if◌then◌else◌, ◌==◌, nat_eq, ltb, leb, length, contains,
}
use node_monitor.Common.Slices.{first, drop}
use node_monitor.Values.{ℤ, pos, negsuc}

abbrev pub Text : Type 0
Text = List ℕ

-- `str.isspace` of a character
abbrev pub spaces : List ℕ
spaces =
    9 ∷ 10 ∷ 11 ∷ 12 ∷ 13 ∷ 28 ∷ 29 ∷ 30 ∷ 31 ∷ 32 ∷ 133 ∷ 160 ∷ 5760 ∷ 8232 ∷ 8233 ∷ 8239 ∷ 8287
    ∷ 12288 ∷ []

unfoldable pub is_space : ℕ → Bool
is_space c = contains c spaces || (leb 8192 c && leb c 8202)

unfoldable pub shifted : Option ℕ → Option ℕ
shifted none = none
shifted (some i) = some (suc i)

unfoldable pub found_or : Option ℕ → Option ℕ → Option ℕ
found_or none other = other
found_or (some i) other = some i

-- `raw.find(c)` and `raw.rfind(c)`; -1 is `none`.
unfoldable pub index_of : ℕ → Text → Option ℕ
index_of c [] = none
index_of c (x ∷ xs) = let later = index_of c xs in if x == c then some 0 else shifted later

unfoldable pub last_index_of : ℕ → Text → Option ℕ
last_index_of c [] = none
last_index_of c (x ∷ xs) = found_or (shifted (last_index_of c xs)) (if x == c then some 0 else none)

-- A word in front of others, if it is not empty.
unfoldable pub with_word : Text → List Text → List Text
with_word [] words = words
with_word (c ∷ word) words = (c ∷ word) ∷ words

unfoldable pub cut_at : Bool → ℕ → Text × List Text → Text × List Text
cut_at true c (word, words) = ([], with_word word words)
cut_at false c (word, words) = (c ∷ word, words)

-- The word that a text begins with, and the words after it.
unfoldable pub words : Text → Text × List Text
words [] = ([], [])
words (c ∷ cs) = cut_at (is_space c) c (words cs)

-- `raw.split()`
unfoldable pub split : Text → List Text
split raw = let (word, more) = words raw in with_word word more

unfoldable pub with_tail : Text → List Text → Option (Text × List Text)
with_tail comm tail = if ltb (length tail) 22 then none else some (comm, tail)

unfoldable pub parse_between : Text → Option ℕ → Option ℕ → Option (Text × List Text)
parse_between raw none close_paren = none
parse_between raw (some open_paren) none = none
parse_between raw (some open_paren) (some close_paren) =
    if ltb close_paren open_paren
    then none
    else with_tail (drop (suc open_paren) (first close_paren raw))
        (split (drop (close_paren + 2) raw))

-- `parse_stat`: bounded by the first "(" and the last ")".
unfoldable pub parse_stat : Text → Option (Text × List Text)
parse_stat raw = parse_between raw (index_of 40 raw) (last_index_of 41 raw)

unfoldable pub starts_with : Text → Text → Bool
starts_with raw [] = true
starts_with [] (c ∷ prefix) = false
starts_with (x ∷ raw) (c ∷ prefix) = (x == c) && starts_with raw prefix

abbrev pub sshd : Text
sshd = 115 ∷ 115 ∷ 104 ∷ 100 ∷ []

unfoldable pub is_init : ℤ → Bool
is_init (pos n) = n == 1
is_init (negsuc n) = false

module _ (is_multiplexer is_shell : Text → Bool) where
  unfoldable pub kind_of_comm : Option Text → String
  kind_of_comm none = "unknown"
  kind_of_comm (some comm) =
      if is_multiplexer comm
      then "multiplexer"
      else if starts_with comm sshd
      then "sshd"
      else if is_shell comm
      then "shell"
      else "other"

  -- `_parent_kind`
  unfoldable pub parent_kind : ℤ → Option Text → String
  parent_kind ppid parent_comm = if is_init ppid then "init" else kind_of_comm parent_comm

-- The lines of `raw.split("\n")`: the first, and those after it.
unfoldable pub lines : Text → Text × List Text
lines [] = ([], [])
lines (c ∷ cs) =
    let (line, more) = lines cs in if c == 10 then ([], line ∷ more) else (c ∷ line, more)

abbrev pub uid_label : Text
uid_label = 85 ∷ 105 ∷ 100 ∷ 58 ∷ []

abbrev pub threads_label : Text
threads_label = 84 ∷ 104 ∷ 114 ∷ 101 ∷ 97 ∷ 100 ∷ 115 ∷ 58 ∷ []

-- The texts of digits and the numbers that they denote: `isdigit` and then `int`.
module _ (digits : Text → Option ℕ) where
  unfoldable pub second_number : List Text → Option ℕ → Option ℕ
  second_number [] old = old
  second_number (label ∷ []) old = old
  second_number (label ∷ field ∷ more) old = elim (digits field) [ none ↦ old | some n ↦ some n ]

  unfoldable pub status_line : Text → Option ℕ × Option ℕ → Option ℕ × Option ℕ
  status_line line (uid, threads) =
      if starts_with line uid_label
      then (second_number (split line) uid, threads)
      else if starts_with line threads_label
      then (uid, second_number (split line) threads)
      else (uid, threads)

  unfoldable pub status_lines : List Text → Option ℕ × Option ℕ → Option ℕ × Option ℕ
  status_lines [] found = found
  status_lines (line ∷ more) found = status_lines more (status_line line found)

  -- `_status_fields`: the uid and the number of threads, each from its last line.
  unfoldable pub status_fields : Text → Option ℕ × Option ℕ
  status_fields raw = let (line, more) = lines raw in status_lines (line ∷ more) (none, none)
