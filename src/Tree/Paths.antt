-- ===== src/Tree/Paths.antt =====
-- Reading a tree from the paths of a chunk file: hash_code, next_lower_chunk, split_line_on_comma
-- and add_path of fuzzer/smart-chunks.c. A string is a list of characters without the final 0,
-- each a byte; malloc() does not fail and, as in Tree.Copy, is a counter. atoi() of the C library is a
-- parameter.
use nfuzzer.Base.{
  ℕ, ◌+◌, ◌-◌, ◌*◌, ◌%◌, ◌^◌, Bool, true, false, ◌&&◌, ◌||◌, if◌then◌else◌, ltb, leb, ◌==◌, Option,
  none, some, List, [], ◌∷◌, length, drop, ◌>>=◌,
}

-- A char, which is signed, as an int.
unfoldable pub char_value : ℕ → ℕ
char_value c = if ltb c 128 then c else c + 2 ^ 32 - 256

-- The loop of hash_code from the hash `h` of what was read.
unfoldable pub hash_from : List ℕ → ℕ → ℕ
hash_from [] h = h
hash_from (c ∷ cs) h = hash_from cs ((31 * h + char_value c) % 2 ^ 32)

unfoldable pub hash_code : List ℕ → ℕ
hash_code str = hash_from str 0

unfoldable pub is_digit : ℕ → Bool
is_digit c = leb 48 c && leb c 57

-- '~', '\n' and ','; the end of the list is '\0'.
unfoldable pub ends_segment : ℕ → Bool
ends_segment c = c == 126 || c == 10 || c == 44

-- The characters before the first that ends a segment.
unfoldable pub segment : List ℕ → List ℕ
segment [] = []
segment (c ∷ cs) = let rest = segment cs in if ends_segment c then [] else c ∷ rest

-- The loop that goes back from the end of a segment, on the reversed segment `rev`: at '_' it cuts
-- the segment there, at a digit it goes on, and elsewhere or at the start nothing is cut, which is
-- `none`.
unfoldable pub cut_suffix : List ℕ → Option (List ℕ)
cut_suffix [] = none
cut_suffix (c ∷ rev) =
    let rest = cut_suffix rev in if c == 95 then some rev else (if is_digit c then rest else none)

unfoldable pub reverse_onto : List ℕ → List ℕ → List ℕ
reverse_onto [] ys = ys
reverse_onto (x ∷ xs) ys = reverse_onto xs (x ∷ ys)

unfoldable pub cut_or : Option (List ℕ) → List ℕ → List ℕ
cut_or none s = s
cut_or (some rev) s = reverse_onto rev []

-- The name without a suffix of `_` and digits.
unfoldable pub type_name : List ℕ → List ℕ
type_name s = cut_or (cut_suffix (reverse_onto s [])) s

-- `c == '~'` at the end of the segment.
unfoldable pub ends_in_tilde : List ℕ → Bool
ends_in_tilde [] = false
ends_in_tilde (c ∷ cs) = c == 126

-- `*length`, `*hash`, `*type_hash`, and whether -1 is returned.
pub record Segment : Type 0 where
  pub length : ℕ
  pub hash : ℕ
  pub type_hash : ℕ
  pub non_last : Bool

unfoldable pub next_lower_chunk : List ℕ → Segment
next_lower_chunk path =
    let name = segment path in
    record {
      length = length name;
      hash = hash_code name;
      type_hash = hash_code (type_name name);
      non_last = ends_in_tilde (drop (length name) path);
    }

-- What split_line_on_comma finds in a line.
pub record Line : Type 0 where
  pub start_byte : ℕ
  pub end_byte : ℕ
  pub path : List ℕ
  pub modifiable : Bool

-- The digits at the front.
unfoldable pub digits_of : List ℕ → List ℕ
digits_of [] = []
digits_of (c ∷ cs) = let rest = digits_of cs in if is_digit c then c ∷ rest else []

-- Where `while (isdigit(*end++));` leaves `end`: behind the character after the digits. If that is
-- the final 0, `end` is outside the line, which is `none`.
unfoldable pub after_digits : List ℕ → Option (List ℕ)
after_digits [] = none
after_digits (c ∷ cs) = let rest = after_digits cs in if is_digit c then rest else some cs

-- READ_LINE_BUFFER_SIZE
abbrev pub read_line_buffer_size : ℕ
read_line_buffer_size = 1024

-- The digits are copied to `str`, with a 0 behind them, and given to atoi(); `none` if `str` has no
-- room for them.
unfoldable pub number_of : (List ℕ → ℕ) → List ℕ → Option ℕ
number_of atoi digits =
    if ltb (length digits) read_line_buffer_size then some (atoi digits) else none

-- The characters before the newline or comma that ends the path, and what follows a comma.
unfoldable pub line_path : List ℕ → List ℕ
line_path [] = []
line_path (c ∷ cs) = let rest = line_path cs in if c == 10 || c == 44 then [] else c ∷ rest

unfoldable pub after_comma : List ℕ → Option (List ℕ)
after_comma [] = none
after_comma (c ∷ cs) =
    let rest = after_comma cs in if c == 44 then some cs else (if c == 10 then none else rest)

unfoldable pub starts_with : List ℕ → List ℕ → Bool
starts_with [] s = true
starts_with (p ∷ ps) [] = false
starts_with (p ∷ ps) (c ∷ cs) = p == c && starts_with ps cs

-- "Enabled"
abbrev pub enabled : List ℕ
enabled = 69 ∷ 110 ∷ 97 ∷ 98 ∷ 108 ∷ 101 ∷ 100 ∷ []

unfoldable pub is_enabled : Option (List ℕ) → Bool
is_enabled none = false
is_enabled (some s) = starts_with enabled s

-- `none` where the code reads or writes outside `line` or `str`: when the line ends before the
-- second number or the path starts, and when a number has too many digits.
unfoldable pub split_line_on_comma : (List ℕ → ℕ) → List ℕ → Option Line
split_line_on_comma atoi line = do
  start_byte ← number_of atoi (digits_of line)
  second ← after_digits line
  end_byte ← number_of atoi (digits_of second)
  third ← after_digits second
  some (record {
    start_byte = start_byte;
    end_byte = end_byte;
    path = line_path third;
    modifiable = is_enabled (after_comma third);
  })
