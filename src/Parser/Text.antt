-- ===== src/Parser/Text.antt =====
-- src/rtsp/rtsp_message_parser.cpp: the text helpers. A loop that walks a string by an index is
-- a recursion on what is left of the string, with its length as the fuel: each round takes one
-- byte at least.
use rpi_server.Prelude.{
  ℕ, zero, suc, ◌+◌, Bool, false, not, ◌||◌, none, some, List, [], ◌∷◌, ◌++◌, map, ltb, ◌==◌,
  if◌then◌else◌, length, take, drop,
}
use rpi_server.Bytes.{Bytes, crlf, equal, find, to_lower, is_space, skip_while, take_while}

unfoldable pub lower_copy : Bytes → Bytes
unfolding to_lower
lower_copy s = map to_lower s

unfoldable pub starts_with_ci : Bytes → Bytes → Bool
unfolding lower_copy equal
starts_with_ci s prefix =
    if ltb (length s) (length prefix)
    then false
    else equal (lower_copy (take (length prefix) s)) (lower_copy prefix)

-- The loop of `replace_all` over the text behind the last replacement.
unfoldable pub replace_loop : ℕ → Bytes → Bytes → Bytes → Bytes
replace_loop zero s from to = s
replace_loop (suc fuel) s from to = elim (find from s) [
  | none ↦ s
  | some i ↦ take i s ++ (to ++ replace_loop fuel (drop (i + length from) s) from to)
]

unfoldable pub replace_all : Bytes → Bytes → Bytes → Bytes
unfolding replace_loop find
replace_all s [] to = s
replace_all s (c ∷ from) to = replace_loop (length s) s (c ∷ from) to

-- The set " \t\r\n".
abbrev pub is_blank : ℕ → Bool
is_blank c = c == 32 || (c == 9 || (c == 13 || c == 10))

-- The text up to the last byte that is not blank.
unfoldable pub trim_end : Bytes → Bytes
trim_end [] = []
trim_end (c ∷ s) = elim (trim_end s) [ [] ↦ if is_blank c then [] else c ∷ [] | d ∷ t ↦ c ∷ d ∷ t ]

unfoldable pub trim_copy : Bytes → Bytes
unfolding trim_end skip_while
trim_copy s = trim_end (skip_while is_blank s)

unfoldable pub split_loop : ℕ → Bytes → List Bytes
split_loop zero s = []
split_loop (suc fuel) [] = []
split_loop (suc fuel) (c ∷ s) = elim (find crlf (c ∷ s)) [
  | none ↦ (c ∷ s) ∷ []
  | some end ↦ take end (c ∷ s) ∷ split_loop fuel (drop (end + 2) (c ∷ s))
]

unfoldable pub split_lines_keep_empty : Bytes → List Bytes
unfolding split_loop find
split_lines_keep_empty header = split_loop (length header) header

-- `stream >> text`: the next word, and what is left of the stream.
unfoldable pub next_word : Bytes → Bytes × Bytes
unfolding skip_while take_while
next_word s =
    let rest = skip_while is_space s in
    (take_while (λ c. not (is_space c)) rest, skip_while (λ c. not (is_space c)) rest)
