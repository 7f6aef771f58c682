-- ===== src/Http/Framing.antt =====
-- net/client.cpp: where `AsyncHttpClient` ends the headers, and which lines it makes of them.
use o2chat.Prelude.{
  ◌-◌, ◌^◌, ◌<◌, Bool, true, false, not, ◌&&◌, List, [], ◌∷◌, ◌++◌, Bytes, codes, all, is_empty,
  ◌==◌, Option, none, some, length, ◌≡◌, refl, ◌∙◌, ap, arith, append_assoc, append-nil,
}
use o2chat.Text.Strings.{cut, join, join_rest}
use o2chat.Text.Strings.Parts.{
  free_of, cut_free, cut_line, cut_break, prepend, prepend-some, split-join,
}
use o2chat.Http.Reply.{no_reply}
use o2chat.Http.Reading.{
  Outcome, async_response, handle_headers, first_line, read_body, parse_header_lines,
}

abbrev pub crlf : Bytes
crlf = codes "\r\n"

abbrev pub blank_line : Bytes
blank_line = codes "\r\n\r\n"

-- A line with a byte, and without carriage returns.
abbrev pub is_line : Bytes → Bool
is_line l = not (is_empty l) && free_of 13 l

cut_text :
    (line : Bytes) (lines : List Bytes) (s : Bytes)
    → all is_line (line ∷ lines) ≡ true
    → cut blank_line ((line ++ join_rest lines crlf) ++ (blank_line ++ s))
      ≡ some (line ++ join_rest lines crlf, s)
unfolding join_rest
cut_text line [] s good =
    let free : free_of 13 line ≡ true = ground (arith, good) in
    rw (append-nil line) (cut_line 13 (codes "\n\r\n") line s free)
cut_text line ([] ∷ lines) s good = absurd (ground (arith, good))
cut_text line ((c ∷ next) ∷ lines) s good =
    let free : free_of 13 line ≡ true = ground (arith, good) in
    let later : all is_line ((c ∷ next) ∷ lines) ≡ true = ground (arith, good) in
    let plain : (13 == c) ≡ false = ground (arith, good) in
    let tail = (c ∷ next) ++ join_rest lines crlf in
    rw (append_assoc line (crlf ++ tail) (blank_line ++ s)) (
      cut_free 13 (codes "\n\r\n") line ((crlf ++ tail) ++ (blank_line ++ s)) free
      ∙ ap (prepend line) (
          cut_break c ((next ++ join_rest lines crlf) ++ (blank_line ++ s)) plain
          ∙ ap (prepend crlf) (cut_text (c ∷ next) lines s later)
          ∙ prepend-some crlf tail s)
      ∙ prepend-some line (crlf ++ tail) s)

all_free : (lines : List Bytes) → all is_line lines ≡ true → all (free_of 13) lines ≡ true
all_free [] good = refl
all_free (l ∷ ls) good = let rest = all_free ls (ground (arith, good)) in ground (arith, good, rest)

-- What follows the headers of a message.
unfoldable pub after_headers : (Bytes → Option Bytes) → Bytes → Bytes → List Bytes → Bytes → Outcome
unfolding first_line read_body parse_header_lines
after_headers inflate text first lines s =
    elim (first_line first (record no_reply { headers = text })) [
      | none ↦ Outcome.protocol_error (record no_reply { headers = text })
      | some reply ↦
          read_body inflate
            (record reply { parsed_headers = parse_header_lines lines reply.parsed_headers }) s
    ]

-- Lines that are joined by line breaks, with a blank line behind them, are read as these lines, and
-- the body begins right behind the blank line, if no line is empty or has a carriage return.
pub async_response_lem :
    (inflate : Bytes → Option Bytes) (first : Bytes) (lines : List Bytes) (s : Bytes)
    → all is_line (first ∷ lines) ≡ true
    → length lines < 2 ^ 32 - 2
    → async_response inflate (join (first ∷ lines) crlf ++ (blank_line ++ s))
      ≡ after_headers inflate (join (first ∷ lines) crlf) first lines s
unfolding async_response handle_headers after_headers join
async_response_lem inflate [] lines s good few = absurd (ground (arith, good))
async_response_lem inflate (c ∷ line) lines s good few =
    rw (cut_text (c ∷ line) lines s good, async_response)
      (rw
        (
          split-join 13 (codes "\n") (c ∷ line) lines (all_free ((c ∷ line) ∷ lines) good) few,
          handle_headers,
        )
        refl)
