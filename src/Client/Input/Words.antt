-- ===== src/Client/Input/Words.antt =====
-- client/src/apiclient_utils.cpp: the regular expression that takes a message out of a line.
use o2chat.Prelude.{
  ℕ, Bool, true, false, not, ◌&&◌, ◌||◌, [], ◌∷◌, ◌++◌, Bytes, is_empty, any, all, ◌==◌, some, ◌≡◌,
  refl, ap, ◌∙◌, arith, append-nil,
}
use o2chat.Responses.{is_word}
use o2chat.Text.Strings.{ltrim, is_space}
use o2chat.Client.Input.{word, second_word, one_line, match_message, get_msg_after_command}

-- A text of word characters, one at least.
abbrev pub is_name : Bytes → Bool
is_name s = not (is_empty s) && all is_word s

is_space_word : (c : ℕ) → is_word c ≡ true → is_space c ≡ false
unfolding is_word is_space
is_space_word c h = ground (arith, h)

ltrim_name : (s rest : Bytes) → is_name s ≡ true → ltrim (s ++ rest) ≡ s ++ rest
unfolding ltrim
ltrim_name [] rest h = absurd (cc h)
ltrim_name (c ∷ s) rest h =
    let w : is_word c ≡ true = ground (arith, h) in rw (is_space_word c w) refl

-- The word characters at the front go on into those of the rest.
word-append :
    (s rest : Bytes) → all is_word s ≡ true → word (s ++ rest) ≡ (s ++ (word rest).0, (word rest).1)
unfolding word
word-append [] rest h = refl
word-append (c ∷ s) rest h =
    let w : is_word c ≡ true = ground (arith, h) in
    let t : all is_word s ≡ true = ground (arith, h) in rw w (rw (word-append s rest t) refl)

all_of_name : (s : Bytes) → is_name s ≡ true → all is_word s ≡ true
all_of_name s h = ground (arith, h)

-- A word ends at a space.
pub word_space : (s rest : Bytes) → is_name s ≡ true → word (s ++ (32 ∷ rest)) ≡ (s, 32 ∷ rest)
unfolding word is_word
word_space s rest h =
    word-append s (32 ∷ rest) (all_of_name s h) ∙ ap (λ t. (t, 32 ∷ rest)) (append-nil s)

-- What stands behind the second word, where a space or another character ends that word.
second_word_lem :
    (first name rest : Bytes)
    → is_name name ≡ true
    → is_empty (word rest).0 ≡ true
    → second_word first (name ++ rest) ≡ some (ltrim (word rest).1)
unfolding second_word
second_word_lem first [] rest h e = absurd (cc h)
second_word_lem first (c ∷ name) rest h e =
    rw (word-append (c ∷ name) rest (all_of_name (c ∷ name) h), second_word) refl

-- The message of a line is what stands behind the second word, without spaces in front, if it has no
-- line break. The second word ends at the first character that is no word character.
pub message_lem :
    (first name rest : Bytes)
    → is_name first ≡ true
    → is_name name ≡ true
    → is_empty (word rest).0 ≡ true
    → any (λ c. c == 10 || c == 13) (ltrim (word rest).1) ≡ false
    → get_msg_after_command (first ++ (32 ∷ (name ++ rest))) ≡ ltrim (word rest).1
unfolding get_msg_after_command match_message one_line ltrim
message_lem [] name rest hf hn e line = absurd (cc hf)
message_lem (c ∷ first) name rest hf hn e line =
    let front = ltrim_name (c ∷ first) (32 ∷ (name ++ rest)) hf in
    let cut = word_space (c ∷ first) (name ++ rest) hf in
    let found = ap one_line (
      ap (second_word (c ∷ first)) (ltrim_name name rest hn)
      ∙ second_word_lem (c ∷ first) name rest hn e) in
    rw (front, get_msg_after_command, match_message) (rw cut (rw found (rw line refl)))
