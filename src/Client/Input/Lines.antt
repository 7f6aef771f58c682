-- ===== src/Client/Input/Lines.antt =====
-- client/src/apiclient_utils.cpp: what `input::parse` makes of the lines of the help text.
use o2chat.Prelude.{
  ℕ, ◌-◌, ◌^◌, ltb, Bool, true, ◌&&◌, List, [], ◌∷◌, Bytes, codes, all, ◌=?◌, length, ◌≡◌, refl, ap,
  ◌∙◌, arith, ◌<◌,
}
use o2chat.Text.Strings.{join, lowercased}
use o2chat.Text.Strings.Parts.{free_of, split-join}
use o2chat.Text.Decimal.{to_string}
use o2chat.Text.Decimal.RoundTrip.{stoi-to_string}
use o2chat.Client.Input.{Command, Args, no_args, parse, parse_parts, count_of, int_to_size}

-- The commands that have no free text.
pub data Line : Type 0 where
  help quit unchat : Line
  chat_with register_g status status_g history history_g : Bytes → Line
  history_count history_g_count : Bytes → ℕ → Line
  login register add_to_g : Bytes → Bytes → Line

-- The words of a line.
abbrev pub words : Line → Bytes × List Bytes
words help = (codes "HELP", [])
words quit = (codes "QUIT", [])
words unchat = (codes "UNCHAT", [])
words (chat_with name) = (codes "CHAT_WITH", name ∷ [])
words (register_g name) = (codes "REGISTER_G", name ∷ [])
words (status name) = (codes "STATUS", name ∷ [])
words (status_g name) = (codes "STATUS_G", name ∷ [])
words (history name) = (codes "HISTORY", name ∷ [])
words (history_g name) = (codes "HISTORY_G", name ∷ [])
words (history_count name n) = (codes "HISTORY", name ∷ to_string n ∷ [])
words (history_g_count name n) = (codes "HISTORY_G", name ∷ to_string n ∷ [])
words (login name pass) = (codes "LOGIN", name ∷ pass ∷ [])
words (register name pass) = (codes "REGISTER", name ∷ pass ∷ [])
words (add_to_g user name) = (codes "ADD_TO_G", user ∷ name ∷ [])

abbrev pub print : Line → Bytes
print line = join ((words line).0 ∷ (words line).1) (codes " ")

-- What the user means by it.
abbrev pub meaning : Line → Args
meaning help = record no_args { cmd = Command.help }
meaning quit = record no_args { cmd = Command.quit }
meaning unchat = record no_args { cmd = Command.unchat }
meaning (chat_with name) = record no_args { cmd = Command.chat_with_user; chat_name = name }
meaning (register_g name) = record no_args { cmd = Command.register_group; group_groupname = name }
meaning (status name) = record no_args { cmd = Command.status_user; status_name = name }
meaning (status_g name) = record no_args { cmd = Command.status_group; status_name = name }
meaning (history name) = record no_args {
  cmd = Command.history_user;
  history_name = name;
  history_count = 10;
}
meaning (history_g name) = record no_args {
  cmd = Command.history_group;
  history_name = name;
  history_count = 10;
}
meaning (history_count name n) = record no_args {
  cmd = Command.history_user;
  history_name = name;
  history_count = n;
}
meaning (history_g_count name n) = record no_args {
  cmd = Command.history_group;
  history_name = name;
  history_count = n;
}
meaning (login name pass) = record no_args {
  cmd = Command.login;
  login_name = name;
  login_pass = pass;
}
meaning (register name pass) = record no_args {
  cmd = Command.register_user;
  reg_name = name;
  reg_pass = pass;
}
meaning (add_to_g user name) = record no_args {
  cmd = Command.add_to_group;
  group_username = user;
  group_groupname = name;
}

abbrev is_small : Line → Bool
is_small (history_count name n) = ltb n (2 ^ 31)
is_small (history_g_count name n) = ltb n (2 ^ 31)
is_small line = true

-- The words have no space, and a count fits into an `int`.
abbrev pub is_plain : Line → Bool
is_plain line = all (free_of 32) ((words line).0 ∷ (words line).1) && is_small line

count_lem : (n : ℕ) → ltb n (2 ^ 31) ≡ true → count_of (to_string n ∷ []) 10 ≡ n
unfolding count_of int_to_size
count_lem n h = rw (stoi-to_string n h, count_of) (rw h refl)

small_of_plain : (line : Line) → is_plain line ≡ true → is_small line ≡ true
small_of_plain line h = ground (arith, h)

-- The parts of a line mean what its words mean.
meaning_lem :
    (line : Line)
    → is_small line ≡ true
    → parse_parts (print line) ((words line).0 ∷ (words line).1) ≡ meaning line
unfolding parse_parts lowercased ◌=?◌ count_of
meaning_lem (history_count name n) h =
    ap (λ k. record no_args { cmd = Command.history_user; history_name = name; history_count = k })
      (count_lem n h)
meaning_lem (history_g_count name n) h =
    ap (λ k. record no_args { cmd = Command.history_group; history_name = name; history_count = k })
      (count_lem n h)
meaning_lem help h = refl
meaning_lem quit h = refl
meaning_lem unchat h = refl
meaning_lem (chat_with name) h = refl
meaning_lem (register_g name) h = refl
meaning_lem (status name) h = refl
meaning_lem (status_g name) h = refl
meaning_lem (history name) h = refl
meaning_lem (history_g name) h = refl
meaning_lem (login a b) h = refl
meaning_lem (register a b) h = refl
meaning_lem (add_to_g a b) h = refl

few_words : (line : Line) → length (words line).1 < 2 ^ 32 - 2
few_words help = omega arith
few_words quit = omega arith
few_words unchat = omega arith
few_words (chat_with name) = omega arith
few_words (register_g name) = omega arith
few_words (status name) = omega arith
few_words (status_g name) = omega arith
few_words (history name) = omega arith
few_words (history_g name) = omega arith
few_words (history_count a b) = omega arith
few_words (history_g_count a b) = omega arith
few_words (login a b) = omega arith
few_words (register a b) = omega arith
few_words (add_to_g a b) = omega arith

-- Every line of the help text without a message, whose words have no space, is understood as it is meant: the command, the
-- names in their places, the count if there is one and 10 if not, and nothing else.
pub parse-print : (line : Line) → is_plain line ≡ true → parse (print line) ≡ meaning line
unfolding parse
parse-print line h =
    let free : all (free_of 32) ((words line).0 ∷ (words line).1) ≡ true = ground (arith, h) in
    ap (parse_parts (print line))
      (split-join 32 [] (words line).0 (words line).1 free (few_words line))
    ∙ meaning_lem line (small_of_plain line h)
