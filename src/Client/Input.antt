-- ===== src/Client/Input.antt =====
-- client/src/apiclient_utils.cpp: what a line of the user asks for.
pub mod Words
pub mod Lines
pub mod Direct
use o2chat.Prelude.{
  ℕ, zero, suc, ◌+◌, ◌-◌, ◌^◌, leb, ltb, Bool, true, false, not, ◌&&◌, ◌||◌, List, [], ◌∷◌, Bytes,
  codes, is_empty, any, ◌==◌, ◌=?◌, if◌then◌else◌, Option, none, some, length, u64_mod, u32_mod,
  ◌≡◌, refl,
}
use o2chat.Responses.{is_word}
use o2chat.Text.Strings.{split, lowercased, ltrim}
use o2chat.Text.Number.{stoi}

-- `input::cmd_t`; the name `none` is the library's.
pub data Command : Type 0 where
  no_command help unchat login register_user register_group chat_with_user : Command
  add_to_group history_user history_group direct_msg_user direct_msg_group : Command
  status_user status_group quit : Command

-- `input::cmd2string`
unfoldable pub command_to_string : Command → Bytes
command_to_string Command.help = codes "HELP"
command_to_string Command.unchat = codes "UNCHAT"
command_to_string Command.login = codes "LOGIN"
command_to_string Command.register_user = codes "REGISTER"
command_to_string Command.register_group = codes "REGISTER_G"
command_to_string Command.chat_with_user = codes "CHAT_WITH"
command_to_string Command.add_to_group = codes "ADD_TO_G"
command_to_string Command.history_user = codes "HISTORY"
command_to_string Command.history_group = codes "HISTORY_G"
command_to_string Command.direct_msg_user = codes "DIRECT_MSG"
command_to_string Command.direct_msg_group = codes "DIRECT_MSG_G"
command_to_string Command.status_user = codes "STATUS"
command_to_string Command.status_group = codes "STATUS_G"
command_to_string Command.quit = codes "QUIT"
command_to_string Command.no_command = codes "none"

-- `input::args_t`; a field is named for its struct and its place there.
pub record Args : Type 0 where
  pub cmd : Command
  pub login_name : Bytes
  pub login_pass : Bytes
  pub reg_name : Bytes
  pub reg_pass : Bytes
  pub chat_name : Bytes
  pub group_groupname : Bytes
  pub group_username : Bytes
  pub history_name : Bytes
  pub history_count : ℕ
  pub direct_name : Bytes
  pub direct_message : Bytes
  pub status_name : Bytes

abbrev pub no_args : Args
no_args = record {
  cmd = Command.no_command;
  login_name = [];
  login_pass = [];
  reg_name = [];
  reg_pass = [];
  chat_name = [];
  group_groupname = [];
  group_username = [];
  history_name = [];
  history_count = 10;
  direct_name = [];
  direct_message = [];
  status_name = [];
}

-- The word characters `\w` at the front of a text, and what is behind them.
unfoldable pub word : Bytes → Bytes × Bytes
unfolding is_word
word [] = ([], [])
word (c ∷ s) = let rest = word s in if is_word c then (c ∷ rest.0, rest.1) else ([], c ∷ s)

-- The second `\w+\s*` of the pattern and the text behind it. Without a word here, the first word gives
-- up its last character, if it has two.
unfoldable pub second_word : Bytes → Bytes → Option Bytes
unfolding word
second_word first rest =
    if not (is_empty (word rest).0)
    then some (ltrim (word rest).1)
    else if ltb 1 (length first)
    then some rest
    else none

-- `.*` takes no line break.
unfoldable pub one_line : Option Bytes → Option Bytes
one_line none = none
one_line (some text) = if any (λ c. c == 10 || c == 13) text then none else some text

-- `regex_match` with `^\s*\w+\s*\w+\s*(.*)$`: the group. A shorter match of a greedy part leaves more
-- text to `.*`, so the longest match decides.
unfoldable pub match_message : Bytes → Option Bytes
unfolding second_word one_line
match_message line =
    let first = word (ltrim line) in
    if is_empty first.0 then none else one_line (second_word first.0 (ltrim first.1))

-- `get_msg_after_command`
unfoldable pub get_msg_after_command : Bytes → Bytes
unfolding match_message
get_msg_after_command line = elim (match_message line) [ none ↦ [] | some text ↦ text ]

-- An `int` by its bit pattern, as a `size_t`.
unfoldable pub int_to_size : ℕ → ℕ
int_to_size n = if ltb n (2 ^ 31) then n else n + (u64_mod - u32_mod)

-- The count of a history: `std::stoi` of the third part, and the default if it throws or is missing.
unfoldable pub count_of : List Bytes → ℕ → ℕ
unfolding int_to_size
count_of [] old = old
count_of (part ∷ more) old = elim (stoi part) [ none ↦ old | some n ↦ int_to_size n ]

-- The commands that take two names or a name and a text.
unfoldable pub parse_pair : Bytes → Bytes → Bytes → List Bytes → Args
unfolding get_msg_after_command
parse_pair string cmd second [] = no_args
parse_pair string cmd second (third ∷ more) =
    if cmd =? codes "login"
    then record no_args { cmd = Command.login; login_name = second; login_pass = third }
    else if cmd =? codes "register"
    then record no_args { cmd = Command.register_user; reg_name = second; reg_pass = third }
    else if cmd =? codes "direct_msg"
    then record no_args {
      cmd = Command.direct_msg_user;
      direct_name = second;
      direct_message = get_msg_after_command string;
    }
    else if cmd =? codes "add_to_g"
    then record no_args {
      cmd = Command.add_to_group;
      group_username = second;
      group_groupname = third;
    }
    else if cmd =? codes "direct_msg_g"
    then record no_args {
      cmd = Command.direct_msg_group;
      direct_name = second;
      direct_message = get_msg_after_command string;
    }
    else no_args

-- The commands that take a name.
unfoldable pub parse_named : Bytes → Bytes → List Bytes → Args
unfolding count_of parse_pair
parse_named string cmd [] = no_args
parse_named string cmd (name ∷ more) =
    if cmd =? codes "chat_with"
    then record no_args { cmd = Command.chat_with_user; chat_name = name }
    else if cmd =? codes "register_g"
    then record no_args { cmd = Command.register_group; group_groupname = name }
    else if cmd =? codes "history"
    then record no_args {
      cmd = Command.history_user;
      history_name = name;
      history_count = count_of more 10;
    }
    else if cmd =? codes "history_g"
    then record no_args {
      cmd = Command.history_group;
      history_name = name;
      history_count = count_of more 10;
    }
    else if cmd =? codes "status"
    then record no_args { cmd = Command.status_user; status_name = name }
    else if cmd =? codes "status_g"
    then record no_args { cmd = Command.status_group; status_name = name }
    else parse_pair string cmd name more

unfoldable pub parse_parts : Bytes → List Bytes → Args
unfolding parse_named
parse_parts string [] = no_args
parse_parts string (first ∷ more) =
    let cmd = lowercased first in
    if cmd =? codes "help"
    then record no_args { cmd = Command.help }
    else if cmd =? codes "quit"
    then record no_args { cmd = Command.quit }
    else if cmd =? codes "unchat"
    then record no_args { cmd = Command.unchat }
    else parse_named string cmd more

-- `input::parse`
unfoldable pub parse : Bytes → Args
unfolding parse_parts
parse string = parse_parts string (split string (codes " "))

test_parse : parse (codes "Direct_msg bob  hi there") ≡ record no_args {
  cmd = Command.direct_msg_user;
  direct_name = codes "bob";
  direct_message = codes "hi there";
}
unfolding parse split lowercased ltrim ◌=?◌ get_msg_after_command
test_parse = refl

-- A name with other characters is cut by the pattern, and its rest is sent with the message.
test_parse_name : parse (codes "direct_msg bob-2 hi") ≡ record no_args {
  cmd = Command.direct_msg_user;
  direct_name = codes "bob-2";
  direct_message = codes "-2 hi";
}
unfolding parse split lowercased ltrim ◌=?◌ get_msg_after_command
test_parse_name = refl

-- A negative count becomes a large one.
test_parse_count : (parse (codes "history bob -1")).history_count ≡ 2 ^ 64 - 1
unfolding parse split lowercased ltrim stoi ◌=?◌ get_msg_after_command
test_parse_count = refl
