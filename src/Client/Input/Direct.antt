-- ===== src/Client/Input/Direct.antt =====
-- client/src/apiclient_utils.cpp: the lines with a message. The name is the second part between spaces,
-- the message what the regular expression leaves behind the second word.
use o2chat.Prelude.{
  ℕ, zero, suc, ◌+◌, ◌-◌, ◌^◌, ◌<◌, ◌≤◌, Bool, true, false, not, ◌||◌, List, [], ◌∷◌, ◌++◌, Bytes,
  codes, is_empty, any, all, ◌==◌, ◌=?◌, if◌then◌else◌, length, ◌≡◌, refl, ap, ◌∙◌, arith,
  append_assoc, Bool-cases, inl, inr, length-append,
}
use o2chat.Responses.{is_word}
use o2chat.Text.Strings.{split, split_parts, split_loop, lowercased, ltrim}
use o2chat.Text.Strings.Parts.{free_of, free_append, split_loop_step, split_loop_some}
use o2chat.Client.Input.{Command, no_args, parse, word, get_msg_after_command}
use o2chat.Client.Input.Words.{is_name, message_lem}

abbrev pub direct_first : Bool → Bytes
direct_first group = if group then codes "direct_msg_g" else codes "direct_msg"

abbrev pub direct_command : Bool → Command
direct_command group = if group then Command.direct_msg_group else Command.direct_msg_user

-- A text that does not begin with a word character.
abbrev pub no_word : Bytes → Bool
no_word [] = true
no_word (c ∷ s) = not (is_word c)

word_at_end : (s : Bytes) → no_word s ≡ true → word s ≡ ([], s)
unfolding word
word_at_end [] h = refl
word_at_end (c ∷ s) h = elim (Bool-cases (is_word c)) [
  | inl e ↦ absurd (ground (arith, e, h))
  | inr e ↦ rw e refl
]

-- Word characters are no spaces.
free_name : (s : Bytes) → all is_word s ≡ true → free_of 32 s ≡ true
unfolding is_word
free_name [] h = refl
free_name (c ∷ s) h =
    let t : all is_word s ≡ true = ground (arith, h) in
    let rest = free_name s t in ground (arith, h, rest)

-- The first two parts of a line with two spaces.
loop_pair :
    (limit fuel : ℕ) (first name text : Bytes)
    → 2 ≤ fuel
    → 2 < limit
    → free_of 32 first ≡ true
    → free_of 32 name ≡ true
    → (third : Bytes) × (more : List Bytes) × (split_loop
          (suc fuel)
          limit
          0
          (codes " ")
          (first ++ (32 ∷ (name ++ (32 ∷ text))))
        ≡ first ∷ name ∷ third ∷ more)
loop_pair limit zero first name text enough few hf hn = absurd (omega arith)
loop_pair limit (suc zero) first name text enough few hf hn = absurd (omega arith)
loop_pair limit (suc (suc fuel)) first name text enough few hf hn =
    let e : (0 + 1 == limit) ≡ false = ground (arith, few) in
    let g : (0 + 1 + 1 == limit) ≡ false = ground (arith, few) in
    let (third, more, r) = split_loop_some (codes " ") limit fuel (0 + 1 + 1) text in
    (
      third,
      more,
      split_loop_step 32 [] limit (suc (suc fuel)) 0 first (name ++ (32 ∷ text)) hf e
          ∙ ap (λ l. first ∷ l)
              (split_loop_step 32 [] limit (suc fuel) (0 + 1) name text hn g
                ∙ ap (λ l. name ∷ l) r),
    )

split_pair :
    (first name text : Bytes)
    → free_of 32 first ≡ true
    → free_of 32 name ≡ true
    → (third : Bytes) × (more : List Bytes) × (split
          (first ++ (32 ∷ (name ++ (32 ∷ text))))
          (codes " ")
        ≡ first ∷ name ∷ third ∷ more)
unfolding split split_parts
split_pair first name text hf hn =
    let whole = length-append first (32 ∷ (name ++ (32 ∷ text))) in
    let part = length-append name (32 ∷ text) in
    loop_pair (2 ^ 32 - 2) (length (first ++ (32 ∷ (name ++ (32 ∷ text))))) first name text
      (omega arith) (omega arith) hf hn

-- A line whose second part is a name, and what `parse` makes of it.
parse_line :
    (group : Bool) (line name third : Bytes) (more : List Bytes)
    → split line (codes " ") ≡ direct_first group ∷ name ∷ third ∷ more
    → parse line ≡ record no_args {
      cmd = direct_command group;
      direct_name = name;
      direct_message = get_msg_after_command line;
    }
unfolding parse lowercased ◌=?◌
parse_line true line name third more h = rw (h, parse) refl
parse_line false line name third more h = rw (h, parse) refl

first_IsName :
    (group : Bool)
    → (is_name (direct_first group) ≡ true) × (free_of 32 (direct_first group) ≡ true)
unfolding is_word
first_IsName true = (refl, refl)
first_IsName false = (refl, refl)

-- The part between the first two spaces is the name, and the message is what stands behind the word
-- characters that the name begins with: the whole message if the name has no other character.
pub parse_direct :
    (group : Bool) (name tail text : Bytes)
    → is_name name ≡ true
    → free_of 32 tail ≡ true
    → no_word (tail ++ (32 ∷ text)) ≡ true
    → any (λ c. c == 10 || c == 13) (ltrim (tail ++ (32 ∷ text))) ≡ false
    → parse (direct_first group ++ (32 ∷ ((name ++ tail) ++ (32 ∷ text)))) ≡ record no_args {
      cmd = direct_command group;
      direct_name = name ++ tail;
      direct_message = ltrim (tail ++ (32 ∷ text));
    }
parse_direct group name tail text hn ht hw line =
    let all_name : all is_word name ≡ true = ground (arith, hn) in
    let free = free_name name all_name in
    let joined : free_of 32 (name ++ tail) ≡ true =
      ground (arith, free_append 32 name tail, free, ht) in
    let (first_name, first_free) = first_IsName group in
    let (third, more, parts) =
      split_pair (direct_first group) (name ++ tail) text first_free joined in
    let rest = tail ++ (32 ∷ text) in
    let w = word_at_end rest hw in
    let empty : is_empty (word rest).0 ≡ true = ap (λ p. is_empty p.0) w in
    let one : any (λ c. c == 10 || c == 13) (ltrim (word rest).1) ≡ false =
      ap (λ p. any (λ c. c == 10 || c == 13) (ltrim p.1)) w ∙ line in
    let message = message_lem (direct_first group) name rest first_name hn empty one in
    parse_line group (direct_first group ++ (32 ∷ ((name ++ tail) ++ (32 ∷ text)))) (name ++ tail)
      third more parts
    ∙ ap
        (λ t. record no_args {
          cmd = direct_command group;
          direct_name = name ++ tail;
          direct_message = t;
        })
        (ap (λ l. get_msg_after_command (direct_first group ++ (32 ∷ l))) (simp append_assoc refl)
          ∙ message
          ∙ ap (λ p. ltrim p.1) w)
