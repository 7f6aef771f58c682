-- ===== src/Net/Buffer/Lines.antt =====
-- net/client.cpp: what the blocking calls of `BasicTcpClient` give, if the system does as it documents.
use o2chat.Prelude.{
  ℕ, zero, suc, ◌+◌, ◌-◌, ◌≤◌, Bool, true, false, [], ◌∷◌, ◌++◌, Bytes, is_empty, ◌==◌,
  if◌then◌else◌, Option, none, some, length, take, drop, ◌≡◌, refl, sym, ap, ◌∙◌, ◌⊎◌, inl, inr,
  arith, append-nil, append_assoc, Option-cases, Bool-cases, take-append, drop-append,
  length-append, take-append-drop, length-take, take_all,
}
use o2chat.Text.Strings.{cut}
use o2chat.Text.Strings.Whole.{cut_whole}
use o2chat.Net.Connect.{ErrorCode, is_error}
use o2chat.Net.Buffer.{Buffer, read, read_until, read_more, write, write_loop}

-- A read of the connection up to a delimiter appends to the buffer and counts the bytes up to the end of
-- the first delimiter.
abbrev pub Appends : Bytes → Bytes → Bytes → ℕ → Type 0
Appends delimiter old streambuf bytes =
    (more : Bytes) × (line : Bytes) × (rest : Bytes) × (streambuf ≡ old ++ more)
    × (cut delimiter streambuf ≡ some (line, rest))
    × (bytes ≡ length line + length delimiter)

found_some {ℓ} :
    {A : Type ℓ} (b : Bool) {o : Option A} {a : A}
    → (if b then none else o) ≡ some a
    → (b ≡ false) × (o ≡ some a)
found_some true h = absurd (cc h)
found_some false h = (refl, h)

-- The text in front of a delimiter and what is behind it, by the number of bytes up to its end.
cut_parts :
    (delimiter streambuf line rest : Bytes) (bytes : ℕ)
    → cut delimiter streambuf ≡ some (line, rest)
    → bytes ≡ length line + length delimiter
    → (take (bytes - length delimiter) streambuf ≡ line) × (drop bytes streambuf ≡ rest)
cut_parts delimiter streambuf line rest bytes first count =
    let whole = cut_whole delimiter streambuf line rest first in
    let front : bytes - length delimiter ≡ length line = omega arith in
    let long : bytes ≡ length (line ++ delimiter) = count ∙ sym (length-append line delimiter) in
    (
      ap (take (bytes - length delimiter)) whole
          ∙ ap (λ n. take n (line ++ (delimiter ++ rest))) front
          ∙ take-append line (delimiter ++ rest),
      ap (drop bytes) (whole ∙ simp append_assoc refl)
          ∙ ap (λ n. drop n ((line ++ delimiter) ++ rest)) long
          ∙ drop-append (line ++ delimiter) rest,
    )

-- Nothing is found: the buffer is empty or has no delimiter.
unfound :
    (b : Bool) {o : Option (Bytes × Bytes)}
    → (if b then none else o) ≡ none
    → (b ≡ true) ⊎ (o ≡ none)
unfound true e = inl refl
unfound false e = inr e

-- What `read_until` gives: if the buffer is not empty and has the delimiter, the text in front of it, with its
-- length, and the bytes of the buffer behind it stay. If not, the text in front of the first delimiter of what
-- the read of the connection made of the buffer, with the length of the text and the delimiter, and the
-- bytes behind it stay.
abbrev pub Divides : Bytes → Bytes → Bytes → ℕ → Buffer → Type 0
Divides delimiter old streambuf n b' =
    ((is_empty old ≡ false)
      × (cut delimiter old ≡ some (b'.response, b'.streambuf))
      × (n ≡ length b'.response))
    ⊎ (((is_empty old ≡ true) ⊎ (cut delimiter old ≡ none))
        × (cut delimiter streambuf ≡ some (b'.response, b'.streambuf))
        × (n ≡ length b'.response + length delimiter))

-- If the read of the connection appends bytes to the buffer up to a delimiter at least, and counts those up to
-- the end of the first delimiter, `read_until` gives the text in front of the first delimiter and leaves all
-- bytes behind it: those of the buffer alone if the delimiter was in it, or else those of the buffer and what
-- came. Its result is the length of the text in the one case, and that of the text and the delimiter in the
-- other.
pub read_until_lem :
    (until : Bytes → Bytes → Option (Bytes × ℕ)) (delimiter : Bytes) (b : Buffer)
    (streambuf : Bytes) (bytes : ℕ)
    → until b.streambuf delimiter ≡ some (streambuf, bytes)
    → Appends delimiter b.streambuf streambuf bytes
    → (n : ℕ) × (b' : Buffer) × (read_until until delimiter b ≡ some (n, b'))
      × Divides delimiter b.streambuf streambuf n b'
unfolding read_until read_more
read_until_lem until delimiter b streambuf bytes given (more, line, rest, appended, first, count) =
    let found : Option (Bytes × Bytes) =
      if is_empty b.streambuf then none else cut delimiter b.streambuf in
    let (taken, left) = cut_parts delimiter streambuf line rest bytes first count in
    elim (Option-cases found) [
      | inl e ↦ (
        bytes,
        record { streambuf = rest; response = line },
        rw (e, read_until) (rw (given, read_more) (rw left (rw taken refl))),
        inr (unfound (is_empty b.streambuf) e, first, count),
      )
      | inr ((line', rest'), e) ↦
          let (filled, there) = found_some (is_empty b.streambuf) e in
          (
            length line',
            record { streambuf = rest'; response = line' },
            rw (e, read_until) refl,
            inl (filled, there, refl),
          )
    ]

drop_all : (n : ℕ) (xs : Bytes) → length xs ≤ n → drop n xs ≡ []
drop_all zero [] h = refl
drop_all zero (x ∷ xs) h = absurd (omega arith)
drop_all (suc n) [] h = refl
drop_all (suc n) (x ∷ xs) h = drop_all n xs (omega arith)

-- `read` gives as many bytes as are wanted, the next ones of the connection in order: first those of the
-- buffer, then those that come.
read_lem :
    (exactly : ℕ → Option Bytes) (need_bytes : ℕ) (b : Buffer) (more : Bytes)
    → exactly (need_bytes - length b.streambuf) ≡ some more
    → length more ≡ need_bytes - length b.streambuf
    → (b' : Buffer) × (read exactly need_bytes b ≡ some (need_bytes, b'))
      × (length b'.response ≡ need_bytes)
      × ((b'.response ++ b'.streambuf ≡ b.streambuf)
          ⊎ ((b'.response ≡ b.streambuf ++ more) × (b'.streambuf ≡ [])))
unfolding read
read_lem exactly need_bytes b more given long =
    elim (Bool-cases (length (take need_bytes b.streambuf) == need_bytes)) [
      | inl e ↦ (
        record { streambuf = drop need_bytes b.streambuf; response = take need_bytes b.streambuf },
        rw (e, read) refl,
        ground (arith, e),
        inl (take-append-drop need_bytes b.streambuf),
      )
      | inr e ↦
          let front = length-take need_bytes b.streambuf in
          let short : length b.streambuf ≤ need_bytes = ground (arith, e, front) in
          let all_taken = take_all need_bytes b.streambuf short in
          let asked = ap (λ s. exactly (need_bytes - length s)) all_taken ∙ given in
          let left = drop_all need_bytes b.streambuf short in
          (
            record { streambuf = []; response = b.streambuf ++ more },
            rw (e, read) (rw asked (rw left (rw all_taken refl))),
            length-append b.streambuf more ∙ omega arith,
            inr (refl, refl),
          )
    ]

-- Every call of the system on bytes, one at least, writes one at least and no more than it is given, and
-- does not fail.
abbrev Writes : (ℕ → Bytes → ErrorCode × ℕ) → Type 0
Writes write_some =
    (n c : ℕ) (s : Bytes)
    → let (ec, w) = write_some n (c ∷ s) in (is_error ec ≡ false) × (1 ≤ w) × (w ≤ length (c ∷ s))

length-take-drop :
    (n : ℕ) (xs : Bytes)
    → n ≤ length xs
    → (length (take n xs) ≡ n) × (length (drop n xs) ≡ length xs - n)
length-take-drop n xs h =
    let front = length-take n xs in
    let both = ap length (take-append-drop n xs) in
    let sum = length-append (take n xs) (drop n xs) in (omega arith, omega arith)

-- `write` ends, and all bytes are written in order, if every call of the system writes a byte at least and
-- no more than it is given, and none fails.
write_loop_lem :
    (write_some : ℕ → Bytes → ErrorCode × ℕ) (fuel bytes : ℕ) (str sent : Bytes)
    → Writes write_some
    → length str ≤ fuel
    → write_loop write_some fuel bytes str sent ≡ some (bytes + length str, sent ++ str)
unfolding write_loop
write_loop_lem write_some zero bytes [] sent good enough =
    ap some (ap (λ n. (n, sent)) (omega arith) ∙ ap (λ s. (bytes + 0, s)) (sym (append-nil sent)))
write_loop_lem write_some zero bytes (c ∷ str) sent good enough = absurd (omega arith)
write_loop_lem write_some (suc fuel) bytes [] sent good enough =
    ap some (ap (λ n. (n, sent)) (omega arith) ∙ ap (λ s. (bytes + 0, s)) (sym (append-nil sent)))
write_loop_lem write_some (suc fuel) bytes (c ∷ str) sent good enough =
    let (ok, some_bytes, at_most) = good bytes c str in
    let w = (write_some bytes (c ∷ str)).1 in
    let (front, left) = length-take-drop w (c ∷ str) at_most in
    rw ok (
      write_loop_lem write_some fuel (bytes + w) (drop w (c ∷ str)) (sent ++ take w (c ∷ str)) good
        (omega arith)
      ∙ ap some (
          ap (λ n. (n, (sent ++ take w (c ∷ str)) ++ drop w (c ∷ str))) (omega arith)
          ∙ ap (λ s. (bytes + length (c ∷ str), s))
              (append_assoc sent (take w (c ∷ str)) (drop w (c ∷ str))
                ∙ ap (◌++◌ sent) (take-append-drop w (c ∷ str)))))

write_lem :
    (write_some : ℕ → Bytes → ErrorCode × ℕ) (str : Bytes)
    → Writes write_some
    → write write_some str ≡ some (length str, str)
unfolding write
write_lem write_some str good =
    write_loop_lem write_some (length str) 0 str [] good (omega arith)
    ∙ ap (λ n. some (n, str)) (omega arith)
