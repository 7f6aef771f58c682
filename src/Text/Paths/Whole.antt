-- ===== src/Text/Paths/Whole.antt =====
-- common/utils.cpp: what is taken apart is put together again, and `dequoted` undoes quotes.
use o2chat.Prelude.{
  ℕ, ◌-◌, true, false, ◌||◌, [], ◌∷◌, ◌++◌, Bytes, codes, is_empty, ◌==◌, if◌then◌else◌, Option,
  none, some, ◌≡◌, refl, sym, ap, ◌∙◌, arith, Bool-cases, Option-cases, inl, inr, length, drop,
  drop-append, length-append, ltb,
}
use o2chat.Text.Strings.{ends_with, starts_with}
use o2chat.Text.Paths.{
  cut_last, filename, filepath, concat_dir_file, dequoted, dequoted_loop, but_last,
}

but_last-append : (s : Bytes) (c : ℕ) → but_last (s ++ c ∷ []) ≡ s
unfolding but_last
but_last-append [] c = refl
but_last-append (x ∷ []) c = refl
but_last-append (x ∷ y ∷ s) c = ap (λ t. x ∷ t) (but_last-append (y ∷ s) c)

ends_with-append : (s : Bytes) (c : ℕ) → ends_with (s ++ c ∷ []) (c ∷ []) ≡ true
unfolding ends_with starts_with
ends_with-append s c =
    let long = length-append s (c ∷ []) in
    let short : ltb (length (s ++ c ∷ [])) 1 ≡ false = ground (arith, long) in
    let front : length (s ++ c ∷ []) - 1 ≡ length s = omega arith in
    rw (short, ends_with)
      (ap (λ n. starts_with (drop n (s ++ c ∷ [])) (c ∷ [])) front
        ∙ ap (λ t. starts_with t (c ∷ [])) (drop-append s (c ∷ []))
        ∙ ground arith)

-- A text with a backslash in front of each backslash and each quote, and between quotes.
abbrev escaped : Bytes → Bytes
escaped [] = []
escaped (c ∷ s) = if c == b'\\' || c == b'"' then b'\\' ∷ c ∷ escaped s else c ∷ escaped s

abbrev quoted : Bytes → Bytes
quoted s = b'"' ∷ (escaped s ++ b'"' ∷ [])

loop-escaped : (s : Bytes) → dequoted_loop (escaped s) false ≡ s
unfolding dequoted_loop
loop-escaped [] = refl
loop-escaped (c ∷ s) = elim (Bool-cases (c == b'\\' || c == b'"')) [
  | inl e ↦ rw (e, escaped) (rw (e, dequoted_loop) (ap (λ t. c ∷ t) (loop-escaped s)))
  | inr e ↦
      let plain : (c == b'\\') ≡ false = ground (arith, e) in
      rw (e, escaped) (rw (plain, dequoted_loop) (ap (λ t. c ∷ t) (loop-escaped s)))
]

not_empty_end : (s : Bytes) (c : ℕ) → is_empty (s ++ c ∷ []) ≡ false
not_empty_end [] c = refl
not_empty_end (x ∷ s) c = refl

-- `dequoted` gives back a text that was escaped and put between quotes.
dequoted-quoted : (s : Bytes) → dequoted (quoted s) ≡ s
unfolding dequoted
dequoted-quoted s =
    rw (not_empty_end (escaped s) b'"', dequoted)
      (rw (ends_with-append (escaped s) b'"')
        (ap (λ t. dequoted_loop t false) (but_last-append (escaped s) b'"') ∙ loop-escaped s))

IsParted : Bytes → Option (Bytes × Bytes) → Type 0
IsParted s none = Unit
IsParted s (some (front, back)) = s ≡ front ++ (b'/' ∷ back)

parted_at :
    (s : Bytes) {o : Option (Bytes × Bytes)} {front back : Bytes}
    → o ≡ some (front, back)
    → IsParted s o
    → s ≡ front ++ (b'/' ∷ back)
unfolding IsParted
parted_at s e h = rw e at h

cut_last-IsParted : (s : Bytes) → IsParted s (cut_last s)
unfolding cut_last IsParted
cut_last-IsParted [] = tt
cut_last-IsParted (c ∷ s) =
    let rest = cut_last-IsParted s in
    elim (Option-cases (cut_last s)) [
      | inl e ↦ elim (Bool-cases (c == b'/')) [
        | inl slash ↦
            let same : c ≡ b'/' = ground (arith, slash) in
            rw (e, cut_last) (rw (slash, IsParted) (ap (λ x. x ∷ s) same))
        | inr no_slash ↦ rw (e, cut_last) (rw (no_slash, IsParted) tt)
      ]
      | inr ((front, back), e) ↦ rw (e, cut_last) (ap (λ t. c ∷ t) (parted_at s e rest))
    ]

-- The directory and the name of a path, put together again, are the path, if it has a slash behind a
-- directory that does not end in one.
concat-filepath-filename :
    (path front back : Bytes)
    → cut_last path ≡ some (front, back)
    → is_empty front ≡ false
    → ends_with front (codes "/") ≡ false
    → concat_dir_file (filepath path) (filename path) ≡ some path
unfolding concat_dir_file filepath filename
concat-filepath-filename path [] back e filled plain = absurd (cc filled)
concat-filepath-filename path (c ∷ front) back e filled plain =
    rw (e, filepath, filename, concat_dir_file)
      (rw (plain, concat_dir_file) (ap some (sym (parted_at path e (cut_last-IsParted path)))))
