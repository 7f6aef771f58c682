-- ===== src/Net/Stream/Waits.antt =====
-- net/client.cpp: a wait of `AsyncHttpClient` gives what a cut of all bytes gives that come.
use o2chat.Prelude.{
  ℕ, zero, suc, leb, true, false, [], ◌∷◌, ◌++◌, Bytes, Option, none, some, length, take, drop,
  ◌==◌, ◌≡◌, refl, sym, ap, ◌∙◌, ◌⊎◌, inl, inr, arith, Option-cases, Bool-cases, length-take,
}
use o2chat.Text.Strings.{cut}
use o2chat.Text.Strings.Longer.{cut_longer, cut-some_filled}
use o2chat.Net.Buffer.{read, read_until}
use o2chat.Net.Stream.{
  Restarts, Transport, contains_t, has_bytes, Socket, Waited, left, async_read, take_line,
  take_bytes, wait_line, wait_bytes,
}

-- A number of bytes that are there are the first ones whatever comes behind.
longer_lem :
    (n : ℕ) (s x : Bytes)
    → leb n (length s) ≡ true
    → (take n (s ++ x) ≡ take n s)
      × (drop n (s ++ x) ≡ drop n s ++ x)
      × (leb n (length (s ++ x)) ≡ true)
longer_lem zero s x e = (refl, refl, ground arith)
longer_lem (suc n) [] x e = absurd (ground (arith, e))
longer_lem (suc n) (c ∷ s) x e =
    let (front, behind, more) = longer_lem n s x (ground (arith, e)) in
    (ap (λ l. c ∷ l) front, behind, ground (arith, more))

-- What both waits come to, against what a cut of all bytes gives.
module _ {ℓ} {S : Type ℓ} (t : Transport S) (until : Bytes → Bytes → Option (Bytes × ℕ))
    (exactly : ℕ → Option Bytes) where
  contains-Restarts : (d : Bytes) → Restarts (contains_t d)
  unfolding contains_t
  contains-Restarts d s e = elim (Option-cases (cut d s)) [
    | inl absent ↦ rw (absent, contains_t) refl
    | inr (parts, found) ↦ absurd (cc (rw (found, contains_t) at e))
  ]

  contains_met :
      (d s : Bytes)
      → (contains_t d s).1 ≡ true
      → (front : Bytes) × (rest : Bytes) × (cut d s ≡ some (front, rest))
  unfolding contains_t
  contains_met d s e = elim (Option-cases (cut d s)) [
    | inl absent ↦ absurd (cc (rw (absent, contains_t) at e))
    | inr ((front, rest), found) ↦ (front, rest, found)
  ]

  contains_unmet : (d s : Bytes) → (contains_t d s).1 ≡ false → cut d s ≡ none
  unfolding contains_t
  contains_unmet d s e = elim (Option-cases (cut d s)) [
    | inl absent ↦ absent
    | inr (parts, found) ↦ absurd (cc (rw (found, contains_t) at e))
  ]

  -- What is in the buffer is taken from there: no blocking read of the connection.
  take_line_lem :
      (y : ℕ) (d : Bytes) (c : Socket S) {front rest : Bytes}
      → cut (y ∷ d) c.buffer.streambuf ≡ some (front, rest)
      → take_line t until exactly (y ∷ d) c
        ≡ Waited.text front (record {
          buffer = record { streambuf = rest; response = [] };
          connection = c.connection;
        })
  unfolding take_line read_until
  take_line_lem y d c e =
      rw (cut-some_filled y d c.buffer.streambuf e, read_until, e, take_line, read_until) refl

  pub wait_line_lem :
      (y : ℕ) (d : Bytes) (c : Socket S)
      → ((wait_line t until exactly (y ∷ d) c ≡ Waited.error)
          × (cut (y ∷ d) (left t until exactly c) ≡ none))
        ⊎ ((line : Bytes) × (c' : Socket S) × (wait_line t until exactly (y ∷ d) c
              ≡ Waited.text line c')
            × (cut (y ∷ d) (left t until exactly c) ≡ some (line, left t until exactly c')))
  unfolding wait_line async_read
  wait_line_lem y d c =
      elim (Option-cases
        (t.async_read_until (contains_t (y ∷ d)) c.buffer.streambuf c.connection)) [
          | inl ends ↦ inl (
            rw (ends, wait_line, async_read) refl,
            contains_unmet (y ∷ d) _
                (t.gives_up (contains_t (y ∷ d)) _ _ (contains-Restarts (y ∷ d)) ends),
          )
          | inr ((streambuf, s), ends) ↦
              let (whole, met) =
                t.completed (contains_t (y ∷ d)) _ _ (contains-Restarts (y ∷ d)) ends in
              let (front, rest, found) = contains_met (y ∷ d) streambuf met in
              let c' : Socket S = record {
                buffer = record { streambuf = rest; response = [] };
                connection = s;
              } in
              let waiting : Socket S = record {
                buffer = record { streambuf = streambuf; response = c.buffer.response };
                connection = s;
              } in
              inr (
                front,
                c',
                rw (ends, wait_line, async_read) (take_line_lem y d waiting found),
                ap (cut (y ∷ d)) (sym whole) ∙ cut_longer y d streambuf (t.pending s) found,
              )
        ]

  has_bytes-Restarts : (n : ℕ) → Restarts (has_bytes n)
  unfolding has_bytes
  has_bytes-Restarts n s e = elim (Bool-cases (leb n (length s))) [
    | inl enough ↦ absurd (cc (rw (enough, has_bytes) at e))
    | inr short ↦ rw (short, has_bytes) refl
  ]

  has_bytes-met : (n : ℕ) (s : Bytes) → (has_bytes n s).1 ≡ leb n (length s)
  unfolding has_bytes
  has_bytes-met n s = elim (Bool-cases (leb n (length s))) [
    | inl enough ↦ rw (enough, has_bytes) refl
    | inr short ↦ rw (short, has_bytes) refl
  ]

  take_bytes_lem :
      (n : ℕ) (c : Socket S)
      → leb n (length c.buffer.streambuf) ≡ true
      → take_bytes t until exactly n c
        ≡ Waited.text (take n c.buffer.streambuf) (record {
          buffer = record {
            streambuf = drop n c.buffer.streambuf;
            response = take n c.buffer.streambuf;
          };
          connection = c.connection;
        })
  unfolding take_bytes read
  take_bytes_lem n c e =
      let there : (length (take n c.buffer.streambuf) == n) ≡ true =
        ground (arith, e, length-take n c.buffer.streambuf) in
      rw (there, take_bytes, read) refl

  pub wait_bytes_lem :
      (n : ℕ) (c : Socket S)
      → ((wait_bytes t until exactly n c ≡ Waited.error)
          × (leb n (length (left t until exactly c)) ≡ false))
        ⊎ ((c' : Socket S) × (wait_bytes t until exactly n c
              ≡ Waited.text (take n (left t until exactly c)) c')
            × (leb n (length (left t until exactly c)) ≡ true)
            × (drop n (left t until exactly c) ≡ left t until exactly c'))
  unfolding wait_bytes async_read
  wait_bytes_lem n c =
      elim (Option-cases (t.async_read_until (has_bytes n) c.buffer.streambuf c.connection)) [
        | inl ends ↦ inl (
          rw (ends, wait_bytes, async_read) refl,
          sym (has_bytes-met n _) ∙ t.gives_up (has_bytes n) _ _ (has_bytes-Restarts n) ends,
        )
        | inr ((streambuf, s), ends) ↦
            let (whole, met) = t.completed (has_bytes n) _ _ (has_bytes-Restarts n) ends in
            let enough : leb n (length streambuf) ≡ true = sym (has_bytes-met n streambuf) ∙ met in
            let (front, behind, more) = longer_lem n streambuf (t.pending s) enough in
            let c' : Socket S = record {
              buffer = record { streambuf = drop n streambuf; response = take n streambuf };
              connection = s;
            } in
            let waiting : Socket S = record {
              buffer = record { streambuf = streambuf; response = c.buffer.response };
              connection = s;
            } in
            inr (
              c',
              rw (ends, wait_bytes, async_read) (take_bytes_lem n waiting enough)
                  ∙ ap (λ f. Waited.text f c') (sym front ∙ ap (take n) whole),
              ap (λ l. leb n (length l)) (sym whole) ∙ more,
              ap (drop n) (sym whole) ∙ behind,
            )
      ]
