-- ===== src/Tests/Sockets.antt =====
-- Runs of the reads of net/client.cpp on a connection that brings packets.
use o2chat.Prelude.{
  true, false, List, [], ◌∷◌, ◌++◌, Bytes, codes, Option, none, some, ◌≡◌, ap, ◌∙◌, if◌then◌else◌,
  Bool-cases, inl, inr, append_assoc, append-nil, sym,
}
use o2chat.Net.Stream.{Condition, Transport, Socket}
use o2chat.Http.Reading.{async_response}
use o2chat.Http.Socket.{async_response_on, whole_outcome}
use o2chat.Http.Socket.Whole.{async_response_on_lem}

-- What a list of packets brings.
abbrev joined : List Bytes → Bytes
joined [] = []
joined (p ∷ ps) = p ++ joined ps

abbrev read_packets : Condition → Bytes → List Bytes → Option (Bytes × List Bytes)
read_packets condition streambuf [] = if (condition streambuf).1 then some (streambuf, []) else none
read_packets condition streambuf (p ∷ ps) =
    let later = read_packets condition (streambuf ++ p) ps in
    if (condition streambuf).1 then some (streambuf, p ∷ ps) else later

read_packets_completed :
    (condition : Condition) (streambuf : Bytes) (s : List Bytes) {streambuf' : Bytes}
    {s' : List Bytes}
    → read_packets condition streambuf s ≡ some (streambuf', s')
    → (streambuf' ++ joined s' ≡ streambuf ++ joined s) × ((condition streambuf').1 ≡ true)
read_packets_completed condition streambuf [] {streambuf'} {s'} e =
    elim (Bool-cases (condition streambuf).1) [
      | inl met ↦
          let same : streambuf ≡ streambuf' = cc (rw met at e) in
          let ended : [] ≡ s' = cc (rw met at e) in
          (
            ap (λ l. l ++ joined s') (sym same) ∙ ap (λ l. streambuf ++ joined l) (sym ended),
            ap (λ l. (condition l).1) (sym same) ∙ met,
          )
      | inr unmet ↦ absurd (cc (rw unmet at e))
    ]
read_packets_completed condition streambuf (p ∷ ps) {streambuf'} {s'} e =
    elim (Bool-cases (condition streambuf).1) [
      | inl met ↦
          let same : streambuf ≡ streambuf' = cc (rw met at e) in
          let ended : p ∷ ps ≡ s' = cc (rw met at e) in
          (
            ap (λ l. l ++ joined s') (sym same) ∙ ap (λ l. streambuf ++ joined l) (sym ended),
            ap (λ l. (condition l).1) (sym same) ∙ met,
          )
      | inr unmet ↦
          let (whole, met) = read_packets_completed condition (streambuf ++ p) ps (rw unmet at e) in
          (whole ∙ append_assoc streambuf p (joined ps), met)
    ]

read_packets_ended :
    (condition : Condition) (streambuf : Bytes) (s : List Bytes)
    → read_packets condition streambuf s ≡ none
    → (condition (streambuf ++ joined s)).1 ≡ false
read_packets_ended condition streambuf [] e = elim (Bool-cases (condition streambuf).1) [
  | inl met ↦ absurd (cc (rw met at e))
  | inr unmet ↦ ap (λ l. (condition l).1) (append-nil streambuf) ∙ unmet
]
read_packets_ended condition streambuf (p ∷ ps) e = elim (Bool-cases (condition streambuf).1) [
  | inl met ↦ absurd (cc (rw met at e))
  | inr unmet ↦
      ap (λ l. (condition l).1) (sym (append_assoc streambuf p (joined ps)))
      ∙ read_packets_ended condition (streambuf ++ p) ps (rw unmet at e)
]

abbrev packets : Transport (List Bytes)
packets = record {
  pending = joined;
  async_read_until = read_packets;
  completed = λ condition streambuf s {streambuf'} {s'} restarts e.
      read_packets_completed condition streambuf s e;
  gives_up = λ condition streambuf s restarts e. read_packets_ended condition streambuf s e;
}

-- A chunked answer in packets that cut its blank line and its chunks.
abbrev chunked_socket : Socket (List Bytes)
chunked_socket = record {
  buffer = record { streambuf = codes "HTTP/1.1 200 OK\r\nTransfer-Enc"; response = [] };
  connection =
      codes "oding: chunked\r\n\r"
      ∷ codes "\n2\r"
      ∷ codes "\nh"
      ∷ codes "i\r\n0\r\n\r\nHTTP"
      ∷ codes "/1.1"
      ∷ [];
}

async_response_on_lem_example :
    whole_outcome packets
      (λ s d. none)
      (λ n. none)
      (λ s. none)
      (async_response_on packets (λ s d. none) (λ n. none) (λ s. none) chunked_socket)
    ≡ some (
        async_response
          (λ s. none)
          (codes
            "HTTP/1.1 200 OK\r\nTransfer-Encoding: chunked\r\n\r\n2\r\nhi\r\n0\r\n\r\nHTTP/1.1"))
async_response_on_lem_example =
    async_response_on_lem packets (λ s d. none) (λ n. none) (λ s. none) chunked_socket
