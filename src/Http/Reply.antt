-- ===== src/Http/Reply.antt =====
-- common/http.hpp: a message that was read, and its headers by name, in which case does not count.
use o2chat.Text.Strings.{lowercased}
use o2chat.Prelude.{
  ℕ, Bool, true, false, not, ◌&&◌, ◌||◌, List, [], ◌∷◌, Bytes, c_str, ltb, ◌==◌, if◌then◌else◌,
  Option, none, some,
}

-- `strcasecmp(lhs.c_str(), rhs.c_str()) < 0`
unfoldable pub before : Bytes → Bytes → Bool
before [] [] = false
before [] (y ∷ ys) = true
before (x ∷ xs) [] = false
before (x ∷ xs) (y ∷ ys) = ltb x y || x == y && before xs ys

unfoldable pub string_comparator : Bytes → Bytes → Bool
unfolding before lowercased
string_comparator lhs rhs = before (lowercased (c_str lhs)) (lowercased (c_str rhs))

-- `_parsedHeaders`: the entries of the `std::map`. The order of its tree is not visible in the code.
abbrev pub Headers : Type 0
Headers = List (Bytes × Bytes)

-- Two keys are the same for the map if neither is before the other.
unfoldable pub same_key : Bytes → Bytes → Bool
unfolding string_comparator
same_key a b = not (string_comparator a b) && not (string_comparator b a)

-- `_parsedHeaders.find(header)`
unfoldable pub find_header : Bytes → Headers → Option Bytes
unfolding same_key
find_header header [] = none
find_header header ((key, value) ∷ rest) =
    let later = find_header header rest in if same_key key header then some value else later

-- `_parsedHeaders[key] = value`, which keeps the key that is there.
unfoldable pub set_header : Bytes → Bytes → Headers → Headers
unfolding same_key
set_header header value [] = (header, value) ∷ []
set_header header value ((key, old) ∷ rest) =
    let later = set_header header value rest in
    if same_key key header then (key, value) ∷ rest else (key, old) ∷ later

-- `HttpReply`
pub record HttpReply : Type 0 where
  pub status : ℕ
  pub headers : Bytes
  pub body : Bytes
  pub method : Bytes
  pub resource : Bytes
  pub parsed_headers : Headers

abbrev pub no_reply : HttpReply
no_reply = record {
  status = 0;
  headers = [];
  body = [];
  method = [];
  resource = [];
  parsed_headers = [];
}

-- `HttpReply::hasHeader`
unfoldable pub has_header : HttpReply → Bytes → Bool
unfolding find_header
has_header reply header = elim (find_header header reply.parsed_headers) [
  | none ↦ false
  | some value ↦ true
]

-- `HttpReply::getHeader`
unfoldable pub get_header : HttpReply → Bytes → Bytes
unfolding find_header
get_header reply header = elim (find_header header reply.parsed_headers) [
  | none ↦ []
  | some value ↦ value
]
