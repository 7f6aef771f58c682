-- ===== src/Json.antt =====
-- The JSON values that the program hands to rapidjson's writer and gets from its parser. The text
-- form is rapidjson's: the writer and the parser are parameters of the modules that use them.
use o2chat.Prelude.{ℕ, Bytes, Option, none, some, ◌=?◌, if◌then◌else◌}

mutual
  pub data Json : Type 0 where
    -- An unsigned integer.
    uint : ℕ → Json
    string : Bytes → Json
    array : Items → Json
    object : Members → Json
    -- null, a Boolean, a negative number or a number with a fraction.
    other : Json

  pub data Items : Type 0 where
    nil : Items
    cons : Json → Items → Items

  pub data Members : Type 0 where
    end : Members
    member : Bytes → Json → Members → Members

-- What the program gets from libraries that it links: the rapidjson writer and parser (`none` is a
-- parse error), and the checksum of `boost::crc_32_type`.
pub record External : Type 0 where
  pub write : Json → Bytes
  pub parse : Bytes → Option Json
  pub checksum : Bytes → ℕ

-- `FindMember` on an object: the first member with the name.
unfoldable pub find_member : Bytes → Members → Option Json
find_member k end = none
find_member k (member j v ms) = if j =? k then some v else find_member k ms
