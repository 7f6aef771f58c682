-- ===== src/Request.antt =====
-- server/src/request.hpp: what a request carries to the database workers.
use o2chat.Prelude.{ℕ, Bytes, []}
use o2chat.Common.{Cmd}

-- `RequestDetails::Params`; `chat_name` and `chat_adduser` are the fields of its struct `chat`.
pub record Params : Type 0 where
  pub uid : ℕ
  pub ts : ℕ
  pub count : ℕ
  pub message : Bytes
  pub to_user : Bytes
  pub user : Bytes
  pub password : Bytes
  pub chat_name : Bytes
  pub chat_adduser : Bytes

abbrev pub no_params : Params
no_params = record {
  uid = 0;
  ts = 0;
  count = 0;
  message = [];
  to_user = [];
  user = [];
  password = [];
  chat_name = [];
  chat_adduser = [];
}

-- `RequestDetails`
pub record RequestDetails : Type 0 where
  pub params : Params
  pub command : Cmd
  pub remote_address : Bytes
  pub resource : Bytes
  pub method : Bytes
  pub sessid : Bytes
