-- ===== src/Common.antt =====
-- common/common.hpp: the commands of the protocol, their resources, and the status codes.
use o2chat.Prelude.{ℕ, Bytes, codes}

-- `common::cmd_t`
pub data Cmd : Type 0 where
  message_send message_send_chat user_create user_login user_history user_status : Cmd
  chat_create chat_history chat_status chat_adduser : Cmd
  message_recent idle cmd_last : Cmd

-- The numbers of the enumerators.
pub cmd_code : Cmd → ℕ
cmd_code Cmd.message_send = 1
cmd_code Cmd.message_send_chat = 2
cmd_code Cmd.user_create = 3
cmd_code Cmd.user_login = 4
cmd_code Cmd.user_history = 5
cmd_code Cmd.user_status = 6
cmd_code Cmd.chat_create = 7
cmd_code Cmd.chat_history = 8
cmd_code Cmd.chat_status = 9
cmd_code Cmd.chat_adduser = 10
cmd_code Cmd.message_recent = 11
cmd_code Cmd.idle = 12
cmd_code Cmd.cmd_last = 13

-- `cmd2string`
unfoldable pub cmd_to_string : Cmd → Bytes
cmd_to_string Cmd.message_send = codes "/v1/message/send"
cmd_to_string Cmd.message_send_chat = codes "/v1/message/sendchat"
cmd_to_string Cmd.user_create = codes "/v1/user/create"
cmd_to_string Cmd.user_login = codes "/v1/user/login"
cmd_to_string Cmd.chat_create = codes "/v1/chat/create"
cmd_to_string Cmd.user_history = codes "/v1/user/history"
cmd_to_string Cmd.chat_history = codes "/v1/group/history"
cmd_to_string Cmd.user_status = codes "/v1/user/status"
cmd_to_string Cmd.chat_status = codes "/v1/chat/status"
cmd_to_string Cmd.chat_adduser = codes "/v1/chat/adduser"
cmd_to_string Cmd.message_recent = codes "/v1/message/recent"
cmd_to_string Cmd.idle = codes "/v1/idle"
cmd_to_string Cmd.cmd_last = codes "undefined_cmd"

-- `common::ApiStatusCode`
pub data ApiStatusCode : Type 0 where
  err_none err_bad_request err_internal err_not_found err_constraint : ApiStatusCode

pub status_code : ApiStatusCode → ℕ
status_code ApiStatusCode.err_none = 0
status_code ApiStatusCode.err_bad_request = 1
status_code ApiStatusCode.err_internal = 2
status_code ApiStatusCode.err_not_found = 3
status_code ApiStatusCode.err_constraint = 4
