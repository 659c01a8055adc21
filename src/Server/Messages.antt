-- ===== src/Server/Messages.antt =====
-- The messages of authentication_message.proto that the server reads and writes, as the fields that
-- it uses, and the generated code and sha256 as parameters.
use isolation_server.Common.{ℕ, Bool, Option, Bytes}

pub record RegisterAccount : Type 0 where
  pub id : Bytes
  pub password : Bytes
  pub nickname : Bytes
  pub personal_color : Bytes

pub record Login : Type 0 where
  pub id : Bytes
  pub password : Bytes

-- PMResponseRegisterAccount and PMResponseLogin; the default of `result` is false.
pub record Response : Type 0 where
  pub result : Bool
  pub message : Bytes

-- PMResponsePlayerData
pub record PlayerData : Type 0 where
  pub result : Bool
  pub message : Bytes
  pub nickname : Bytes
  pub personal_color : Bytes

-- Code that is not the repository's: the classes that protoc generates (a parser gives none, or
-- false, where ParseFromArray returns false; the numbers are those of the message types), and the
-- sha256 of zedwood.com.
pub record Externals : Type 0 where
  pub parse_request_register_account : Bytes → Option RegisterAccount
  pub parse_request_login : Bytes → Option Login
  pub parse_request_player_data : Bytes → Bool
  pub parse_request_logout : Bytes → Bool
  pub serialize_response_register_account : Response → Bytes
  pub serialize_response_login : Response → Bytes
  pub serialize_response_player_data : PlayerData → Bytes
  pub request_register_account : ℕ
  pub response_register_account : ℕ
  pub request_login : ℕ
  pub response_login : ℕ
  pub request_player_data : ℕ
  pub response_player_data : ℕ
  pub request_logout : ℕ
  pub em_disconnected : ℕ
  pub sha256 : Bytes → Bytes
