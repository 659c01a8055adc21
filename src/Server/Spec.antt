-- ===== src/Server/Spec.antt =====
-- What the server keeps in redis, seen without keys and fields: the accounts, what is known of each
-- connection, and which connection holds the login of an id. Each operation is a function of it.
use isolation_server.Common.{
  ℕ, Bool, true, ◌==◌, Option, none, some, Bytes, text, bytes_eq, ltb, if◌then◌else◌, length,
}
use isolation_server.Server.{refuse, accept, refuse_data}
use isolation_server.Server.Messages.{RegisterAccount, Login, Response, PlayerData}

pub record Account : Type 0 where
  pub password_hash : Bytes
  pub nickname : Bytes
  pub personal_color : Bytes

-- `connected_time` and `login_id` of a connection.
pub record Presence : Type 0 where
  pub connected_time : Bytes
  pub login_id : Option Bytes

pub record View : Type 0 where
  pub account : Bytes → Option Account
  pub presence : ℕ → Option Presence
  pub holder : Bytes → Option ℕ

abbrev pub at_id {ℓ} : {A : Type ℓ} → (Bytes → A) → Bytes → A → Bytes → A
at_id f id value j = if bytes_eq id j then value else f j

abbrev pub at_token : (ℕ → Option Presence) → ℕ → Option Presence → ℕ → Option Presence
at_token f token value j = if token == j then value else f j

abbrev pub with_login : Option Bytes → Option Presence → Option Presence
with_login id none = none
with_login id (some p) = some (record p { login_id = id })

abbrev pub log_in : ℕ → Bytes → View → View
log_in token id v = record v {
  presence = at_token v.presence token (with_login (some id) (v.presence token));
  holder = at_id v.holder id (some token);
}

module _ (sha256 : Bytes → Bytes) where
  abbrev pub new_account : RegisterAccount → Account
  new_account m = record {
    password_hash = sha256 m.password;
    nickname = m.nickname;
    personal_color = m.personal_color;
  }

  abbrev pub register_free : RegisterAccount → View → Option Account → Response × View
  register_free m v (some taken) = (refuse (text "idAleadyInUse"), v)
  register_free m v none =
      (accept, record v { account = at_id v.account m.id (some (new_account m)) })

  unfoldable pub register : RegisterAccount → View → Response × View
  register m v =
      if ltb (length m.id) 2
      then (refuse (text "idLength<2"), v)
      else if ltb (length m.password) 2
      then (refuse (text "passwordLength<2"), v)
      else if ltb (length m.nickname) 2
      then (refuse (text "nicknameLength<2"), v)
      else register_free m v (v.account m.id)

  -- A request whose message does not parse is refused.
  unfoldable pub register_message : Option RegisterAccount → View → Response × View
  register_message none v = (refuse (text "parsingError"), v)
  register_message (some m) v = register m v

  abbrev pub enter_free : ℕ → Login → View → Option ℕ → Response × View
  enter_free token m v (some other) = (refuse (text "loginedAlready"), v)
  enter_free token m v none = (accept, log_in token m.id v)

  abbrev pub enter_known : ℕ → Login → View → Option Account → Response × View
  enter_known token m v none = (refuse (text "idDoesNotExsist"), v)
  enter_known token m v (some a) =
      if bytes_eq a.password_hash (sha256 m.password)
      then enter_free token m v (v.holder m.id)
      else (refuse (text "passwordMismatch"), v)

  unfoldable pub enter : ℕ → Login → View → Response × View
  enter token m v = enter_known token m v (v.account m.id)

  unfoldable pub enter_message : ℕ → Option Login → View → Response × View
  enter_message token none v = (refuse (text "parsingError"), v)
  enter_message token (some m) v = enter token m v

abbrev pub data_of : Option Account → PlayerData
data_of none = refuse_data (text "invalidId")
data_of (some a) = record {
  result = true;
  message = text "ok";
  nickname = a.nickname;
  personal_color = a.personal_color;
}

abbrev pub data_at : View → Option Presence → PlayerData
data_at v none = refuse_data (text "invalidToken")
data_at v (some p) = elim p.login_id [
  | none ↦ refuse_data (text "needLogin")
  | some id ↦ data_of (v.account id)
]

unfoldable pub read_data : ℕ → View → PlayerData
read_data token v = data_at v (v.presence token)

unfoldable pub read_data_message : ℕ → Bool → View → PlayerData
read_data_message token parses v =
    if parses then read_data token v else refuse_data (text "parsingError")

abbrev pub log_out : ℕ → Bytes → View → View
log_out token id v = record v {
  presence = at_token v.presence token (with_login none (v.presence token));
  holder = at_id v.holder id none;
}

abbrev pub leave_at : ℕ → View → Option Presence → View
leave_at token v none = v
leave_at token v (some p) = elim p.login_id [ none ↦ v | some id ↦ log_out token id v ]

unfoldable pub leave : ℕ → View → View
leave token v = leave_at token v (v.presence token)

abbrev pub connect_at : Bytes → Option Presence → Presence
connect_at time none = record { connected_time = time; login_id = none }
connect_at time (some p) = record p { connected_time = time }

-- A connection is announced with its time.
unfoldable pub connect : (time : Bytes) → ℕ → View → View
connect time token v = record v {
  presence = at_token v.presence token (some (connect_at time (v.presence token)));
}

-- A connection ends: its login first, and then what is known of it.
unfoldable pub disconnect : ℕ → View → View
disconnect token v = record (leave token v) {
  presence = at_token (leave token v).presence token none;
}
