-- ===== src/Server.antt =====
-- src/Server.h and src/Server.cpp: the handlers of the requests. Time, the generated protobuf code
-- and sha256 are parameters; a handler is a `Program` for the client with a given token.
pub mod Keys
pub mod Messages
pub mod Spec
pub mod Represents
pub mod Refines
pub mod Sessions
pub mod System
pub mod Journey
pub mod StaleLogin
use isolation_server.Common.{
  ℕ, ◌+◌, ◌%◌, Bool, true, false, ◌++◌, [], Option, none, some, Bytes, text, bytes_eq, to_string,
  not, ltb, leb, if◌then◌else◌, length, take,
}
use isolation_server.Util.{append_prot_packet}
use isolation_server.Util.Words.{to_int, to_size, add_int}
use isolation_server.Program.{
  Program, done, undefined, exists, del, persist, hash_get, hash_set, hash_del, set_login_key,
  post_write, deref, ◌>>=◌, ◌>>◌,
}
use Keys.{id_key, client_key, logined_key}
use Messages.{Externals, RegisterAccount, Login, Response, PlayerData}

-- `ParseFromArray(data, length)` at a pointer to `memory`: reading past the memory is undefined.
abbrev pub from_array {ℓ} : {A : Type ℓ} → (Bytes → A) → Bytes → ℕ → Program A
from_array parse memory n =
    if leb n (length memory) then done (parse (take n memory)) else undefined

-- The packet of a response, as the handlers for accounts and player data build it.
unfoldable pub response_packet : ℕ → Bytes → Bytes
response_packet type payload =
    append_prot_packet [] type (to_size (to_int (length payload + 12))) ++ payload

-- The same in HandleRequestLogin, which adds 12 after the cast.
unfoldable pub login_packet : ℕ → Bytes → Bytes
login_packet type payload =
    append_prot_packet [] type (to_size (add_int (to_int (length payload)) 12)) ++ payload

abbrev pub refuse : Bytes → Response
refuse message = record { result = false; message = message }

abbrev pub accept : Response
accept = record { result = true; message = text "ok" }

abbrev pub refuse_data : Bytes → PlayerData
refuse_data message = record {
  result = false;
  message = message;
  nickname = [];
  personal_color = [];
}

-- HandleRequestPlayerData, for a message that parses: its reads, and its checks from the last to
-- the first.
unfoldable pub read_account : Bytes → Program PlayerData
read_account id = do
  nickname_found ← hash_get (id_key id) (text "nickname")
  color_found ← hash_get (id_key id) (text "personalColor")
  persist (id_key id)
  nickname ← deref nickname_found
  color ← deref color_found
  done (record { result = true; message = text "ok"; nickname = nickname; personal_color = color })

unfoldable pub check_account : Option Bytes → Program PlayerData
unfolding read_account
check_account none = done (refuse_data (text "needLogin"))
check_account (some id) = do
  known ← exists (id_key id)
  if known then read_account id else done (refuse_data (text "invalidId"))

unfoldable pub check_login : (token : ℕ) → Program PlayerData
unfolding check_account
check_login token = do
  login_id ← hash_get (client_key token) (text "loginId")
  check_account login_id

unfoldable pub player_data : (token : ℕ) → Program PlayerData
unfolding check_login
player_data token = do
  known ← exists (client_key token)
  if known then check_login token else done (refuse_data (text "invalidToken"))

module _ (E : Externals) where
  -- The three HSET of a new account.
  unfoldable pub store : RegisterAccount → Program Response
  store m = do
    hash_set (id_key m.id) (text "password") (E.sha256 m.password)
    hash_set (id_key m.id) (text "nickname") m.nickname
    hash_set (id_key m.id) (text "personalColor") m.personal_color
    done accept

  -- HandleRequestCreationAccount, for a message that parses.
  unfoldable pub create_account : RegisterAccount → Program Response
  unfolding store
  create_account m =
      if ltb (length m.id) 2
      then done (refuse (text "idLength<2"))
      else if ltb (length m.password) 2
      then done (refuse (text "passwordLength<2"))
      else if ltb (length m.nickname) 2
      then done (refuse (text "nicknameLength<2"))
      else do
        used ← exists (id_key m.id)
        if used then done (refuse (text "idAleadyInUse")) else store m

  -- A message that does not parse.
  unfoldable pub creation_account_result : Option RegisterAccount → Program Response
  unfolding create_account
  creation_account_result none = done (refuse (text "parsingError"))
  creation_account_result (some m) = create_account m

  unfoldable pub handle_request_creation_account : Bytes → ℕ → Program (Unit {0})
  unfolding creation_account_result
  handle_request_creation_account serialized_data length = do
    received ← from_array E.parse_request_register_account serialized_data length
    response ← creation_account_result received
    post_write (
        response_packet E.response_register_account
          (E.serialize_response_register_account response))

  -- HandleRequestLogin, for a message that parses, at a time in milliseconds: its writes, and its
  -- checks from the last to the first.
  unfoldable pub enter : (now token : ℕ) → Login → Program Response
  enter now token m = do
    hash_set (client_key token) (text "loginId") m.id
    hash_set (logined_key m.id) (text "token") (to_string token)
    hash_set (logined_key m.id) (text "loginTime") (to_string now)
    set_login_key (logined_key m.id)
    done accept

  unfoldable pub check_logined : (now token : ℕ) → Login → Program Response
  unfolding enter
  check_logined now token m = do
    busy ← exists (logined_key m.id)
    if busy then done (refuse (text "loginedAlready")) else enter now token m

  unfoldable pub check_password : (now token : ℕ) → Login → Program Response
  unfolding check_logined
  check_password now token m = do
    found ← hash_get (id_key m.id) (text "password")
    stored ← deref found
    if bytes_eq stored (E.sha256 m.password)
        then check_logined now token m
        else done (refuse (text "passwordMismatch"))

  unfoldable pub login : (now token : ℕ) → Login → Program Response
  unfolding check_password
  login now token m = do
    known ← exists (id_key m.id)
    if known then check_password now token m else done (refuse (text "idDoesNotExsist"))

  unfoldable pub login_result : (now token : ℕ) → Option Login → Program Response
  unfolding login
  login_result now token none = done (refuse (text "parsingError"))
  login_result now token (some m) = login now token m

  unfoldable pub handle_request_login : (now token : ℕ) → Bytes → ℕ → Program (Unit {0})
  unfolding login_result
  handle_request_login now token serialized_data length = do
    received ← from_array E.parse_request_login serialized_data length
    response ← login_result now token received
    post_write (login_packet E.response_login (E.serialize_response_login response))

  unfoldable pub handle_request_player_data : (token : ℕ) → Bytes → ℕ → Program (Unit {0})
  unfolding player_data
  handle_request_player_data token serialized_data length = do
    parses ← from_array E.parse_request_player_data serialized_data length
    response ← (if parses then player_data token else done (refuse_data (text "parsingError")))
    post_write (response_packet E.response_player_data (E.serialize_response_player_data response))

-- LogoutClient, for a client whose login id was found or not.
unfoldable pub end_login : (token : ℕ) → Option Bytes → Program (Unit {0})
end_login token none = done tt
end_login token (some id) = do
  set_login_key (text "noLogined")
  del (logined_key id)
  hash_del (client_key token) (text "loginId")
  done tt

unfoldable pub logout_known : (token : ℕ) → Program (Unit {0})
unfolding end_login
logout_known token = do
  login_id ← hash_get (client_key token) (text "loginId")
  end_login token login_id

unfoldable pub logout_client : (token : ℕ) → Program (Unit {0})
unfolding logout_known
logout_client token = do
  known ← exists (client_key token)
  if not known then done tt else logout_known token

unfoldable pub handle_request_logout : Externals → (token : ℕ) → Bytes → ℕ → Program (Unit {0})
unfolding logout_client
handle_request_logout E token serialized_data length = do
  parses ← from_array E.parse_request_logout serialized_data length
  if parses then logout_client token else done tt

-- The HashSet of AddClient, at a time in milliseconds.
unfoldable pub announce : (now token : ℕ) → Program (Unit {0})
announce now token = do hash_set (client_key token) (text "ConnectedTime") (to_string now); done tt

-- The Del of RemoveClient.
unfoldable pub forget : (token : ℕ) → Program (Unit {0})
forget token = do del (client_key token); done tt
