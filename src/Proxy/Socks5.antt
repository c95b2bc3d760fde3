-- ===== src/Proxy/Socks5.antt =====
-- `Sock5ModeServer` of server/proxy/socks5.go, from the first byte of a connection to the request
-- that is handed on. The text that Go makes of an address is left as its bytes.
pub mod Access
pub mod Sessions
use nat_punch.Base.{
  ℕ, zero, suc, ◌+◌, ◌*◌, Bool, true, false, not, ◌&&◌, ◌||◌, List, [], ◌∷◌, ◌++◌, Option, none,
  some, length, get_or, ◌==◌, if◌then◌else◌,
}
use nat_punch.File.Clients.{same}
use nat_punch.Proxy.Talk.{
  Wire, Step, next, stop, Talk, and_then, ◌>>=◌, ◌>>◌, give, quit, put, silent, read, write,
}

abbrev pub ip_v4 : ℕ
ip_v4 = 1

abbrev pub domain_name : ℕ
domain_name = 3

abbrev pub ip_v6 : ℕ
ip_v6 = 4

abbrev pub connect_method : ℕ
connect_method = 1

abbrev pub bind_method : ℕ
bind_method = 2

abbrev pub associate_method : ℕ
associate_method = 3

abbrev pub server_failure : ℕ
server_failure = 1

abbrev pub command_not_supported : ℕ
command_not_supported = 7

abbrev pub addr_type_not_supported : ℕ
addr_type_not_supported = 8

abbrev pub user_pass_auth : ℕ
user_pass_auth = 2

abbrev pub user_auth_version : ℕ
user_auth_version = 1

abbrev pub auth_success : ℕ
auth_success = 0

abbrev pub auth_failure : ℕ
auth_failure = 1

-- The account of the client, and the accounts of the tunnel, a map from users to passwords.
pub record Accounts : Type 0 where
  pub u : List ℕ
  pub p : List ℕ
  pub account_map : List (List ℕ × List ℕ)

abbrev pub password_of : List ℕ → List (List ℕ × List ℕ) → Option (List ℕ)
password_of user [] = none
password_of user ((name, pass) ∷ m) =
    let rest = password_of user m in if same user name then some pass else rest

abbrev pub expects : Option (List ℕ) → List ℕ → Bool
expects none pass = false
expects (some expected) pass = same pass expected

abbrev pub any : List (List ℕ × List ℕ) → Bool
any [] = false
any (account ∷ m) = true

unfoldable pub accepts : Accounts → List ℕ → List ℕ → Bool
accepts a user pass =
    if any a.account_map
    then expects (password_of user a.account_map) pass
    else same user a.u && same pass a.p

unfoldable pub need_auth : Accounts → Bool
need_auth a = not (same a.u []) && not (same a.p []) || any a.account_map

unfoldable pub method_offered : List ℕ → ℕ → Bool
method_offered [] method = false
method_offered (m ∷ ms) method = let rest = method_offered ms method in m == method || rest

pub data Command : Type 0 where
  connect associate : Command

pub data Host : Type 0 where
  v4 v6 domain : List ℕ → Host

pub record Request : Type 0 where
  pub command : Command
  pub host : Host
  pub port : ℕ

abbrev pub byte : List ℕ → ℕ
byte b = get_or b 0 0

unfoldable pub check : Accounts → List ℕ → List ℕ → Talk (Unit {0})
check a user pass =
    if accepts a user pass
    then write (user_auth_version ∷ auth_success ∷ [])
    else (write (user_auth_version ∷ auth_failure ∷ []) >> quit silent)

-- `Auth`; every error of it closes the connection.
unfoldable pub auth : Accounts → Talk (Unit {0})
auth a = do
  header ← read silent 2
  if not (get_or header 0 0 == user_auth_version) then quit silent else (do
    user ← read silent (get_or header 1 0)
    plen ← read silent 1
    pass ← read silent (byte plen)
    check a user pass)

unfoldable pub agree : Accounts → List ℕ → Talk (Unit {0})
agree a methods =
    if need_auth a
    then (if not (method_offered methods user_pass_auth)
        then quit (put (5 ∷ 255 ∷ []))
        else (write (5 ∷ user_pass_auth ∷ []) >> auth a))
    else write (5 ∷ 0 ∷ [])

-- `local` is the address and port that a reply reports, as Go encodes them.
module _ (local : List ℕ) where
  abbrev pub send_reply : ℕ → Wire → Wire
  send_reply rep w = put (5 ∷ rep ∷ 0 ∷ 1 ∷ local) w

  abbrev pub fail : {A : Type 0} → ℕ → Talk A
  fail rep = quit (send_reply rep)

  unfoldable pub read_domain : Talk Host
  read_domain = do
    domain_len ← read (send_reply server_failure) 1
    name ← read (send_reply server_failure) (byte domain_len)
    give (domain name)

  unfoldable pub read_v4 : Talk Host
  read_v4 = do b ← read (send_reply server_failure) 4; give (v4 b)

  unfoldable pub read_v6 : Talk Host
  read_v6 = do b ← read (send_reply server_failure) 16; give (v6 b)

  unfoldable pub read_host : ℕ → Talk Host
  read_host addr_type =
      if addr_type == ip_v4
      then read_v4
      else if addr_type == ip_v6
      then read_v6
      else if addr_type == domain_name
      then read_domain
      else fail addr_type_not_supported

  -- What `doConnect` and `handleUDP` read before they reach out.
  unfoldable pub read_target : Command → Talk Request
  read_target command = do
    addr_type ← read (send_reply server_failure) 1
    host ← read_host (byte addr_type)
    port ← read (send_reply server_failure) 2
    give (record { command = command; host = host; port = get_or port 0 0 * 256 + get_or port 1 0 })

  unfoldable pub handle_command : ℕ → Talk Request
  handle_command method =
      if method == connect_method
      then read_target connect
      else if method == bind_method
      then fail command_not_supported
      else if method == associate_method
      then read_target associate
      else fail command_not_supported

  unfoldable pub handle_request : Talk Request
  handle_request = do header ← read silent 3; handle_command (get_or header 1 0)

  unfoldable pub negotiate : Accounts → List ℕ → Talk Request
  negotiate a greeting =
      if not (get_or greeting 0 0 == 5)
      then quit silent
      else if get_or greeting 1 0 == 0
      then quit silent
      else (do methods ← read silent (get_or greeting 1 0); agree a methods; handle_request)

  unfoldable pub handle_conn : Accounts → Talk Request
  handle_conn a = do greeting ← read silent 2; negotiate a greeting
