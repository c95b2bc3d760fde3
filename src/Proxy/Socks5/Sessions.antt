-- ===== src/Proxy/Socks5/Sessions.antt =====
-- A client that follows the protocol, as RFC 1928 and RFC 1929 write it.
use nat_punch.Base.{
  ℕ, suc, ◌+◌, ◌*◌, ◌/◌, ◌%◌, ◌≡◌, ◌≢◌, refl, ap, ◌∙◌, arith, true, false, List, [], ◌∷◌, ◌++◌,
  length, get_or, ◌==◌,
}
use nat_punch.Proxy.Talk.{Talk, give, ◌>>=◌, next, and_then, silent, read, write, put}
use nat_punch.Proxy.Talk.Rules.{wire, read-front, and_then_assoc}
use nat_punch.Proxy.Socks5.{
  Accounts, accepts, need_auth, method_offered, Request, Host, v4, v6, domain, Command, connect,
  associate, server_failure, send_reply, user_pass_auth, read_domain, read_v4, read_v6, read_host,
  read_target, handle_command, handle_request, check, auth, agree, negotiate, handle_conn,
}

abbrev pub command_byte : Command → ℕ
command_byte connect = 1
command_byte associate = 3

abbrev pub host_bytes : Host → List ℕ
host_bytes (v4 b) = 1 ∷ b
host_bytes (v6 b) = 4 ∷ b
host_bytes (domain b) = 3 ∷ length b ∷ b

abbrev pub WellFormed : Host → Type 0
WellFormed (v4 b) = length b ≡ 4
WellFormed (v6 b) = length b ≡ 16
WellFormed (domain b) = Unit

-- A request as RFC 1928 sends it, before `rest`; the third byte is reserved.
abbrev pub ask : Request → List ℕ → List ℕ
ask r rest =
    5 ∷ command_byte r.command ∷ 0 ∷ (host_bytes r.host ++ (r.port / 256 ∷ r.port % 256 ∷ rest))

abbrev pub login : List ℕ → List ℕ → List ℕ → List ℕ
login user pass rest = 1 ∷ length user ∷ (user ++ (length pass ∷ (pass ++ rest)))

abbrev pub greet : List ℕ → List ℕ → List ℕ
greet methods rest = 5 ∷ length methods ∷ (methods ++ rest)

module _ (local : List ℕ) (rest : List ℕ) (sent : List (List ℕ)) (n : ℕ) where
  abbrev port_input : ℕ → List ℕ
  port_input port = port / 256 ∷ port % 256 ∷ rest

  host-asked :
      (h : Host) (after : List ℕ)
      → WellFormed h
      → and_then
          (read (send_reply local server_failure) 1 (wire (host_bytes h ++ after) sent n))
          (λ b. read_host local (get_or b 0 0))
        ≡ next h (wire after sent n)
  unfolding read_host read_v4 read_v6 read_domain
  host-asked (v4 b) after e =
      let say = send_reply local server_failure in
      rw (read-front say 1 (1 ∷ []) (b ++ after) sent n refl, read-front say 4 b after sent n e)
        refl
  host-asked (v6 b) after e =
      let say = send_reply local server_failure in
      rw (read-front say 1 (4 ∷ []) (b ++ after) sent n refl, read-front say 16 b after sent n e)
        refl
  host-asked (domain b) after e =
      let say = send_reply local server_failure in
      rw
        (
          read-front say 1 (3 ∷ []) (length b ∷ (b ++ after)) sent n refl,
          read-front say 1 (length b ∷ []) (b ++ after) sent n refl,
          read-front say (length b) b after sent n refl,
        )
        refl

  with_port : Command → Host → Talk Request
  with_port c h = do
    port ← read (send_reply local server_failure) 2
    give (record { command = c; host = h; port = get_or port 0 0 * 256 + get_or port 1 0 })

  target-asked :
      (c : Command) (h : Host) (port : ℕ)
      → WellFormed h
      → read_target local c (wire (host_bytes h ++ port_input port) sent n)
        ≡ next (record { command = c; host = h; port = port }) (wire rest sent n)
  unfolding read_target with_port
  target-asked c h port e =
      let say = send_reply local server_failure in
      let split : port / 256 * 256 + port % 256 ≡ port = omega arith in
      and_then_assoc (read say 1 (wire (host_bytes h ++ port_input port) sent n)) _ (with_port c)
      ∙ ap (λ s. and_then s (with_port c)) (host-asked h (port_input port) e)
      ∙ rw (read-front say 2 (port / 256 ∷ port % 256 ∷ []) rest sent n refl)
          (ap (λ p. next (record { command = c; host = h; port = p }) (wire rest sent n)) split)

  request-asked :
      (r : Request)
      → WellFormed r.host
      → handle_request local (wire (ask r rest) sent n) ≡ next r (wire rest sent n)
  unfolding handle_request handle_command read_target
  request-asked r e =
      rw
        (read-front silent 3 (5 ∷ command_byte r.command ∷ 0 ∷ [])
          (host_bytes r.host ++ port_input r.port) sent n refl)
        (commanded r.command)
    where
      commanded :
          (c : Command)
          → handle_command local
              (command_byte c)
              (wire (host_bytes r.host ++ port_input r.port) sent n)
            ≡ next (record { command = c; host = r.host; port = r.port }) (wire rest sent n)
      commanded connect = target-asked connect r.host r.port e
      commanded associate = target-asked associate r.host r.port e

module _ (a : Accounts) (user pass rest : List ℕ) (sent : List (List ℕ)) (n : ℕ) where
  auth-login :
      accepts a user pass ≡ true
      → auth a (wire (login user pass rest) sent (suc n))
        ≡ next tt (wire rest (sent ++ (1 ∷ 0 ∷ []) ∷ []) n)
  unfolding auth check write put
  auth-login e =
      rw
        (
          read-front silent 2 (1 ∷ length user ∷ []) (user ++ (length pass ∷ (pass ++ rest))) sent
              (suc n) refl,
          read-front silent (length user) user (length pass ∷ (pass ++ rest)) sent (suc n) refl,
          read-front silent 1 (length pass ∷ []) (pass ++ rest) sent (suc n) refl,
          read-front silent (length pass) pass rest sent (suc n) refl,
          e,
        )
        refl

-- Where a login is needed, a client with an account the server accepts, which offers that way of login
-- among its methods, of which there are some, and asks for a well-formed address and port, is served
-- exactly this request, after two writes, if these succeed, with nothing taken of what follows.
pub handle_conn-serves :
    (local : List ℕ) (a : Accounts) (methods user pass rest : List ℕ) (r : Request) (n : ℕ)
    → need_auth a ≡ true
    → length methods ≢ 0
    → method_offered methods user_pass_auth ≡ true
    → accepts a user pass ≡ true
    → WellFormed r.host
    → handle_conn local a (wire (greet methods (login user pass (ask r rest))) [] (suc (suc n)))
      ≡ next r (wire rest ((5 ∷ 2 ∷ []) ∷ (1 ∷ 0 ∷ []) ∷ []) n)
unfolding handle_conn negotiate agree write put
handle_conn-serves local a methods user pass rest r n needed some offered accepted well =
    let more = login user pass (ask r rest) in
    let count : (length methods == 0) ≡ false = ground (arith, some) in
    rw
      (
        read-front silent 2 (5 ∷ length methods ∷ []) (methods ++ more) [] (suc (suc n)) refl,
        count,
        read-front silent (length methods) methods more [] (suc (suc n)) refl,
        needed,
        offered,
        auth-login a user pass (ask r rest) ((5 ∷ 2 ∷ []) ∷ []) n accepted,
      )
      (request-asked local rest ((5 ∷ 2 ∷ []) ∷ (1 ∷ 0 ∷ []) ∷ []) n r well)
