-- ===== src/Bridge/Sending.antt =====
-- How the server opens a connection to a client: `register`, `SendLinkInfo` and `SendShellResize` of
-- bridge/bridge.go. Times and durations are nanoseconds; a duration is an `int64`.
use nat_punch.Base.{
  ℕ, ◌+◌, ◌-◌, ◌*◌, ◌%◌, ◌^◌, ◌<◌, ◌≡◌, ap, ◌∙◌, arith, Bool, true, false, List, [], ◌∷◌, Option,
  none, some, ltb, if◌then◌else◌,
}
use nat_punch.Base.Bytes.{codes}
use nat_punch.Base.Int.{ℤ, pos, negsuc, ltb_ℤ, ◌+ℤ◌}
use nat_punch.Base.Maps.{lookup}
use nat_punch.File.Clients.{same}
use nat_punch.File.Clients.Keys.{same_refl}
use nat_punch.File.Hosts.{get_ip_by_addr}
use nat_punch.Bridge.{Entry, Bridge}

-- `lib/conn.Link`, without its options.
pub record Link : Type 0 where
  pub conn_type : List ℕ
  pub host : List ℕ
  pub local_proxy : Bool
  pub remote_addr : List ℕ
  pub shell_id : List ℕ
  pub cols : ℕ
  pub rows : ℕ

-- The map from addresses to times, by its last entry for an address.
abbrev pub load : List ℕ → List (List ℕ × ℤ) → Option ℤ
load ip [] = none
load ip ((k, t) ∷ m) = let rest = load ip m in if same k ip then some t else rest

unfoldable pub hour : ℕ
hour = 3600 * 10 ^ 9

-- `time.Hour * time.Duration(hour)`, of an `int32`.
unfoldable pub to_int64 : ℕ → ℤ
to_int64 word = if ltb word (2 ^ 63) then pos word else negsuc (2 ^ 64 - 1 - word)

unfoldable pub hours : ℤ → ℤ
unfolding hour
hours (pos h) = to_int64 (h * hour % 2 ^ 64)
hours (negsuc h) = to_int64 ((2 ^ 64 - (h + 1) * hour % 2 ^ 64) % 2 ^ 64)

-- What the client sends is read by the caller; `none` is an error.
unfoldable pub register : ℕ → List ℕ → Option ℤ → Bridge → Bridge
register now remote none b = b
register now remote (some h) b = record b {
  register = (get_ip_by_addr remote, pos now +ℤ hours h) ∷ b.register;
}

pub data Error : Type 0 where
  not_listed expired no_tunnel not_connected not_opened not_sent : Error

-- A connection through the tunnel `t`, or one that the server dials itself; `failed` may leave a
-- connection behind.
pub data Outcome : Type 0 where
  dials : (host : List ℕ) → Outcome
  connected : (t : ℕ) → Outcome
  failed : Error → Outcome

-- `opens` is whether `NewConn` of a tunnel succeeds, `sends` whether the link is written.
module _ (opens : ℕ → Bool) (sends : Bool) where
  abbrev pub through : Option ℕ → Outcome
  through none = failed no_tunnel
  through (some t) =
      if opens t then (if sends then connected t else failed not_sent) else failed not_opened

  abbrev pub allowed_until : ℕ → Entry → Option ℤ → Outcome
  allowed_until now cl none = failed not_listed
  allowed_until now cl (some until) =
      if ltb_ℤ (pos now) until then through cl.tunnel else failed expired

  abbrev pub to_entry : ℕ → List ℕ → Bridge → Option Entry → Outcome
  to_entry now remote b none = failed not_connected
  to_entry now remote b (some cl) =
      if b.ip_verify
      then allowed_until now cl (load (get_ip_by_addr remote) b.register)
      else through cl.tunnel

  unfoldable pub send_link_info : ℕ → ℕ → Link → Bridge → Outcome
  send_link_info now client_id link b =
      if link.local_proxy
      then dials link.host
      else to_entry now link.remote_addr b (lookup client_id b.client)

  -- `SendShellResize`.
  unfoldable pub send_shell_resize :
      ℕ → (client_id : ℕ) (shell_id : List ℕ) (cols rows : ℕ) → Bridge → Outcome
  send_shell_resize now client_id shell_id cols rows b =
      send_link_info now client_id
        (record {
          conn_type = codes "shellresize";
          host = [];
          local_proxy = false;
          remote_addr = [];
          shell_id = shell_id;
          cols = cols;
          rows = rows;
        })
        b

  hours_small : (h : ℕ) → h * hour < 2 ^ 63 → hours (pos h) ≡ pos (h * hour)
  unfolding hours to_int64 hour
  hours_small h small =
      let word : h * (3600 * 10 ^ 9) % 2 ^ 64 ≡ h * (3600 * 10 ^ 9) = omega (arith, small) in
      rw word (ground (arith, small))

  add_pos : (a b : ℕ) → pos a +ℤ pos b ≡ pos (a + b)
  unfolding ◌+ℤ◌
  add_pos a b = ground arith

  -- Where addresses are verified, an address that is registered at the time `now` for `h` hours,
  -- few enough for a duration, is let through to the tunnel of the client until that time has
  -- passed, and is refused as expired from then on.
  pub send_link_info-register :
      (now later h client_id t : ℕ) (remote : List ℕ) (link : Link) (cl : Entry) (b : Bridge)
      → b.ip_verify ≡ true
      → link.local_proxy ≡ false
      → get_ip_by_addr link.remote_addr ≡ get_ip_by_addr remote
      → lookup client_id b.client ≡ some cl
      → cl.tunnel ≡ some t
      → h * hour < 2 ^ 63
      → send_link_info later client_id link (register now remote (some (pos h)) b)
        ≡ (if ltb later (now + h * hour) then through (some t) else failed expired)
  unfolding send_link_info register
  send_link_info-register now later h client_id t remote link cl b verify away ip at tunnel small =
      let until : pos now +ℤ hours (pos h) ≡ pos (now + h * hour) =
        ap (λ d. pos now +ℤ d) (hours_small h small) ∙ add_pos now (h * hour) in
      rw (away, verify, at, ip, same_refl (get_ip_by_addr remote), until, tunnel) (ground arith)
