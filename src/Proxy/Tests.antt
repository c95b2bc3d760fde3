-- ===== src/Proxy/Tests.antt =====
-- The theorems on the SOCKS5 server and on forwarding at concrete clients.
use nat_punch.Base.{ℕ, ◌≡◌, refl, arith, true, List, [], ◌∷◌}
use nat_punch.File.Clients.{same}
use nat_punch.Proxy.Talk.{next}
use nat_punch.Proxy.Talk.Rules.{After, wire}
use nat_punch.Proxy.Socks5.{
  Accounts, accepts, need_auth, method_offered, Request, domain, connect, user_pass_auth,
  handle_conn,
}
use nat_punch.Proxy.Socks5.Access.{Served, handle_conn-After}
use nat_punch.Base.Int.{pos}
use nat_punch.Proxy.Forward.Limits.{Event, comes, ends, Traffic}
use nat_punch.Proxy.Socks5.Sessions.{ask, login, greet, handle_conn-serves}

-- User `u`, password `p`.
abbrev one_account : Accounts
one_account = record { u = []; p = []; account_map = (117 ∷ [], 112 ∷ []) ∷ [] }

abbrev to_host : Request
to_host = record { command = connect; host = domain (104 ∷ []); port = 443 }

abbrev session : List ℕ
session = greet (0 ∷ 2 ∷ []) (login (117 ∷ []) (112 ∷ []) (ask to_host (7 ∷ [])))

needed : need_auth one_account ≡ true
unfolding need_auth same
needed = refl

offered : method_offered (0 ∷ 2 ∷ []) user_pass_auth ≡ true
unfolding method_offered
offered = refl

accepted : accepts one_account (117 ∷ []) (112 ∷ []) ≡ true
unfolding accepts same
accepted = refl

handle_conn-serves_example :
    handle_conn [] one_account (wire session [] 2)
    ≡ next to_host (wire (7 ∷ []) ((5 ∷ 2 ∷ []) ∷ (1 ∷ 0 ∷ []) ∷ []) 0)
handle_conn-serves_example =
    handle_conn-serves [] one_account (0 ∷ 2 ∷ []) (117 ∷ []) (112 ∷ []) (7 ∷ []) to_host 0 needed
      (omega arith) offered accepted tt

handle_conn-After_example :
    After (λ r w. Served one_account session) (handle_conn [] one_account (wire session [] 2))
handle_conn-After_example = handle_conn-After [] one_account (wire session [] 2)

abbrev no_traffic : Traffic
no_traffic = record {
  gate = record { max_global_conn = 1; global_conn = pos 0 };
  held = 0;
  forwarded = [];
}

-- The address `a:1` is let in once, `b` is on the global list.
abbrev events : List Event
events =
    comes (98 ∷ []) [] true
    ∷ comes (97 ∷ 58 ∷ 49 ∷ []) [] true
    ∷ comes (97 ∷ 58 ∷ 49 ∷ []) [] true
    ∷ ends
    ∷ []
