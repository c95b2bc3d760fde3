-- ===== src/Proxy/Socks5/Access.antt =====
-- Who gets through the negotiation of `handleConn`.
use mathlib.Core.Path.{ap₂}
use nat_punch.Base.{
  ℕ, ◌≡◌, refl, sym, ap, ◌∙◌, subst, arith, true, false, not, List, [], ◌∷◌, ◌++◌, append_assoc,
  length, get_or, ◌==◌, ◌⊎◌, inl, inr,
}
use nat_punch.Proxy.Talk.{Wire, Step, next, stop, Talk, and_then, silent, read, write}
use nat_punch.Proxy.Talk.Rules.{After, and_then-After, Took, if-After, read-After, write-After}
use nat_punch.Proxy.Socks5.{
  Accounts, accepts, need_auth, method_offered, Request, Command, connect, associate,
  connect_method, bind_method, associate_method, ip_v4, ip_v6, domain_name, read_domain, read_v4,
  read_v6, read_host, read_target, handle_command, handle_request, check, auth, agree, negotiate,
  handle_conn, user_pass_auth, user_auth_version,
}

-- The bytes `input` begin with a user and a password that the accounts accept, as RFC 1929 sends
-- them, before the bytes `rest`.
abbrev pub Logged : Accounts → List ℕ → List ℕ → Type 0
Logged a input rest =
    (user : List ℕ) × (pass : List ℕ) × (accepts a user pass ≡ true)
    × (input ≡ (1 ∷ length user ∷ user ++ length pass ∷ pass) ++ rest)

-- Whoever gets on needs no account, or has logged in.
abbrev pub Admitted : Accounts → List ℕ → List ℕ → Type 0
Admitted a input rest = ((need_auth a ≡ false) × (input ≡ rest)) ⊎ Logged a input rest

abbrev Anything {ℓ} : {A : Type ℓ} → A → Wire → Type 0
Anything a w = Unit

-- What only reads on.
reads-After {ℓ κ} :
    {A : Type ℓ} {B : Type κ} (P : A → Wire → Type 0) (s : Step A) (f : A → Talk B)
    → After P s
    → ((a : A) → (w : Wire) → After Anything (f a w))
    → After Anything (and_then s f)
reads-After P s f h k = and_then-After P Anything s f h (λ a w p. k a w)

module _ (local : List ℕ) where
  read_host-After : (t : ℕ) (w : Wire) → After Anything (read_host local t w)
  unfolding read_host read_v4 read_v6 read_domain
  read_host-After t w =
      if-After Anything (t == ip_v4) _ _ w
        (λ e. reads-After (Took 4 w) (read _ 4 w) _ (read-After _ 4 w) (λ b w'. tt))
        (λ e.
          if-After Anything (t == ip_v6) _ _ w
            (λ e. reads-After (Took 16 w) (read _ 16 w) _ (read-After _ 16 w) (λ b w'. tt))
            (λ e.
              if-After Anything (t == domain_name) _ _ w
                (λ e. reads-After (Took 1 w) (read _ 1 w) _ (read-After _ 1 w) (λ b w'.
                  reads-After (Took (get_or b 0 0) w') (read _ (get_or b 0 0) w') _
                    (read-After _ (get_or b 0 0) w') (λ b w'. tt)))
                (λ e. refl)))

  read_target-After : (c : Command) (w : Wire) → After Anything (read_target local c w)
  unfolding read_target
  read_target-After c w = reads-After (Took 1 w) (read _ 1 w) _ (read-After _ 1 w) (λ b w1.
      reads-After Anything (read_host local (get_or b 0 0) w1) _ (read_host-After (get_or b 0 0) w1)
        (λ h w2. reads-After (Took 2 w2) (read _ 2 w2) _ (read-After _ 2 w2) (λ p w3. tt)))

  handle_command-After : (c : ℕ) (w : Wire) → After Anything (handle_command local c w)
  unfolding handle_command
  handle_command-After c w =
      if-After Anything (c == connect_method) _ _ w (λ e. read_target-After connect w)
        (λ e.
          if-After Anything (c == bind_method) _ _ w (λ e. refl)
            (λ e.
              if-After Anything (c == associate_method) _ _ w (λ e. read_target-After associate w)
                (λ e. refl)))

  handle_request-After : (w : Wire) → After Anything (handle_request local w)
  unfolding handle_request
  handle_request-After w =
      reads-After (Took 3 w) (read _ 3 w) _ (read-After _ 3 w)
        (λ b w1. handle_command-After (get_or b 1 0) w1)

check-After :
    (a : Accounts) (user pass : List ℕ) (w : Wire)
    → After (λ u w'. (accepts a user pass ≡ true) × (w'.input ≡ w.input)) (check a user pass w)
unfolding check
check-After a user pass w =
    if-After _ (accepts a user pass) _ _ w (λ e. keep e (write _ w) (write-After _ w))
      (λ e.
        and_then-After (λ u w'. w'.input ≡ w.input) _ (write _ w) _ (write-After _ w)
          (λ u w' h. refl))
  where
    keep :
        accepts a user pass ≡ true
        → (s : Step (Unit {0})) → After (λ u w'. w'.input ≡ w.input) s
        → After (λ u w'. (accepts a user pass ≡ true) × (w'.input ≡ w.input)) s
    keep e (stop w') h = h
    keep e (next u w') h = (e, h)

one-byte : (b : List ℕ) → length b ≡ 1 → b ≡ get_or b 0 0 ∷ []
one-byte [] h = absurd (omega arith)
one-byte (x ∷ []) h = refl
one-byte (x ∷ y ∷ b) h = absurd (omega arith)

two-bytes : (b : List ℕ) → length b ≡ 2 → b ≡ get_or b 0 0 ∷ get_or b 1 0 ∷ []
two-bytes [] h = absurd (omega arith)
two-bytes (x ∷ []) h = absurd (omega arith)
two-bytes (x ∷ y ∷ []) h = refl
two-bytes (x ∷ y ∷ z ∷ b) h = absurd (omega arith)

-- The pieces of a login, put together.
login-input :
    (input i1 i2 i3 rest header user plen pass : List ℕ)
    → input ≡ header ++ i1
    → i1 ≡ user ++ i2
    → i2 ≡ plen ++ i3
    → i3 ≡ pass ++ rest
    → header ≡ 1 ∷ length user ∷ []
    → plen ≡ length pass ∷ []
    → input ≡ (1 ∷ length user ∷ user ++ length pass ∷ pass) ++ rest
login-input input i1 i2 i3 rest header user plen pass e1 e2 e3 e4 h p =
    let tail : i1 ≡ user ++ (length pass ∷ (pass ++ rest)) =
      e2 ∙ ap (λ i. user ++ i) (e3 ∙ (ap (λ q. q ++ i3) p ∙ ap (λ i. length pass ∷ i) e4)) in
    e1
    ∙ ap (λ q. q ++ i1) h
    ∙ ap (λ i. 1 ∷ length user ∷ i) (tail ∙ sym (append_assoc user (length pass ∷ pass) rest))

auth-After : (a : Accounts) (w : Wire) → After (λ u w'. Logged a w.input w'.input) (auth a w)
unfolding auth
auth-After a w = and_then-After (Took 2 w) _ (read silent 2 w) _ (read-After silent 2 w) (λ h w1 t1.
    if-After _ (not (get_or h 0 0 == user_auth_version)) _ _ w1 (λ e. refl)
      (λ e.
        and_then-After (Took (get_or h 1 0) w1) _ (read silent (get_or h 1 0) w1) _
          (read-After silent (get_or h 1 0) w1)
          (λ user w2 t2.
            and_then-After (Took 1 w2) _ (read silent 1 w2) _ (read-After silent 1 w2) (λ q w3 t3.
              and_then-After (Took (get_or q 0 0) w3) _ (read silent (get_or q 0 0) w3) _
                (read-After silent (get_or q 0 0) w3)
                (λ pass w4 t4.
                  logged h w1 e t1 user w2 t2 q w3 t3 pass w4 t4 (check a user pass w4)
                    (check-After a user pass w4))))))
  where
    logged :
        (h : List ℕ) (w1 : Wire)
        → not (get_or h 0 0 == user_auth_version) ≡ false
        → Took 2 w h w1
        → (user : List ℕ) → (w2 : Wire) → Took (get_or h 1 0) w1 user w2
        → (q : List ℕ) → (w3 : Wire) → Took 1 w2 q w3
        → (pass : List ℕ) → (w4 : Wire) → Took (get_or q 0 0) w3 pass w4
        → (s : Step (Unit {0}))
        → After (λ u w'. (accepts a user pass ≡ true) × (w'.input ≡ w4.input)) s
        → After (λ u w'. Logged a w.input w'.input) s
    logged h w1 e (e1, l1) user w2 (e2, l2) q w3 (e3, l3) pass w4 (e4, l4) (stop w') c = c
    logged h w1 e (e1, l1) user w2 (e2, l2) q w3 (e3, l3) pass w4 (e4, l4) (next u w') (c, k) =
        let version : get_or h 0 0 ≡ 1 = ground (arith, e) in
        (
          user,
          pass,
          c,
          login-input w.input w1.input w2.input w3.input w'.input h user q pass e1 e2 e3
              (e4 ∙ ap (λ i. pass ++ i) (sym k))
              (two-bytes h l1 ∙ ap₂ (λ x y. x ∷ y ∷ []) version (sym l2))
              (one-byte q l3 ∙ ap (λ x. x ∷ []) (sym l4)),
        )

agree-After :
    (a : Accounts) (methods : List ℕ) (w : Wire)
    → After (λ u w'. Admitted a w.input w'.input) (agree a methods w)
unfolding agree
agree-After a methods w =
    if-After _ (need_auth a) _ _ w
      (λ needed.
        if-After _ (not (method_offered methods user_pass_auth)) _ _ w (λ e. refl)
          (λ e.
            and_then-After (λ u w'. w'.input ≡ w.input) _ (write _ w) _ (write-After _ w)
              (λ u w1 k.
                subst (λ i. After (λ u w'. Admitted a i w'.input) (auth a w1)) k
                  (weaken (auth a w1) w1.input (auth-After a w1)))))
      (λ free. open_to free (write _ w) (write-After _ w))
  where
    weaken :
        (s : Step (Unit {0})) (i : List ℕ)
        → After (λ u w'. Logged a i w'.input) s
        → After (λ u w'. Admitted a i w'.input) s
    weaken (stop w') i h = h
    weaken (next u w') i h = inr h

    open_to :
        need_auth a ≡ false
        → (s : Step (Unit {0})) → After (λ u w'. w'.input ≡ w.input) s
        → After (λ u w'. Admitted a w.input w'.input) s
    open_to free (stop w') h = h
    open_to free (next u w') h = inl (free, sym h)

-- How a connection that gets as far as a request began.
abbrev pub Served : Accounts → List ℕ → Type 0
Served a input =
    (methods : List ℕ) × (mid : List ℕ) × (rest : List ℕ) × (input
      ≡ (5 ∷ length methods ∷ methods) ++ mid)
    × Admitted a mid rest

module _ (local : List ℕ) where
  negotiate-After :
      (a : Accounts) (g : List ℕ) (w w1 : Wire)
      → Took 2 w g w1
      → After (λ r w'. Served a w.input) (negotiate local a g w1)
  unfolding negotiate
  negotiate-After a g w w1 (e1, l1) =
      if-After _ (not (get_or g 0 0 == 5)) _ _ w1 (λ e. refl)
        (λ e.
          if-After _ (get_or g 1 0 == 0) _ _ w1 (λ z. refl)
            (λ z.
              and_then-After (Took (get_or g 1 0) w1) _ (read silent (get_or g 1 0) w1) _
                (read-After silent (get_or g 1 0) w1)
                (λ ms w2 t2.
                  and_then-After (λ u w'. Admitted a w2.input w'.input) _ (agree a ms w2) _
                    (agree-After a ms w2)
                    (λ u w3 k.
                      served e ms w2 t2 w3 k (handle_request local w3)
                        (handle_request-After local w3)))))
    where
      served :
          not (get_or g 0 0 == 5) ≡ false
          → (ms : List ℕ) → (w2 : Wire) → Took (get_or g 1 0) w1 ms w2
          → (w3 : Wire) → Admitted a w2.input w3.input
          → (s : Step Request) → After Anything s
          → After (λ r w'. Served a w.input) s
      served e ms w2 (e2, l2) w3 k (stop w') h = h
      served e ms w2 (e2, l2) w3 k (next r w') h =
          let version : get_or g 0 0 ≡ 5 = ground (arith, e) in
          (
            ms,
            w2.input,
            w3.input,
            e1 ∙ ap₂ (λ q i. q ++ i) (two-bytes g l1 ∙ ap₂ (λ x y. x ∷ y ∷ []) version (sym l2)) e2,
            k,
          )

  -- A connection that `handleConn` hands on as a request began with a SOCKS5 greeting, and, when an
  -- account is needed, with a user and a password that the accounts accept after it; every other
  -- connection is closed.
  pub handle_conn-After :
      (a : Accounts) (w : Wire) → After (λ r w'. Served a w.input) (handle_conn local a w)
  unfolding handle_conn
  handle_conn-After a w =
      and_then-After (Took 2 w) _ (read silent 2 w) _ (read-After silent 2 w)
        (λ g w1 t. negotiate-After a g w w1 t)
