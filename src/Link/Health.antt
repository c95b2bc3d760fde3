-- ===== src/Link/Health.antt =====
-- The health of a target, sent by the client and read by the server.
use nat_punch.Base.{
  ℕ, ◌<◌, ◌≤◌, ◌≡◌, ◌≢◌, refl, ap, ◌∙◌, subst, arith, false, List, [], ◌∷◌, ◌++◌, some, length,
  length-append, All, ◌==◌,
}
use nat_punch.Link.{
  pool_size, conn_data_seq, get_write_str, binary_write, cons_part, split, get_bool_by_str,
  send_health_info, get_health_info,
}
use nat_punch.Link.Infos.{get_len-front, read_len-front}

-- No byte of a separator's ends, so that no separator begins or ends in it.
abbrev pub Starless : List ℕ → Type 0
Starless s = All (λ c. c ≢ 42) s

split-part : (v s : List ℕ) → Starless v → split (v ++ (conn_data_seq ++ s)) ≡ v ∷ split s
unfolding split
split-part [] s p = refl
split-part (c ∷ []) s (n, p) =
    let test : (c == 42) ≡ false = ground (arith, n) in
    rw test (ap (cons_part c) (split-part [] s tt))
split-part (c ∷ d ∷ []) s (n, p) =
    let test : (c == 42) ≡ false = ground (arith, n) in
    rw test (ap (cons_part c) (split-part (d ∷ []) s p))
split-part (c ∷ d ∷ e ∷ v) s (n, p) =
    let test : (c == 42) ≡ false = ground (arith, n) in
    rw test (ap (cons_part c) (split-part (d ∷ e ∷ v) s p))

abbrev health : List ℕ → List ℕ → List ℕ
health info status = info ++ (conn_data_seq ++ (status ++ (conn_data_seq ++ [])))

written : (info status : List ℕ) → get_write_str (info ∷ status ∷ []) ≡ health info status
unfolding get_write_str
written info status = refl

split-health :
    (info status : List ℕ)
    → Starless info
    → Starless status
    → split (health info status) ≡ info ∷ status ∷ split []
split-health info status p q =
    split-part info (status ++ (conn_data_seq ++ [])) p
    ∙ ap (λ t. info ∷ t) (split-part status [] q)

-- What is sent about a target without a star in its name or status, whose text fits a buffer, is
-- read back: the target, and whether the status says that it is up.
pub get_health_info-send_health_info :
    (info status rest : List ℕ)
    → Starless info
    → Starless status
    → length (get_write_str (info ∷ status ∷ [])) ≤ pool_size
    → get_health_info (send_health_info info status ++ rest)
      ≡ some ((info, get_bool_by_str status), rest)
unfolding get_health_info send_health_info binary_write
get_health_info-send_health_info info status rest p q small =
    let sent = health info status in
    let same = written info status in
    let some_bytes : 0 < length sent =
      omega (arith, length-append info (conn_data_seq ++ (status ++ (conn_data_seq ++ [])))) in
    let fits : length sent ≤ pool_size = subst (λ w. length w ≤ pool_size) same small in
    rw
      (
        same,
        get_len-front sent rest (omega (arith, fits)),
        read_len-front sent rest some_bytes fits,
        split-health info status p q,
      )
      refl
