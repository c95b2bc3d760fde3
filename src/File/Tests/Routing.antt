-- ===== src/File/Tests/Routing.antt =====
-- The theorems on routing, targets and pages at concrete values.
use nat_punch.Base.{ℕ, ◌≡◌, refl, true, false, List, [], ◌∷◌, some, none}
use nat_punch.Base.Maps.{Map}
use nat_punch.File.Hosts.{
  Host, all, candidates, get_ip_by_addr, get_info_by_host, serves, pick, contains, has_prefix,
  matches_uri, better, loc, before, after, without_star,
}
use nat_punch.File.Hosts.Longest.{Found, get_info_by_host-Found}
use nat_punch.File.Hosts.{new_host}
use nat_punch.File.Hosts.Clashes.{Admitted, new_host-Admitted}
use nat_punch.File.Targets.{Target, targets, split_lines, kept_lines, trim_right}
use nat_punch.File.Tasks.{zero_target}

-- A host for every name that ends in `.a`, and one under `/b` for `x.a` only.
abbrev wild_host : Host
wild_host = record {
  id = 1;
  host = 42 ∷ 46 ∷ 97 ∷ [];
  location = [];
  scheme = all;
  is_close = false;
  has_flow = true;
  client = some 1;
  remark = [];
  no_store = false;
  target = zero_target;
  health_remove_arr = [];
}

abbrev exact_host : Host
exact_host = record {
  id = 2;
  host = 120 ∷ 46 ∷ 97 ∷ [];
  location = 47 ∷ 98 ∷ [];
  scheme = all;
  is_close = false;
  has_flow = true;
  client = some 1;
  remark = [];
  no_store = false;
  target = zero_target;
  health_remove_arr = [];
}

abbrev hosts : Map Host
hosts = (1, wild_host) ∷ (2, exact_host) ∷ []

-- `x.a:80`
abbrev asked : List ℕ
asked = 120 ∷ 46 ∷ 97 ∷ 58 ∷ 56 ∷ 48 ∷ []

route-longest : get_info_by_host asked [] (47 ∷ 98 ∷ 47 ∷ []) hosts ≡ some exact_host
unfolding get_info_by_host candidates get_ip_by_addr before after without_star serves pick contains
    has_prefix matches_uri better loc
route-longest = refl

get_info_by_host-Found_example :
    Found
      (get_ip_by_addr asked)
      []
      (47 ∷ 98 ∷ 47 ∷ [])
      hosts
      (get_info_by_host asked [] (47 ∷ 98 ∷ 47 ∷ []) hosts)
get_info_by_host-Found_example = get_info_by_host-Found asked [] (47 ∷ 98 ∷ 47 ∷ []) hosts

-- Three lines, one of them empty.
abbrev two_targets : Target
two_targets = record { now_index = 0; target_str = 97 ∷ 13 ∷ 10 ∷ 10 ∷ 98 ∷ []; target_arr = none }

two-targets : targets two_targets ≡ (97 ∷ []) ∷ (98 ∷ []) ∷ []
unfolding targets split_lines kept_lines trim_right
two-targets = refl

abbrev five : List ℕ
five = 1 ∷ 2 ∷ 3 ∷ 4 ∷ 5 ∷ []

new_host-Admitted_example :
    Admitted exact_host ((1, wild_host) ∷ []) (new_host exact_host ((1, wild_host) ∷ []))
new_host-Admitted_example = new_host-Admitted exact_host ((1, wild_host) ∷ [])
