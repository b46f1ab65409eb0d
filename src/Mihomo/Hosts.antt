-- ===== src/Mihomo/Hosts.antt =====
-- `classify_host` and `classify_route` of resources/network/mihomo.py. A host is the list of its code
-- points, which are ASCII; the test for a literal IP address and the digest of a site are arguments.
use Prim.Native.Char.{code}
use Prim.Native.String as Chars
use infra_sentinel.Prelude.{
  ℕ, ◌+◌, String, Bool, true, false, ◌&&◌, ◌||◌, List, [], ◌∷◌, ◌++◌, map, ◌==◌, leb, any, select,
  if◌then◌else◌,
}

abbrev pub Host : Type 0
Host = List ℕ

abbrev pub codes : String → Host
codes Chars.String.[] = []
codes (Chars.String.◌∷◌ c s) = code c ∷ codes s

unfoldable pub host_eq : Host → Host → Bool
host_eq [] [] = true
host_eq (x ∷ xs) (y ∷ ys) = x == y && host_eq xs ys
host_eq _ _ = false

abbrev dot : ℕ
dot = 46

-- `host.endswith(suffix)`
unfoldable pub ends_with : Host → Host → Bool
ends_with suffix [] = host_eq [] suffix
ends_with suffix (x ∷ xs) = host_eq (x ∷ xs) suffix || ends_with suffix xs

-- `_host_matches`
unfoldable pub host_matches : Host → Host → Bool
host_matches host suffix = host_eq host suffix || ends_with (dot ∷ suffix) host

-- The service ids: `known` is one of the table's, `domain` has the digest of a site.
pub data ServiceId : Type 0 where
  unknown_host : ServiceId
  known : String → ServiceId
  domain : String → ServiceId
  unattributed : ServiceId

pub record Known : Type 0 where
  pub id : String
  pub label : String
  pub suffixes : List Host

abbrev pub known_services : List Known
known_services =
    record {
      id = "chatgpt";
      label = "ChatGPT";
      suffixes =
          codes "chatgpt.com"
          ∷ codes "openai.com"
          ∷ codes "oaistatic.com"
          ∷ codes "oaiusercontent.com"
          ∷ [];
    }
    ∷ record {
      id = "google";
      label = "Google";
      suffixes =
          codes "google.com"
          ∷ codes "googleapis.com"
          ∷ codes "googleusercontent.com"
          ∷ codes "gstatic.com"
          ∷ [];
    }
    ∷ record {
      id = "github";
      label = "GitHub";
      suffixes = codes "github.com" ∷ codes "githubusercontent.com" ∷ codes "githubassets.com" ∷ [];
    }
    ∷ []

abbrev two_level_suffixes : List Host
two_level_suffixes =
    codes "co.jp"
    ∷ codes "co.kr"
    ∷ codes "co.nz"
    ∷ codes "co.uk"
    ∷ codes "com.au"
    ∷ codes "com.br"
    ∷ codes "com.cn"
    ∷ codes "com.hk"
    ∷ codes "com.sg"
    ∷ codes "com.tw"
    ∷ codes "net.cn"
    ∷ codes "org.cn"
    ∷ []

abbrev is_space : ℕ → Bool
is_space c = c == 32 || (leb 9 c && leb c 13) || (leb 28 c && leb c 31)

abbrev to_lower : ℕ → ℕ
to_lower c = if leb 65 c && leb c 90 then c + 32 else c

unfoldable pub skip_while : (ℕ → Bool) → Host → Host
skip_while test [] = []
skip_while test (x ∷ xs) = if test x then skip_while test xs else x ∷ xs

keep_end : Bool → ℕ → Host → Host
keep_end drop x [] = if drop then [] else x ∷ []
keep_end drop x (y ∷ ys) = x ∷ y ∷ ys

-- `rstrip`: what passes the test leaves at the end.
unfoldable pub strip_end : (ℕ → Bool) → Host → Host
unfolding keep_end
strip_end test [] = []
strip_end test (x ∷ xs) = keep_end (test x) x (strip_end test xs)

-- `strip().lower().rstrip(".")`
unfoldable pub normalize : Host → Host
normalize raw =
    strip_end (λ c. c == dot) (map to_lower (strip_end is_space (skip_while is_space raw)))

abbrev prepend : ℕ → List Host → List Host
prepend c [] = (c ∷ []) ∷ []
prepend c (part ∷ parts) = (c ∷ part) ∷ parts

-- `host.split(".")`
unfoldable pub split : Host → List Host
split [] = [] ∷ []
split (x ∷ xs) = let rest = split xs in if x == dot then [] ∷ rest else prepend x rest

abbrev is_part : Host → Bool
is_part [] = false
is_part (x ∷ xs) = true

-- The last three labels: the third from the end where there is one, and the last two.
pub data Tail : Type 0 where
  short : Tail
  long : Host → Host → Host → Tail

unfoldable pub last_labels : List Host → Tail
last_labels (a ∷ b ∷ c ∷ []) = long a b c
last_labels (a ∷ b ∷ c ∷ d ∷ rest) = last_labels (b ∷ c ∷ d ∷ rest)
last_labels _ = short

unfoldable pub site_of : Host → Tail → Host
site_of host short = host
site_of host (long a b c) =
    let tail = b ++ (dot ∷ c) in
    if any (host_eq tail) two_level_suffixes then a ++ (dot ∷ tail) else tail

-- `_fallback_site`
unfoldable pub fallback_site : (Host → Bool) → Host → Host
fallback_site is_address host =
    if is_address host then host else site_of host (last_labels (select is_part (split host)))

pub record Service : Type 0 where
  pub id : ServiceId
  pub label : Host
  pub host : Host

unfoldable pub find_known : Host → List Known → Service → Service
find_known host [] other = other
find_known host (k ∷ rest) other =
    let later = find_known host rest other in
    if any (host_matches host) k.suffixes
    then record { id = known k.id; label = codes k.label; host = host }
    else later

-- A host that is not empty.
unfoldable pub classify_named : (Host → Bool) → (Host → String) → Host → Service
classify_named is_address digest host =
    let site = fallback_site is_address host in
    find_known host known_services (record { id = domain (digest site); label = site; host = host })

unfoldable pub classify_normal : (Host → Bool) → (Host → String) → Host → Service
classify_normal is_address digest [] = record {
  id = unknown_host;
  label = codes "Unknown host";
  host = [];
}
classify_normal is_address digest (x ∷ xs) = classify_named is_address digest (x ∷ xs)

-- `classify_host`
unfoldable pub classify_host : (Host → Bool) → (Host → String) → Host → Service
classify_host is_address digest raw = classify_normal is_address digest (normalize raw)

pub data Route : Type 0 where
  proxy direct blocked unknown residual : Route

unfoldable pub starts_with : Host → Host → Bool
starts_with [] host = true
starts_with (x ∷ xs) [] = false
starts_with (x ∷ xs) (y ∷ ys) = x == y && starts_with xs ys

-- `classify_route`, from the chains in upper case.
unfoldable pub classify_route : List Host → Route
classify_route [] = unknown
classify_route (chain ∷ chains) =
    if any (starts_with (codes "REJECT")) (chain ∷ chains)
    then blocked
    else if any (host_eq (codes "DIRECT")) (chain ∷ chains)
    then direct
    else proxy
