-- ===== src/Engine/Candidates.antt =====
-- The candidates of src/proxy_engine.cpp: the local proxies, and the public lists.
pub mod Distinct
use proxchunk.Prelude.{
  Bool, true, false, ◌&&◌, ◌||◌, List, [], ◌∷◌, ◌++◌, ltb, ◌==◌, if◌then◌else◌, ℤ, Bytes, codes,
  bytes_eq,
}
use proxchunk.ProxyList.{parse_proxy_body}

-- The fields of struct ProxyEngineConfig that the scoring reads; `max_keep` is in the engine.
pub record ProxyEngineConfig : Type 0 where
  pub max_inflight : ℤ
  pub cache_path : Bytes
  pub use_cache : Bool
  pub use_tor : Bool
  pub fetch_public : Bool
  pub extra_proxies : List Bytes

unfoldable pub local_proxy_urls : ProxyEngineConfig → List Bytes
local_proxy_urls cfg =
    if cfg.use_tor
    then (codes "socks5h://127.0.0.1:9050" ∷ cfg.extra_proxies)
      ++ codes "socks5h://127.0.0.1:9150" ∷ []
    else cfg.extra_proxies

-- The table `sources`: a URL, and the scheme of its bare lines.
abbrev sources : List (Bytes × Bytes)
sources =
    (
      codes "https://raw.githubusercontent.com/TheSpeedX/PROXY-List/master/http.txt",
      codes "http://",
    )
    ∷ (
      codes "https://raw.githubusercontent.com/monosans/proxy-list/main/proxies/http.txt",
      codes "http://",
    )
    ∷ (
      codes "https://raw.githubusercontent.com/ProxyScraper/ProxyScraper/main/http.txt",
      codes "http://",
    )
    ∷ (
      codes "https://raw.githubusercontent.com/clarketm/proxy-list/master/proxy-list-raw.txt",
      codes "http://",
    )
    ∷ (
      codes "https://raw.githubusercontent.com/ShiftyTR/Proxy-List/master/http.txt",
      codes "http://",
    )
    ∷ (
      codes
          "https://raw.githubusercontent.com/jetkai/proxy-list/main/online-proxies/txt/proxies-http.txt",
      codes "http://",
    )
    ∷ (
      codes
          "https://api.proxyscrape.com/v2/?request=displayproxies&protocol=http&timeout=8000&country=all&ssl=all&anonymity=all",
      codes "http://",
    )
    ∷ (
      codes
          "https://raw.githubusercontent.com/proxifly/free-proxy-list/main/proxies/protocols/http/data.txt",
      codes "http://",
    )
    ∷ (
      codes "https://raw.githubusercontent.com/TheSpeedX/PROXY-List/master/socks5.txt",
      codes "socks5h://",
    )
    ∷ (
      codes "https://raw.githubusercontent.com/monosans/proxy-list/main/proxies/socks5.txt",
      codes "socks5h://",
    )
    ∷ []

-- The last loop of `fetch_all_lists`. `body` is what the transfer of a URL wrote, which is empty
-- where it was stopped or failed at once.
fetch_from : (Bytes → Bytes) → List (Bytes × Bytes) → List Bytes
fetch_from body [] = []
fetch_from body ((url, scheme) ∷ rest) = parse_proxy_body (body url) scheme ++ fetch_from body rest

unfoldable pub fetch_all_lists : (Bytes → Bytes) → List Bytes
unfolding fetch_from
fetch_all_lists body = fetch_from body sources

-- `<` on strings.
pub bytes_ltb : Bytes → Bytes → Bool
bytes_ltb a [] = false
bytes_ltb [] (y ∷ b) = true
bytes_ltb (x ∷ a) (y ∷ b) = ltb x y || x == y && bytes_ltb a b

pub insert_name : Bytes → List Bytes → List Bytes
insert_name a [] = a ∷ []
insert_name a (b ∷ bs) =
    let later = b ∷ insert_name a bs in if bytes_ltb b a then later else a ∷ b ∷ bs

-- `std::sort` on strings: equal strings are alike, so there is one result.
pub sort_names : List Bytes → List Bytes
unfolding insert_name
sort_names [] = []
sort_names (a ∷ bs) = insert_name a (sort_names bs)

-- `std::unique` and `erase`: of neighbours that are equal one is kept.
pub unique : List Bytes → List Bytes
unique [] = []
unique (a ∷ []) = a ∷ []
unique (a ∷ b ∷ bs) = let rest = unique (b ∷ bs) in if bytes_eq a b then rest else a ∷ rest

-- The vector `candidates` of `refresh`, for what `std::shuffle` makes of the list.
unfoldable pub all_candidates :
    ProxyEngineConfig → (Bytes → Bytes) → (List Bytes → List Bytes) → List Bytes
unfolding fetch_all_lists sort_names unique local_proxy_urls
all_candidates cfg body shuffle =
    let rest =
      if cfg.fetch_public then shuffle (unique (sort_names (fetch_all_lists body))) else [] in
    local_proxy_urls cfg ++ rest
