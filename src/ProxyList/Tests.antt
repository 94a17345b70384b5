-- ===== src/ProxyList/Tests.antt =====
-- Runs of tests/test_plan.cpp, and the list theorems applied.
use proxchunk.Prelude.{◌≡◌, refl, some, [], ◌∷◌, Bytes, codes, bytes_eq, contains_byte, contains}
use proxchunk.ProxyList.{
  is_blank, is_skipped, normalize_proxy_line, load_proxy_file, parse_proxy_body,
  default_output_name,
}
use proxchunk.ProxyList.Urls.{IsUrl, parse_proxy_body-load_proxy_file}
use proxchunk.ProxyList.OutputName.{IsFileName, default_output_name-IsFileName}

abbrev http : Bytes
http = codes "http://"

abbrev socks : Bytes
socks = codes "socks5h://10.0.0.1:1080"

socks-IsUrl : IsUrl socks
unfolding contains is_blank is_skipped
socks-IsUrl = record { has_scheme = refl; head_full = refl; last_full = refl; no_comment = refl }

names :
    (default_output_name (codes "https://ex.com/a.bin?x=1") ≡ codes "a.bin")
    × (default_output_name (codes "https://ex.com/") ≡ codes "download.bin")
unfolding default_output_name contains_byte bytes_eq
names = (refl, refl)

lines :
    (normalize_proxy_line (codes "  10.0.0.1:1080  ") (codes "socks5h://") ≡ socks)
    × (normalize_proxy_line (codes "  # comment") http ≡ [])
    × (normalize_proxy_line (codes "no-port") http ≡ [])
unfolding normalize_proxy_line contains contains_byte
lines = (refl, refl, refl)

file :
    load_proxy_file (some (codes "1.2.3.4:8080\n# comment\n\nsocks5h://10.0.0.1:1080\n")) http
    ≡ codes "http://1.2.3.4:8080" ∷ socks ∷ []
unfolding load_proxy_file normalize_proxy_line contains contains_byte
file = refl

parse_proxy_body-load_proxy_file_example :
    parse_proxy_body (codes "1.2.3.4:80\n/x\n") http
    ≡ load_proxy_file (some (codes "1.2.3.4:80\n/x\n")) http
parse_proxy_body-load_proxy_file_example =
    parse_proxy_body-load_proxy_file (codes "1.2.3.4:80\n/x\n") http

default_output_name-IsFileName_example :
    IsFileName (default_output_name (codes "https://ex.com/.."))
default_output_name-IsFileName_example = default_output_name-IsFileName (codes "https://ex.com/..")
