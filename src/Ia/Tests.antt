-- ===== src/Ia/Tests.antt =====
-- Runs of tests/test_plan.cpp on archive.org URLs, and the theorems applied.
use proxchunk.Prelude.{◌≡◌, refl, some, arith, codes, contains_byte}
use proxchunk.Ia.{url_decode, ia_parse_download_url}
use proxchunk.Ia.Url.{download_url, ia_parse_download_url-download_url}

url_decode_space : url_decode (codes "a%20b+c%zz%4") ≡ codes "a b c%zz%4"
unfolding url_decode
url_decode_space = refl

ia_parse_download_url-download_url_example :
    ia_parse_download_url (download_url (codes "item") (codes "a b?"))
    ≡ some (codes "item", codes "a b?")
ia_parse_download_url-download_url_example =
    ia_parse_download_url-download_url (codes "item") (codes "a b?") refl
      (unfold contains_byte in refl) refl
      (omega arith, (omega arith, (omega arith, (omega arith, tt))))
