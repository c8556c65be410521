-- ===== src/Tests/HttpMsg.antt =====
-- Headers: runs and instances.
use crowdspider.Base.{◌≡◌, refl, [], ◌∷◌, codes, if◌then◌else◌, case_eq, to_lower, bytes_eq}
use crowdspider.HttpMsg.{HttpHdr, HttpMsg, get_hdr, set_hdr, get_all_hdr_len}
use crowdspider.HttpMsg.Lookup.{get_hdr-set_hdr}

abbrev hosted : HttpMsg
hosted = record {
  http_ver = 0;
  hdrs =
      record { key = codes "Host"; val = codes "a.b" }
      ∷ record { key = codes "Accept"; val = codes "*/*" }
      ∷ [];
}

lookup_ignores_case : get_hdr hosted (codes "HOST") ≡ codes "a.b"
unfolding get_hdr case_eq to_lower bytes_eq
lookup_ignores_case = refl

set_replaces : get_hdr (set_hdr hosted (codes "accept") (codes "x")) (codes "Accept") ≡ codes "x"
unfolding get_hdr set_hdr case_eq to_lower bytes_eq
set_replaces = refl

get_hdr-set_hdr_example :
    get_hdr (set_hdr hosted (codes "accept") (codes "x")) (codes "Host")
    ≡ (if case_eq (codes "Host") (codes "accept") then codes "x" else get_hdr hosted (codes "Host"))
get_hdr-set_hdr_example = get_hdr-set_hdr hosted (codes "accept") (codes "Host") (codes "x")

abbrev shouted : HttpHdr
shouted = record { key = codes "HOST"; val = codes "c.d" }

abbrev versioned : HttpMsg
versioned = record hosted { http_ver = 65537 }

total_length : get_all_hdr_len hosted ≡ 24
unfolding get_all_hdr_len
total_length = refl
