-- ===== src/HttpMsg/Fresh.antt =====
-- SetHdr of a new key (libspider/HttpMsg.cpp).
use crowdspider.Base.{Bytes, List, [], ◌∷◌, ◌++◌, ◌≡◌, refl, ap}
use crowdspider.HttpMsg.{HttpHdr, HttpMsg, put_hdr, set_hdr}
use crowdspider.HttpMsg.Lookup.{Fresh}

put_hdr-append :
    (key val : Bytes) (hs : List HttpHdr)
    → Fresh key hs
    → put_hdr key val hs ≡ hs ++ (record { key = key; val = val } ∷ [])
unfolding put_hdr
put_hdr-append key val [] f = refl
put_hdr-append key val (h ∷ hs) f = rw f.0 (ap (◌∷◌ h) (put_hdr-append key val hs f.1))

-- A header with a new key is appended.
pub set_hdr-append :
    (m : HttpMsg) (key val : Bytes)
    → Fresh key m.hdrs
    → set_hdr m key val ≡ record m { hdrs = m.hdrs ++ (record { key = key; val = val } ∷ []) }
unfolding set_hdr
set_hdr-append m key val f = rw (put_hdr-append key val m.hdrs f) refl
