-- ===== src/HttpMsg/Version.antt =====
-- The packed version number of a message (libspider/HttpMsg.cpp).
use Prim.Native.Nat.{bit_or}
use crowdspider.Base.{ℕ, ◌+◌, ◌*◌, ◌%◌, ◌^◌, ◌<◌, ◌≡◌, refl, Bool, true, some, arith, ◌==◌, ==_iff}
use crowdspider.Base.Bits.{true_below, table_entry}
use crowdspider.HttpMsg.{HttpMsg, set_http_ver, get_http_ver}

abbrev packed : ℕ → ℕ → Bool
packed a b = bit_or (a * 2 ^ 16 % 2 ^ 32) b == a * 2 ^ 16 + b

packed_table : true_below 10 (λ a. true_below 10 (packed a)) ≡ true
unfolding true_below
packed_table = refl

packed_lem : (a b : ℕ) → a < 10 → b < 10 → bit_or (a * 2 ^ 16 % 2 ^ 32) b ≡ a * 2 ^ 16 + b
packed_lem a b ha hb = (==_iff _ _).0 (
    table_entry 10 (packed a) b (table_entry 10 (λ a. true_below 10 (packed a)) a packed_table ha)
      hb)

-- Exactly the version numbers below 10 are accepted; they then read back as they were set, and the
-- headers are untouched.
pub get_http_ver-set_http_ver :
    (m m' : HttpMsg) (major minor : ℕ)
    → set_http_ver m major minor ≡ some m'
    → (get_http_ver m' ≡ (major, minor)) × (m'.hdrs ≡ m.hdrs) × (major < 10) × (minor < 10)
unfolding set_http_ver get_http_ver
get_http_ver-set_http_ver m m' major minor e = ground (arith, packed_lem major minor)
