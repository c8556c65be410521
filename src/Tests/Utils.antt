-- ===== src/Tests/Utils.antt =====
-- Examples for the theorems about libspider/Utils.cpp.
use crowdspider.Base.{
  ℕ, ◌+◌, ◌*◌, ◌/◌, ◌≡◌, refl, ◌↔◌, true, false, some, [], ◌∷◌, ◌++◌, arith, length, replicate,
  Bytes, codes,
}
use crowdspider.Base.Int.{negsuc}
use crowdspider.Utils.Base64.{
  tbl_at, wget_block, pad_two, base64_encode, base64_decode, own_char, shift_6, own_quad, own_block,
  own_blocks, own_base64_encode,
}
use crowdspider.Utils.Base64.Own.{is_spoiled, own_base64_encode_iff}
use crowdspider.Utils.Base64.RoundTrip.{fill, base64_decode-base64_encode}
use crowdspider.Utils.Numbers.{write_digits, itoa}
use crowdspider.Utils.ReadLine.{
  interrupted, chunk, Reader, read_line_init, refill, readc, push, read_loop, read_line_ex,
}

abbrev query : Bytes
query = codes "a%&"

-- Credentials that Base64Encode writes wrongly, and ones that it writes as it should.
abbrev spoiled : Bytes
spoiled = codes "u@1p"

abbrev sound : Bytes
sound = codes "u:1s"

spoiled-is_spoiled : is_spoiled spoiled ≡ true
unfolding is_spoiled
spoiled-is_spoiled = refl

sound_encoded : own_base64_encode sound ≡ some (codes "dToxcw==")
unfolding own_base64_encode own_blocks own_block own_quad own_char shift_6
sound_encoded = refl

spoiled_encoded : own_base64_encode spoiled ≡ some (codes "dU=xc===")
unfolding own_base64_encode own_blocks own_block own_quad own_char shift_6
spoiled_encoded = refl

spoiled_by_wget : base64_encode 0 spoiled ≡ some (codes "dUAxcA==")
unfolding base64_encode wget_block tbl_at pad_two
spoiled_by_wget = refl

abbrev Coded : ℕ → Bytes → Type 0
Coded beyond s =
    (t : Bytes) × (base64_encode beyond s ≡ some t)
    × (base64_decode t ≡ s ++ replicate (fill (length s)) 0)
    × (length t ≡ 4 * ((length s + 2) / 3))

base64_decode-base64_encode_example : Coded 7 sound
base64_decode-base64_encode_example =
    base64_decode-base64_encode 7 sound (omega arith)
      (omega arith, (omega arith, (omega arith, (omega arith, tt))))

own_base64_encode_iff_example :
    (own_base64_encode sound ≡ base64_encode 7 sound) ↔ (is_spoiled sound ≡ false)
own_base64_encode_iff_example =
    own_base64_encode_iff 7 sound (omega arith)
      (
        (omega arith, omega arith),
        (
          (omega arith, omega arith),
          ((omega arith, omega arith), ((omega arith, omega arith), tt)),
        ),
      )
      (omega arith)

itoa_run : itoa (negsuc 119) ≡ some (codes "-120")
unfolding itoa write_digits
itoa_run = refl

-- A line cut up by two reads and an interruption.
abbrev cut_up : Reader
cut_up = read_line_init (chunk b'a' [] ∷ interrupted ∷ chunk b'b' (10 ∷ b'c' ∷ []) ∷ [])

cut_up_read :
    read_line_ex 10 cut_up
    ≡ some (record {
      count = 3;
      text = codes "ab" ++ 10 ∷ [];
      left = record { buffered = codes "c"; feed = [] };
    })
unfolding read_line_ex read_loop readc refill push
cut_up_read = refl

-- Without a newline the count is one more than the bytes.
unended_read :
    read_line_ex 10 (read_line_init (chunk b'a' (b'b' ∷ []) ∷ []))
    ≡ some (record { count = 3; text = codes "ab"; left = record { buffered = []; feed = [] } })
unfolding read_line_ex read_loop readc refill push
unended_read = refl
