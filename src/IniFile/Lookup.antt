-- ===== src/IniFile/Lookup.antt =====
-- What read finds after write (libspider/IniFile.cpp).
use crowdspider.Base.{
  ◌≡◌, refl, sym, ◌∙◌, inl, inr, Bool, true, false, not, Option, some, List, [], ◌∷◌, ◌==◌,
  if◌then◌else◌, Bool-cases, length, Bytes, bytes_eq, bytes_eq_iff, ne_of_bytes_eq,
}
use crowdspider.IniFile.{
  Entry, precedes, map_find, map_put, IniFile, map_key, usable, full_text, read, write,
}

bytes_eq-sym_false :
    (a b c : Bytes) → bytes_eq a b ≡ false → bytes_eq c b ≡ true → bytes_eq c a ≡ false
bytes_eq-sym_false a b c h e = elim (Bool-cases (bytes_eq c a)) [
  | inl q ↦ absurd (ne_of_bytes_eq a b h (sym ((bytes_eq_iff c a).0 q) ∙ (bytes_eq_iff c b).0 e))
  | inr q ↦ q
]

same :
    (b : Bool) (v w : Bytes) (x : Option Bytes)
    → (if b then some v else x) ≡ (if b then some v else if b then some w else x)
same true v w x = refl
same false v w x = refl

map_find-map_put :
    (k j v : Bytes) (es : List Entry)
    → map_find j (map_put k v es) ≡ (if bytes_eq j k then some v else map_find j es)
unfolding map_find map_put
map_find-map_put k j v [] = refl
map_find-map_put k j v (e ∷ es) = elim (Bool-cases (bytes_eq k e.key)) [
  | inl h ↦
      rw (h, ← (bytes_eq_iff k e.key).0 h, map_find) (same (bytes_eq j k) v e.val (map_find j es))
  | inr h ↦ elim (Bool-cases (precedes k e.key)) [
    | inl q ↦ rw (h, q, map_find) refl
    | inr q ↦ elim (Bool-cases (bytes_eq j e.key)) [
      | inl z ↦ rw (h, q, map_find, z, bytes_eq-sym_false k e.key j h z) refl
      | inr z ↦ rw (h, q, map_find, z) (map_find-map_put k j v es)
    ]
  ]
]

abbrev got_text : Option Bytes → Bool × Option Bytes
got_text x = (not (length (full_text x) == 0), some (full_text x))

chosen :
    (b : Bool) (v : Bytes) (x : Option Bytes)
    → got_text (if b then some v else x) ≡ (if b then got_text (some v) else got_text x)
chosen true v x = refl
chosen false v x = refl

-- Reading after writing a value, with the same file and for keys that are not empty: the value where both
-- sections and keys make the same key of the map, and what was there before otherwise.
pub read-write :
    (f : IniFile) (sect key v sect' key' : Bytes)
    → usable f key ≡ true
    → usable f key' ≡ true
    → read (write f sect key v).1 sect' key' ≡ (
        if bytes_eq (map_key sect' key') (map_key sect key)
        then (not (length v == 0), some v)
        else read f sect' key')
unfolding read write
read-write f sect key v sect' key' h h' =
    rw (h, read, h', map_find-map_put (map_key sect key) (map_key sect' key') v f.config)
      (chosen (bytes_eq (map_key sect' key') (map_key sect key)) v
        (map_find (map_key sect' key') f.config))
