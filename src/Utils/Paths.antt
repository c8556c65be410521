-- ===== src/Utils/Paths.antt =====
-- extractFileName, extractFilePath, strToUpper and strToLower (libspider/Utils.cpp).
use crowdspider.Base.{
  ℕ, zero, suc, ◌+◌, ◌-◌, ◌≤◌, ◌≡◌, refl, ap, inl, inr, not, none, some, [], ◌∷◌, ◌++◌, arith, ◌==◌,
  if◌then◌else◌, Bool-cases, Option-cases, length, take, drop, take-append-drop, take_all,
  length-drop, Bytes, codes, to_lower, to_upper,
}
use crowdspider.Base.Find.{found, find_last}

-- extractFileName
unfoldable pub extract_file_name : Bytes → Bytes
extract_file_name path = elim (find_last b'/' path) [
  | none ↦ path
  | some i ↦
      if not (i == length path - 1) then take (length path - i - 1) (drop (i + 1) path) else []
]

-- extractFilePath
unfoldable pub extract_file_path : Bytes → Bytes
extract_file_path path = elim (find_last b'/' path) [
  | none ↦ codes "./"
  | some i ↦ if not (i == length path - 1) then take (i + 1) path else path
]

-- strToUpper and strToLower, on the first `n` characters
unfoldable pub str_to_upper : ℕ → Bytes → Bytes
str_to_upper zero s = s
str_to_upper (suc n) [] = []
str_to_upper (suc n) (c ∷ s) = to_upper c ∷ str_to_upper n s

unfoldable pub str_to_lower : ℕ → Bytes → Bytes
str_to_lower zero s = s
str_to_lower (suc n) [] = []
str_to_lower (suc n) (c ∷ s) = to_lower c ∷ str_to_lower n s

rest_le : (path : Bytes) (i : ℕ) → length (drop (i + 1) path) ≤ length path - i - 1
rest_le path i = omega (arith, length-drop (i + 1) path)

append_nil : (s : Bytes) → s ++ [] ≡ s
append_nil [] = refl
append_nil (c ∷ s) = ap (◌∷◌ c) (append_nil s)

-- Path and name make the whole again, and a path without a slash stands in `./`.
pub extract_file_path-extract_file_name :
    (path : Bytes)
    → extract_file_path path ++ extract_file_name path
      ≡ (if found (find_last b'/' path) then path else codes "./" ++ path)
unfolding extract_file_path extract_file_name
extract_file_path-extract_file_name path = elim (Option-cases (find_last b'/' path)) [
  | inl n ↦ rw (n, extract_file_path, extract_file_name) refl
  | inr (i, e) ↦
      rw (e, extract_file_path, extract_file_name)
        (elim (Bool-cases (i == length path - 1)) [
          | inl l ↦ rw l (append_nil path)
          | inr l ↦
              rw (l, take_all (length path - i - 1) (drop (i + 1) path) (rest_le path i))
                (take-append-drop (i + 1) path)
        ])
]
