-- ===== src/HttpCli/Response/Texts.antt =====
-- The parts of a line, found by the searches of recvHttpResponse (libspider/HttpCli.cpp).
use crowdspider.Base.{
  ℕ, zero, suc, ◌<◌, ◌≡◌, refl, ap, ◌∙◌, Bool, true, false, none, [], ◌∷◌, ◌++◌, arith, ◌==◌,
  length, drop, All, Bytes, c_str,
}
use crowdspider.HttpCli.Response.{max_line_len, before, from, not_space, head_or_nul, unread}
use crowdspider.HttpCli.Conn.{LineRead, read_line}
use crowdspider.HttpCli.Lines.{read_line-IsLine}
use crowdspider.Utils.ReadLine.{Reader, stream, Sound, first_line}

abbrev pub Stops : (ℕ → Bool) → ℕ → Type 0
Stops stop c = stop c ≡ true

abbrev pub Passes : (ℕ → Bool) → ℕ → Type 0
Passes stop c = stop c ≡ false

pub before-append :
    (stop : ℕ → Bool) (t : Bytes) (c : ℕ) (s : Bytes)
    → All (Passes stop) t
    → Stops stop c
    → before stop (t ++ (c ∷ s)) ≡ t
unfolding before
before-append stop [] c s h e = rw e refl
before-append stop (x ∷ t) c s h e = rw h.0 (ap (◌∷◌ x) (before-append stop t c s h.1 e))

pub from-append :
    (stop : ℕ → Bool) (t : Bytes) (c : ℕ) (s : Bytes)
    → All (Passes stop) t
    → Stops stop c
    → from stop (t ++ (c ∷ s)) ≡ c ∷ s
unfolding from
from-append stop [] c s h e = rw e refl
from-append stop (x ∷ t) c s h e = rw h.0 (from-append stop t c s h.1 e)

-- No space stands at the head.
abbrev pub Unspaced : Bytes → Type 0
Unspaced s = (head_or_nul s == b' ') ≡ false

pub from_Unspaced : (c : ℕ) (s : Bytes) → (c == b' ') ≡ false → from not_space (c ∷ s) ≡ c ∷ s
unfolding from
from_Unspaced c s e = rw e refl

-- A text that does not start with a space is found at once, and behind one space.
pub from_text :
    (t : Bytes) (c : ℕ) (s : Bytes)
    → Unspaced t
    → (c == b' ') ≡ false
    → (from not_space (t ++ (c ∷ s)) ≡ t ++ (c ∷ s))
      × (from not_space (b' ' ∷ (t ++ (c ∷ s))) ≡ t ++ (c ∷ s))
unfolding from
from_text [] c s u e = (rw e refl, rw e refl)
from_text (x ∷ t) c s u e = (rw u refl, rw u refl)

pub c_str_plain : (s : Bytes) → All (λ c. 0 < c) s → c_str s ≡ s
c_str_plain [] h = refl
c_str_plain (zero ∷ s) h = absurd (omega (arith, h.0))
c_str_plain (suc c ∷ s) h = ap (◌∷◌ (suc c)) (c_str_plain s h.1)

-- The first line of a text that holds a newline within the first `k` bytes.
pub first_line-append :
    (k : ℕ) (t rest : Bytes)
    → All (λ c. (c == 10) ≡ false) t
    → length t < k
    → first_line k (t ++ (10 ∷ rest)) ≡ t ++ (10 ∷ [])
unfolding first_line
first_line-append zero t rest h l = absurd (omega arith)
first_line-append (suc k) [] rest h l = refl
first_line-append (suc k) (c ∷ t) rest h l =
    rw h.0 (ap (◌∷◌ c) (first_line-append k t rest h.1 (omega arith)))

pub drop_line : (t rest : Bytes) → drop (length (t ++ (10 ∷ []))) (t ++ (10 ∷ rest)) ≡ rest
drop_line [] rest = refl
drop_line (c ∷ t) rest = drop_line t rest

-- A line `t` and its newline at the head of a connection: ReadLine returns it and leaves the rest.
pub record LineOf (l : LineRead) (t rest : Bytes) : Type 0 where
  pub read : l.text ≡ t ++ (10 ∷ [])
  pub rest_eq : stream l.left ≡ rest
  pub sound : All Sound l.left.feed
  pub taken : unread l.ret ≡ none
  pub ends : l.ends ≡ true

nonempty : (t rest : Bytes) → 0 < length (t ++ (10 ∷ rest))
nonempty [] rest = omega arith
nonempty (c ∷ t) rest = omega arith

pub read_line-LineOf :
    (r : Reader) (t rest : Bytes)
    → All Sound r.feed
    → stream r ≡ t ++ (10 ∷ rest)
    → All (λ c. (c == 10) ≡ false) t
    → length t < 8191
    → LineOf (read_line max_line_len r) t rest
unfolding unread
read_line-LineOf r t rest h e p l =
    let x = read_line-IsLine 8190 r h (rw e (nonempty t rest)) in
    let text = x.text_eq ∙ ap (first_line 8191) e ∙ first_line-append 8191 t rest p l in
    record {
      read = text;
      rest_eq = x.left_eq ∙ rw (text, e) (drop_line t rest);
      sound = x.sound;
      taken = rw (x.count.1, unread) refl;
      ends = x.ended;
    }
