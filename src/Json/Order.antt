-- ===== src/Json/Order.antt =====
-- The order of texts by code points, and the insertion of entries by it.
use Prim.Native.String.{compare as compare_text, then}
use Prim.Native.String.compare.{nil-cons, cons-nil, cons-cons}
use Prim.Native.Nat.{Ordering, compare}
use Prim.Native.Char.{Char, code}
use text.Mathlib.TextEquality.{path_by_compare}
use padrino.Base.{
  ◌≡◌, refl, ap, ◌∙◌, ◌≢◌, inl, inr, true, false, List, [], ◌∷◌, String, insert_by, Bool-cases,
  arith,
}
use padrino.Json.Canonical.{is_le, text_le, key_le}

text_le_empty : (t : String) → text_le "" t ≡ true
unfolding text_le
text_le_empty String.[] = refl
text_le_empty (String.◌∷◌ d t) = ap is_le (λ i. nil-cons d t i)

text_le_none : (c : Char) (s : String) → text_le (String.◌∷◌ c s) "" ≡ false
unfolding text_le
text_le_none c s = ap is_le (λ i. cons-nil c s i)

then_cases : (o p : Ordering) → then o p ≡ (elim o [ Ordering.eq ↦ p | q ↦ q ])
then_cases Ordering.lt p = refl
then_cases Ordering.eq p = refl
then_cases Ordering.gt p = refl

-- The characters decide, and the rest of the texts where they agree.
compare_cons :
    (c d : Char) (s t : String)
    → compare_text (String.◌∷◌ c s) (String.◌∷◌ d t)
      ≡ (elim (compare (code c) (code d)) [ Ordering.eq ↦ compare_text s t | o ↦ o ])
compare_cons c d s t =
    (λ i. cons-cons c d s t i) ∙ then_cases (compare (code c) (code d)) (compare_text s t)

text_le_total : (s t : String) → text_le s t ≡ false → text_le t s ≡ true
unfolding text_le
text_le_total String.[] t h = cc (text_le_empty t)
text_le_total (String.◌∷◌ c s) String.[] h = text_le_empty (String.◌∷◌ c s)
text_le_total (String.◌∷◌ c s) (String.◌∷◌ d t) h =
    ground (arith, compare_cons c d s t, compare_cons d c t s, text_le_total s t)

text_le_trans : (s t u : String) → text_le s t ≡ true → text_le t u ≡ true → text_le s u ≡ true
unfolding text_le
text_le_trans String.[] t u h k = text_le_empty u
text_le_trans (String.◌∷◌ c s) String.[] u h k = cc (text_le_none c s)
text_le_trans (String.◌∷◌ c s) (String.◌∷◌ d t) String.[] h k = cc (text_le_none d t)
text_le_trans (String.◌∷◌ c s) (String.◌∷◌ d t) (String.◌∷◌ e u) h k =
    ground
      (arith, compare_cons c d s t, compare_cons d e t u, compare_cons c e s u, text_le_trans s t u)

text_le_antisym :
    (s t : String) → text_le s t ≡ true → text_le t s ≡ true → compare_text s t ≡ Ordering.eq
unfolding text_le
text_le_antisym String.[] String.[] h k = refl
text_le_antisym String.[] (String.◌∷◌ d t) h k = cc (text_le_none d t)
text_le_antisym (String.◌∷◌ c s) String.[] h k = cc (text_le_none c s)
text_le_antisym (String.◌∷◌ c s) (String.◌∷◌ d t) h k =
    ground (arith, compare_cons c d s t, compare_cons d c t s, text_le_antisym s t)

-- Of two different texts only one comes first.
text_le_strict : (s t : String) → s ≢ t → text_le s t ≡ true → text_le t s ≡ false
text_le_strict s t differ h = elim (Bool-cases (text_le t s)) [
  | inl k ↦ elim (differ (path_by_compare s t (text_le_antisym s t h k))) [ ]
  | inr k ↦ k
]

-- Two entries of different keys can be inserted in either order.
pub insert_by_comm :
    (a b : String × String) (es : List (String × String))
    → a.0 ≢ b.0
    → insert_by key_le a (insert_by key_le b es) ≡ insert_by key_le b (insert_by key_le a es)
unfolding insert_by key_le
insert_by_comm a b [] h = ground (arith, text_le_total (a.0) (b.0), text_le_strict (a.0) (b.0) h)
insert_by_comm a b (y ∷ ys) h = ground (
  arith,
  text_le_total (a.0) (b.0),
  text_le_strict (a.0) (b.0) h,
  text_le_trans (a.0) (b.0) (y.0),
  text_le_trans (b.0) (a.0) (y.0),
  insert_by_comm a b ys h,
)
