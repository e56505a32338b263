-- ===== src/IdGenerator/Decimal/Order.antt =====
-- The comparisons of the Lua scripts of libs/id-generator/src on decimal texts, against those of the
-- numbers.
use ocean_chat_private.Prelude.{
  ℕ, zero, suc, ◌/◌, ◌%◌, ◌<◌, ◌≡◌, ◌∙◌, List, [], ◌∷◌, ◌++◌, not, ◌&&◌, ◌||◌, ltb, leb, length,
  length-append, if◌then◌else◌, some, arith,
}
use ocean_chat_private.IdGenerator.Decimal.{
  digit, to_digits, to_decimal, text_gt, is_greater, is_greater_or_equal,
}

text_gt-snoc :
    (a b : List ℕ) (x y : ℕ)
    → length a ≡ length b
    → text_gt (a ++ x ∷ []) (b ++ y ∷ []) ≡ (text_gt a b || (not (text_gt b a) && ltb y x))
unfolding text_gt
text_gt-snoc [] [] x y h = ground arith
text_gt-snoc [] (d ∷ b) x y h = absurd (omega arith)
text_gt-snoc (c ∷ a) [] x y h = absurd (omega arith)
text_gt-snoc (c ∷ a) (d ∷ b) x y h = ground (arith, text_gt-snoc a b x y)

is_greater-snoc :
    (a b : List ℕ) (x y : ℕ)
    → is_greater (a ++ x ∷ []) (some (b ++ y ∷ []))
      ≡ (is_greater a (some b) || (not (is_greater b (some a)) && ltb y x))
unfolding is_greater
is_greater-snoc a b x y =
    ground (arith, text_gt-snoc a b x y, length-append a (x ∷ []), length-append b (y ∷ []))

pub length-to_digits : (f n : ℕ) → n < f → 0 < length (to_digits f n)
unfolding to_digits
length-to_digits zero n h = absurd (omega arith)
length-to_digits (suc f) n h =
    ground (arith, length-append (to_digits f (n / 10)) (digit (n % 10) ∷ []))

-- All digits but the last.
abbrev leading : ℕ → ℕ → List ℕ
leading f n = if ltb n 10 then [] else to_digits f (n / 10)

to_digits-suc : (f n : ℕ) → to_digits (suc f) n ≡ leading f n ++ digit (n % 10) ∷ []
unfolding to_digits
to_digits-suc f n = ground arith

leading-gt :
    (f g a b : ℕ)
    → a < suc f
    → b < suc g
    → (a / 10 < f
        → b / 10 < g
        → is_greater (to_digits f (a / 10)) (some (to_digits g (b / 10))) ≡ ltb (b / 10) (a / 10))
    → is_greater (leading f a) (some (leading g b)) ≡ ltb (b / 10) (a / 10)
unfolding is_greater text_gt
leading-gt f g a b h k ih = ground (arith, length-to_digits f (a / 10), length-to_digits g (b / 10))

-- Both directions at once, for the recursion.
to_digits-gt :
    (f g a b : ℕ)
    → a < f
    → b < g
    → (is_greater (to_digits f a) (some (to_digits g b)) ≡ ltb b a)
      × (is_greater (to_digits g b) (some (to_digits f a)) ≡ ltb a b)
to_digits-gt zero g a b h k = absurd (omega arith)
to_digits-gt (suc f) zero a b h k = absurd (omega arith)
to_digits-gt (suc f) (suc g) a b h k =
    let ih = to_digits-gt f g (a / 10) (b / 10) in
    let up = leading-gt f g a b h k (λ p q. (ih p q).0) in
    let down = leading-gt g f b a k h (λ p q. (ih q p).1) in
    (
      rw (to_digits-suc f a, to_digits-suc g b, is_greater-snoc, up, down) (ground arith),
      rw (to_digits-suc f a, to_digits-suc g b, is_greater-snoc, up, down) (ground arith),
    )

-- `is_greater` of two decimal texts is `>` of the numbers.
pub is_greater-to_decimal : (a b : ℕ) → is_greater (to_decimal a) (some (to_decimal b)) ≡ ltb b a
is_greater-to_decimal a b = (to_digits-gt (suc a) (suc b) a b (omega arith) (omega arith)).0

is_greater_or_equal-not : (a b : List ℕ) → is_greater_or_equal a b ≡ not (is_greater b (some a))
unfolding is_greater is_greater_or_equal
is_greater_or_equal-not a b = ground arith

-- The two comparisons of the Lua scripts, which never turn a text into a Lua number, agree with
-- `>` and `≥` on decimal texts of numbers of any size.
pub comparisons_are_numeric :
    (a b : ℕ)
    → (is_greater (to_decimal a) (some (to_decimal b)) ≡ ltb b a)
      × (is_greater_or_equal (to_decimal a) (to_decimal b) ≡ leb b a)
comparisons_are_numeric a b = (
  is_greater-to_decimal a b,
  is_greater_or_equal-not (to_decimal a) (to_decimal b)
      ∙ (rw (is_greater-to_decimal b a) (ground arith)),
)
