-- ===== src/IdGenerator/Service/Interleaving/Ordered.antt =====
-- The order of the numbers that the interleavings of libs/id-generator/src issue.
use ocean_chat_private.Prelude.{
  ℕ, ◌%◌, ◌≤◌, ◌≡◌, refl, sym, ◌∙◌, subst, ◌⊎◌, inl, inr, List, [], ◌∷◌, ◌++◌, map, Option, none,
  some, All, All-map, All-append, arith,
}
use ocean_chat_private.IdGenerator.Decimal.{to_decimal}
use ocean_chat_private.IdGenerator.Decimal.Order.{comparisons_are_numeric}
use ocean_chat_private.IdGenerator.Script.{Text, Increment, IsIncrement}
use ocean_chat_private.IdGenerator.Service.{World, Pod, sync, Delivery, step, step_size}
use ocean_chat_private.IdGenerator.Service.Steps.{
  db_value, IsAllocated-keep, Decreasing, Inv, empty, running,
}
use ocean_chat_private.IdGenerator.Service.Outcome.{
  Outcome, quiet, issues, result_of, Pending, step-Outcome, step-Inv, step-Pending, Inv-lock,
}
use ocean_chat_private.IdGenerator.Service.Interleaving.{
  System, Step, act, arrive, expire, crash, Reach, here, next,
}

abbrev pub Has : Text → List Text → Type 0
Has t [] = ⊥
Has t (x ∷ xs) = (t ≡ x) ⊎ Has t xs

-- What a call has in hand was issued.
abbrev pub FromIssued : World → Pod → Type 0
FromIssued w p = (t : Text) → result_of p ≡ some t → Has t w.issued

abbrev pub Differ : Pod → Pod → Type 0
Differ p q = (t : Text) → result_of p ≡ some t → result_of q ≡ some t → ⊥

-- No two calls have the same number in hand.
abbrev pub Distinct : List Pod → Type 0
Distinct [] = Unit
Distinct (p ∷ ps) = All (Differ p) ps × Distinct ps

-- Texts of different numbers differ.
to_decimal-injective : (a b : ℕ) → to_decimal a ≡ to_decimal b → a ≡ b
to_decimal-injective a b e = ground (
  arith,
  (comparisons_are_numeric a b).0,
  (comparisons_are_numeric b b).0,
  (comparisons_are_numeric b a).0,
)

Decreasing-head :
    (n m : ℕ) (ns : List ℕ)
    → Decreasing (n ∷ ns)
    → n ≤ m
    → Has (to_decimal m) (map to_decimal ns)
    → ⊥
Decreasing-head n m [] d le h = h
Decreasing-head n m (k ∷ ns) (lt, d) le (inl e) = absurd (omega (arith, to_decimal-injective m k e))
Decreasing-head n m (k ∷ ns) (lt, d) le (inr h) = Decreasing-head k m ns d (omega arith) h

-- A number that has just been issued was never issued before.
Inv-fresh : (w : World) (x : Text) (xs : List Text) → Inv w → w.issued ≡ x ∷ xs → Has x xs → ⊥
Inv-fresh w x xs (empty e none_issued d) log h = cc
Inv-fresh w x xs (running max cur ns hold issued dec le a d) log h =
    Decreasing-head cur cur ns dec (omega arith) (ground arith)

pub record SystemInv (s : System) : Type 0 where
  pub world : Inv s.world
  pub pending : All (Pending s.world) s.calls
  pub issued : All (FromIssued s.world) s.calls
  pub distinct : Distinct s.calls

All-split {ℓ κ} :
    {A : Type ℓ} (P : A → Type κ) (xs : List A) (y : A) (ys : List A)
    → All P (xs ++ y ∷ ys)
    → All P xs × P y × All P ys
All-split P [] y ys (p, h) = (tt, p, h)
All-split P (x ∷ xs) y ys (p, h) = let (a, b, c) = All-split P xs y ys h in ((p, a), b, c)

All-pure {ℓ κ} : {A : Type ℓ} {P : A → Type κ} (f : (a : A) → P a) (xs : List A) → All P xs
All-pure f [] = tt
All-pure f (x ∷ xs) = (f x, All-pure f xs)

All-zip {ℓ κ μ ν} :
    {A : Type ℓ} {P : A → Type κ} {Q : A → Type μ} {R : A → Type ν} (f : (a : A) → P a → Q a → R a)
    (xs : List A)
    → All P xs
    → All Q xs
    → All R xs
All-zip f [] p q = tt
All-zip f (x ∷ xs) (p, ps) (q, qs) = (f x p q, All-zip f xs ps qs)

Distinct-replace {κ} :
    (Q : Pod → Type κ) (before : List Pod) (p p' : Pod) (after : List Pod)
    → ((q : Pod) → Q q → Differ p q → Differ p' q)
    → All Q before
    → All Q after
    → Distinct (before ++ p ∷ after)
    → Distinct (before ++ p' ∷ after)
Distinct-replace Q [] p p' after f qs rs (h, d) = (All-zip f after rs h, d)
Distinct-replace Q (b ∷ bs) p p' after f (q, qs) rs (h, d) =
    let (left, mid, right) = All-split (Differ b) bs p after h in
    (
      All-append (Differ b) bs (p' ∷ after) left
          ((λ t e e'. f b q (λ s u u'. mid s u' u) t e' e), right),
      Distinct-replace Q bs p p' after f qs rs d,
    )

Distinct-drop :
    (before : List Pod) (p : Pod) (after : List Pod)
    → Distinct (before ++ p ∷ after)
    → Distinct (before ++ after)
Distinct-drop [] p after (h, d) = d
Distinct-drop (b ∷ bs) p after (h, d) =
    let (left, mid, right) = All-split (Differ b) bs p after h in
    (All-append (Differ b) bs after left right, Distinct-drop bs p after d)

-- The effect of one operation on the call itself and on the others.
module _ {w w' : World} {p p' : Pod} where
  db-grows : Outcome w p w' p' → db_value w.db_max ≤ db_value w'.db_max
  db-grows (quiet h _ _) = h
  db-grows (issues x h _ _) = h

  others-FromIssued : Outcome w p w' p' → (q : Pod) → FromIssued w q → FromIssued w' q
  others-FromIssued (quiet _ same _) q f t e = rw same (f t e)
  others-FromIssued (issues x _ grown _) q f t e = rw grown (inr (f t e))

  own-FromIssued : Outcome w p w' p' → FromIssued w p → FromIssued w' p'
  own-FromIssued (quiet _ same (inl lost)) f t e = absurd (cc)
  own-FromIssued (quiet _ same (inr kept)) f t e = rw same (f t (sym kept ∙ e))
  own-FromIssued (issues x _ grown (inl lost)) f t e = absurd (cc)
  own-FromIssued (issues x _ grown (inr got)) f t e = rw grown (inl (cc))

  own-Differ : Outcome w p w' p' → Inv w' → (q : Pod) → FromIssued w q → Differ p q → Differ p' q
  own-Differ (quiet _ same (inl lost)) v q f d t e e' = cc
  own-Differ (quiet _ same (inr kept)) v q f d t e e' = d t (sym kept ∙ e) e'
  own-Differ (issues x _ grown (inl lost)) v q f d t e e' = cc
  own-Differ (issues x _ grown (inr got)) v q f d t e e' =
      Inv-fresh w' x w.issued v grown (f x (cc))

Pending-keep :
    (w w' : World) (q : Pod) → db_value w.db_max ≤ db_value w'.db_max → Pending w q → Pending w' q
Pending-keep w w' (sync l n m) h a = IsAllocated-keep {w = w} h a
Pending-keep w w' _ h a = tt

act-SystemInv :
    (incr : Increment) (i : IsIncrement incr) (w : World) (before : List Pod) (p : Pod)
    (after : List Pod) (uuid : ℕ) (d : Delivery)
    → SystemInv (record { world = w; calls = before ++ p ∷ after })
    → SystemInv (record {
      world = (step incr uuid d w p).0;
      calls = before ++ (step incr uuid d w p).1 ∷ after;
    })
act-SystemInv incr i w before p after uuid d v =
    let w' = (step incr uuid d w p).0 in
    let p' = (step incr uuid d w p).1 in
    let out = step-Outcome incr uuid d w p in
    let (pl, pm, pr) = All-split (Pending w) before p after v.pending in
    let (il, im, ir) = All-split (FromIssued w) before p after v.issued in
    let world = step-Inv incr uuid d w p i pm v.world in
    let keep = λ (q : Pod). Pending-keep w w' q (db-grows out) in
    record {
      world = world;
      pending =
          All-append (Pending w') before (p' ∷ after) (All-map keep before pl)
            (step-Pending incr uuid d w p v.world, All-map keep after pr);
      issued =
          All-append (FromIssued w') before (p' ∷ after) (All-map (others-FromIssued out) before il)
            (own-FromIssued out im, All-map (others-FromIssued out) after ir);
      distinct =
          Distinct-replace (FromIssued w) before p p' after (own-Differ out world) il ir v.distinct;
    }

crash-SystemInv :
    (w : World) (before : List Pod) (p : Pod) (after : List Pod)
    → SystemInv (record { world = w; calls = before ++ p ∷ after })
    → SystemInv (record { world = w; calls = before ++ after })
crash-SystemInv w before p after v =
    let (pl, pm, pr) = All-split (Pending w) before p after v.pending in
    let (il, im, ir) = All-split (FromIssued w) before p after v.issued in
    record {
      world = v.world;
      pending = All-append (Pending w) before after pl pr;
      issued = All-append (FromIssued w) before after il ir;
      distinct = Distinct-drop before p after v.distinct;
    }

Step-SystemInv :
    (incr : Increment) (i : IsIncrement incr) {s t : System}
    → SystemInv s
    → Step incr s t
    → SystemInv t
Step-SystemInv incr i {s} v (act before p after uuid d e) =
    act-SystemInv incr i s.world before p after uuid d
      (subst (λ c. SystemInv (record { world = s.world; calls = c })) e v)
Step-SystemInv incr i {s} v arrive = record {
  world = v.world;
  pending = (tt, v.pending);
  issued = ((λ t e. absurd (cc)), v.issued);
  distinct = (All-pure (λ q t e. absurd (cc)) s.calls, v.distinct);
}
Step-SystemInv incr i {s} v expire = record {
  world = Inv-lock s.world none v.world;
  pending = All-map (λ q. Pending-keep s.world _ q (omega arith)) s.calls v.pending;
  issued = v.issued;
  distinct = v.distinct;
}
Step-SystemInv incr i {s} v (crash before p after e) =
    crash-SystemInv s.world before p after
      (subst (λ c. SystemInv (record { world = s.world; calls = c })) e v)

Reach-SystemInv :
    (incr : Increment) (i : IsIncrement incr) {s t : System}
    → SystemInv s
    → Reach incr s t
    → SystemInv t
Reach-SystemInv incr i v here = v
Reach-SystemInv incr i v (next r st) = Step-SystemInv incr i (Reach-SystemInv incr i v r) st

-- Redis holds nothing for the key, and MongoDB has counted to a whole number of segments.
abbrev pub initial : Option ℕ → System
initial db = record {
  world = record {
    hash = record { max = none; cur = none };
    lock = none;
    db_max = db;
    issued = [];
  };
  calls = [];
}

initial-SystemInv : (db : Option ℕ) → db_value db % step_size ≡ 0 → SystemInv (initial db)
initial-SystemInv db h = record {
  world = empty refl refl h;
  pending = tt;
  issued = tt;
  distinct = tt;
}

issued_of_Inv : (w : World) → Inv w → (ns : List ℕ) × (w.issued ≡ map to_decimal ns) × Decreasing ns
issued_of_Inv w (empty e none_issued d) = ([], none_issued, tt)
issued_of_Inv w (running max cur ns h log dec le a d) = (cur ∷ ns, log, dec)

-- From an empty hash and a value of the database that is a multiple of 1000, as every allocation keeps it,
-- in any interleaving of calls, with locks that expire early, lost replies and crashed pods, the numbers that Redis gives out for a key rise strictly, as numbers, in the order
-- in which they are given out.
pub issued_increasing :
    (incr : Increment) (db : Option ℕ) (s : System)
    → IsIncrement incr
    → db_value db % step_size ≡ 0
    → Reach incr (initial db) s
    → (ns : List ℕ) × (s.world.issued ≡ map to_decimal ns) × Decreasing ns
issued_increasing incr db s i h r =
    issued_of_Inv s.world (Reach-SystemInv incr i (initial-SystemInv db h) r).world

-- From an empty hash and a value of the database that is a multiple of 1000, as every allocation keeps it,
-- in any interleaving of calls, with locks that expire early, lost replies and crashed pods, every call that has a number has one that Redis gave out, and no two calls have the
-- same.
pub results-Distinct :
    (incr : Increment) (db : Option ℕ) (s : System)
    → IsIncrement incr
    → db_value db % step_size ≡ 0
    → Reach incr (initial db) s
    → All (FromIssued s.world) s.calls × Distinct s.calls
results-Distinct incr db s i h r =
    let v = Reach-SystemInv incr i (initial-SystemInv db h) r in (v.issued, v.distinct)
