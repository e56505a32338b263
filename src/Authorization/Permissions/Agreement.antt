-- ===== src/Authorization/Permissions/Agreement.antt =====
-- libs/authorization/src/logic/permission-checker.service.ts: the checks of many permissions, with their
-- sets and early returns, next to the check of one.
use ocean_chat_private.Prelude.{
  ℕ, ◌≡◌, refl, sym, ap, ◌∙◌, List, [], ◌∷◌, map, Option, none, some, Bool, true, false, ◌||◌,
  Result, ok, err, ◌>>=◌, any, all, ◌==◌, arith, bind-eq-ok, All,
}
use ocean_chat_private.Exceptions.{Exception}
use ocean_chat_private.Authorization.Permissions.{
  RoleSource, includes, errors, values, promise_all, fetch_all, every_allowed, some_allowed,
  get_effective_roles, has_permission, is_allowed, unless_no_roles, has_all_permissions,
  has_at_least_one_permission, Context, extract_context, can_activate,
}

any_none : (l : List ℕ) → any (λ x. false) l ≡ false
any_none [] = refl
any_none (x ∷ l) = any_none l

any_or : (p q : ℕ → Bool) (l : List ℕ) → any (λ x. p x || q x) l ≡ (any p l || any q l)
any_or p q [] = refl
any_or p q (x ∷ l) = ground (arith, any_or p q l)

includes_here : (x : ℕ) (b : List ℕ) → any (λ y. x == y) b ≡ includes b x
includes_here x [] = refl
includes_here x (y ∷ b) = ground (arith, includes_here x b)

-- Two lists meet, from whichever side one looks.
meet_sym : (a b : List ℕ) → any (λ x. includes b x) a ≡ any (λ y. includes a y) b
meet_sym [] b = sym (any_none b)
meet_sym (x ∷ a) b =
    ap (λ c. c || any (λ z. includes b z) a) (sym (includes_here x b))
    ∙ ap (λ c. any (λ y. x == y) b || c) (meet_sym a b)
    ∙ sym (any_or (λ y. x == y) (λ y. includes a y) b)

-- The answers of all, unless one fails.
unfoldable pub in_order {ℓ} : {A : Type ℓ} → List (Result Exception A) → Result Exception (List A)
in_order [] = ok []
in_order (r ∷ rs) = let rest = in_order rs in r >>= λ x. rest >>= λ xs. ok (x ∷ xs)

-- The answer, where there is no error.
abbrev pub answer_of {ℓ} : {A : Type ℓ} → Result Exception A → Option A
answer_of (ok a) = some a
answer_of (err e) = none

answer_of-eq-ok : {A : Type 0} (r : Result Exception A) (a : A) → answer_of r ≡ some a → r ≡ ok a
answer_of-eq-ok (ok b) a h = ground arith
answer_of-eq-ok (err e) a h = cc

answer_of-promise_all :
    {A : Type 0} (first : Exception → List Exception → Exception) (rs : List (Result Exception A))
    → answer_of (promise_all first rs) ≡ answer_of (in_order rs)
unfolding promise_all in_order
answer_of-promise_all first [] = refl
answer_of-promise_all first (err e ∷ rs) = refl
answer_of-promise_all {A} first (ok x ∷ rs) =
    step (errors rs) (values rs) (in_order rs) (answer_of-promise_all first rs)
  where
    step :
        (es : List Exception) (vs : List A) (o : Result Exception (List A))
        → answer_of (elim es [ [] ↦ ok vs | e ∷ es ↦ err (first e es) ]) ≡ answer_of o
        → answer_of (elim es [ [] ↦ ok (x ∷ vs) | e ∷ es ↦ err (first e es) ])
          ≡ answer_of (o >>= λ xs. ok (x ∷ xs))
    step [] vs (ok l) h = ground arith
    step [] vs (err e) h = cc
    step (e ∷ es) vs (ok l) h = cc
    step (e ∷ es) vs (err x) h = refl

answer_of-bind :
    {A B : Type 0} (a b : Result Exception A) (h : A → B)
    → answer_of a ≡ answer_of b
    → answer_of (a >>= λ x. ok (h x)) ≡ answer_of (b >>= λ x. ok (h x))
answer_of-bind (ok x) (ok y) h e = ground arith
answer_of-bind (ok x) (err f) h e = cc
answer_of-bind (err f) (ok y) h e = cc
answer_of-bind (err f) (err g) h e = refl

in_order-map :
    (g : ℕ → Result Exception (List ℕ)) (h : List ℕ → Bool) (ps : List ℕ)
    → in_order (map (λ p. g p >>= λ a. ok (h a)) ps) ≡ (in_order (map g ps) >>= λ ls. ok (map h ls))
unfolding in_order
in_order-map g h [] = refl
in_order-map g h (p ∷ ps) = step (g p) _ (in_order (map g ps)) (in_order-map g h ps)
  where
    step :
        (r : Result Exception (List ℕ)) (bs : Result Exception (List Bool))
        (ls : Result Exception (List (List ℕ)))
        → bs ≡ (ls >>= λ l. ok (map h l))
        → ((r >>= λ a. ok (h a)) >>= λ x. bs >>= λ xs. ok (x ∷ xs))
          ≡ ((r >>= λ x. ls >>= λ xs. ok (x ∷ xs)) >>= λ l. ok (map h l))
    step (err e) bs ls q = refl
    step (ok a) bs (ok l) q = ap (λ b. b >>= λ xs. ok (h a ∷ xs)) q
    step (ok a) bs (err e) q = ap (λ b. b >>= λ xs. ok (h a ∷ xs)) q

-- Whether a role of the user is allowed, as the check of one permission finds it.
abbrev pub meets : List ℕ → List ℕ → Bool
meets roles allowed = any (λ role. includes allowed role) roles

module _ (source : RoleSource) where
  all_meet :
      (r : ℕ) (roles : List ℕ) (ls : List (List ℕ))
      → all (λ b. b) (map (meets (r ∷ roles)) ls) ≡ all (λ a. is_allowed source (r ∷ roles) a) ls
  all_meet r roles [] = refl
  all_meet r roles (a ∷ ls) = ground (arith, meet_sym (r ∷ roles) a, all_meet r roles ls)

  any_meet :
      (r : ℕ) (roles : List ℕ) (ls : List (List ℕ))
      → any (λ b. b) (map (meets (r ∷ roles)) ls) ≡ any (λ a. is_allowed source (r ∷ roles) a) ls
  any_meet r roles [] = refl
  any_meet r roles (a ∷ ls) = ground (arith, meet_sym (r ∷ roles) a, any_meet r roles ls)

  any_nobody : (ls : List (List ℕ)) → any (λ b. b) (map (meets []) ls) ≡ false
  any_nobody [] = refl
  any_nobody (a ∷ ls) = any_nobody ls

  all_lists :
      (roles a : List ℕ) (ls : List (List ℕ))
      → all (λ b. b) (map (meets roles) (a ∷ ls))
        ≡ unless_no_roles source roles (all (λ l. is_allowed source roles l) (a ∷ ls))
  all_lists [] a ls = refl
  all_lists (r ∷ roles) a ls = all_meet r roles (a ∷ ls)

  any_lists :
      (roles : List ℕ) (ls : List (List ℕ))
      → any (λ b. b) (map (meets roles) ls)
        ≡ unless_no_roles source roles (any (λ l. is_allowed source roles l) ls)
  any_lists [] ls = any_nobody ls
  any_lists (r ∷ roles) ls = any_meet r roles ls

  abbrev single : Result Exception (List ℕ) → ℕ → Result Exception Bool
  single user_roles p = user_roles >>= λ roles. source.roles_for p >>= λ a. ok (meets roles a)

  many_all :
      (user_roles : Result Exception (List ℕ)) (p : ℕ) (ps : List ℕ)
      → (in_order (map (single user_roles) (p ∷ ps)) >>= λ bs. ok (all (λ b. b) bs)) ≡ (
          user_roles >>= λ roles. in_order (map source.roles_for (p ∷ ps)) >>= λ ls.
          ok (unless_no_roles source roles (all (λ l. is_allowed source roles l) ls)))
  unfolding in_order
  many_all (err e) p ps = refl
  many_all (ok roles) p ps =
      ap (λ r. r >>= λ bs. ok (all (λ b. b) bs))
        (in_order-map source.roles_for (meets roles) (p ∷ ps))
      ∙ finish (source.roles_for p) (in_order (map source.roles_for ps))
    where
      finish :
          (r : Result Exception (List ℕ)) (rest : Result Exception (List (List ℕ)))
          → (((r >>= λ x. rest >>= λ xs. ok (x ∷ xs)) >>= λ ls. ok (map (meets roles) ls)) >>= λ bs.
              ok (all (λ b. b) bs))
            ≡ ((r >>= λ x. rest >>= λ xs. ok (x ∷ xs)) >>= λ ls.
                ok (unless_no_roles source roles (all (λ l. is_allowed source roles l) ls)))
      finish (err e) rest = refl
      finish (ok a) (err e) = refl
      finish (ok a) (ok ls) = ap ok (all_lists roles a ls)

  many_any :
      (user_roles : Result Exception (List ℕ)) (p : ℕ) (ps : List ℕ)
      → (in_order (map (single user_roles) (p ∷ ps)) >>= λ bs. ok (any (λ b. b) bs)) ≡ (
          user_roles >>= λ roles. in_order (map source.roles_for (p ∷ ps)) >>= λ ls.
          ok (unless_no_roles source roles (any (λ l. is_allowed source roles l) ls)))
  unfolding in_order
  many_any (err e) p ps = refl
  many_any (ok roles) p ps =
      ap (λ r. r >>= λ bs. ok (any (λ b. b) bs))
        (in_order-map source.roles_for (meets roles) (p ∷ ps))
      ∙ finish (in_order (map source.roles_for (p ∷ ps)))
    where
      finish :
          (r : Result Exception (List (List ℕ)))
          → ((r >>= λ ls. ok (map (meets roles) ls)) >>= λ bs. ok (any (λ b. b) bs)) ≡ (
              r >>= λ ls.
              ok (unless_no_roles source roles (any (λ l. is_allowed source roles l) ls)))
      finish (err e) = refl
      finish (ok ls) = ap ok (any_lists roles ls)

  -- The user's roles first and then the others, whatever is made of them.
  in_order-cons :
      (u : Result Exception (List ℕ)) (rs : List (Result Exception (List ℕ)))
      (check : List (List ℕ) → Bool)
      → (in_order (u ∷ rs) >>= λ ls. ok (check ls))
        ≡ (u >>= λ roles. in_order rs >>= λ ls. ok (check (roles ∷ ls)))
  unfolding in_order
  in_order-cons u rs check = cases u (in_order rs)
    where
      cases :
          (u : Result Exception (List ℕ)) (o : Result Exception (List (List ℕ)))
          → ((u >>= λ x. o >>= λ xs. ok (x ∷ xs)) >>= λ ls. ok (check ls))
            ≡ (u >>= λ roles. o >>= λ ls. ok (check (roles ∷ ls)))
      cases (err e) o = refl
      cases (ok l) (ok ls) = refl
      cases (ok l) (err e) = refl

  fetch_all-answer :
      (user : ℕ) (ps : List ℕ) (scope : Option ℕ) (check : List (List ℕ) → Bool)
      → answer_of (fetch_all source user ps scope >>= λ ls. ok (check ls))
        ≡ answer_of (
            get_effective_roles source user scope >>= λ roles.
            in_order (map source.roles_for ps) >>= λ ls. ok (check (roles ∷ ls)))
  unfolding fetch_all
  fetch_all-answer user ps scope check =
      answer_of-bind _ _ check (
        answer_of-promise_all source.first_error
          (get_effective_roles source user scope ∷ map source.roles_for ps))
      ∙ ap answer_of
          (in_order-cons (get_effective_roles source user scope) (map source.roles_for ps) check)

  -- The checks of the single permissions, side by side.
  abbrev pub each : Option ℕ → List ℕ → Option ℕ → Result Exception (List Bool)
  each user ps scope =
      promise_all source.first_error (map (λ p. has_permission source user (some p) scope) ps)

  each_nobody :
      (scope : Option ℕ) (ps : List ℕ) → answer_of (each none ps scope) ≡ some (map (λ p. false) ps)
  unfolding in_order has_permission
  each_nobody scope ps =
      answer_of-promise_all source.first_error
        (map (λ p. has_permission source none (some p) scope) ps)
      ∙ ap answer_of (nobody ps)
    where
      nobody :
          (ps : List ℕ)
          → in_order (map (λ p. has_permission source none (some p) scope) ps)
            ≡ ok (map (λ p. false) ps)
      nobody [] = refl
      nobody (p ∷ ps) = ap (λ r. r >>= λ bs. ok (false ∷ bs)) (nobody ps)

  none_false : (ps : List ℕ) → any (λ b. b) (map (λ p. false) ps) ≡ false
  none_false [] = refl
  none_false (p ∷ ps) = none_false ps

  -- Asking for all of some permissions, or for at least one of them, answers what asking for each alone
  -- answers, and fails exactly if one of the single checks fails. Asking for all of none is refused.
  pub checks_agree :
      (user : Option ℕ) (p : ℕ) (ps : List ℕ) (scope : Option ℕ)
      → (answer_of (has_all_permissions source user (p ∷ ps) scope)
          ≡ answer_of (each user (p ∷ ps) scope >>= λ bs. ok (all (λ b. b) bs)))
        × (answer_of (has_at_least_one_permission source user (p ∷ ps) scope)
            ≡ answer_of (each user (p ∷ ps) scope >>= λ bs. ok (any (λ b. b) bs)))
        × (has_all_permissions source user [] scope ≡ ok false)
  unfolding has_all_permissions has_at_least_one_permission has_permission
  checks_agree (some user) p ps scope =
      let together =
        answer_of-promise_all source.first_error
          (map (single (get_effective_roles source user scope)) (p ∷ ps)) in
      (
        fetch_all-answer user (p ∷ ps) scope (every_allowed source)
            ∙ ap answer_of (sym (many_all (get_effective_roles source user scope) p ps))
            ∙ sym (answer_of-bind _ _ (all (λ b. b)) together),
        fetch_all-answer user (p ∷ ps) scope (some_allowed source)
            ∙ ap answer_of (sym (many_any (get_effective_roles source user scope) p ps))
            ∙ sym (answer_of-bind _ _ (any (λ b. b)) together),
        refl,
      )
  checks_agree none p ps scope = (
    sym (
        answer_of-bind _ (ok (map (λ p. false) (p ∷ ps))) (all (λ b. b))
          (each_nobody scope (p ∷ ps))),
    sym (
        answer_of-bind _ (ok (map (λ p. false) (p ∷ ps))) (any (λ b. b))
          (each_nobody scope (p ∷ ps))
        ∙ ap some (none_false (p ∷ ps))),
    refl,
  )

  all_granted :
      (g : ℕ → Result Exception Bool) (ps : List ℕ) (bs : List Bool)
      → in_order (map g ps) ≡ ok bs
      → all (λ b. b) bs ≡ true
      → All (λ p. g p ≡ ok true) ps
  unfolding in_order
  all_granted g [] bs h a = tt
  all_granted g (p ∷ ps) bs h a =
      let (b, tail, first) = bind-eq-ok _ (g p) h in
      let (rest, cons, others) = bind-eq-ok _ (in_order (map g ps)) tail in
      (ground arith, all_granted g ps rest others (ground arith))

  -- A request that passes the guard of a route that requires permissions has a user, and each of the
  -- permissions is granted to that user alone, in the scope of the request.
  pub can_activate-grants :
      (p : ℕ) (ps : List ℕ) (context : Context)
      → can_activate source (p ∷ ps) context ≡ ok true
      → (user : ℕ) × (scope : Option ℕ) × (extract_context context ≡ ok (some user, scope))
        × All (λ q. has_permission source (some user) (some q) scope ≡ ok true) (p ∷ ps)
  unfolding can_activate has_all_permissions
  can_activate-grants p ps context h =
      let (extracted, checked, e) = bind-eq-ok _ (extract_context context) h in
      grants extracted.0 extracted.1 checked e
    where
      grants :
          (user scope : Option ℕ)
          → has_all_permissions source user (p ∷ ps) scope ≡ ok true
          → extract_context context ≡ ok (user, scope)
          → (u : ℕ) × (s : Option ℕ) × (extract_context context ≡ ok (some u, s))
            × All (λ q. has_permission source (some u) (some q) s ≡ ok true) (p ∷ ps)
      grants none scope c e = ground arith
      grants (some u) scope c e =
          let (bs, every, each_ok) =
            bind-eq-ok _ (each (some u) (p ∷ ps) scope) (
              answer_of-eq-ok _ true (sym (checks_agree (some u) p ps scope).0 ∙ ap answer_of c)) in
          (
            u,
            scope,
            e,
            all_granted (λ q. has_permission source (some u) (some q) scope) (p ∷ ps) bs
                (answer_of-eq-ok _ bs (
                  sym (
                    answer_of-promise_all source.first_error
                      (map (λ q. has_permission source (some u) (some q) scope) (p ∷ ps)))
                  ∙ ap answer_of each_ok))
                (ground arith),
          )
