-- ===== src/Queue/Publisher/Quota.antt =====
-- The bounds and the quotas of libs/nats-jetstream-provisioner/src/nats-jetstream-publisher.ts.
use ocean_chat_private.Prelude.{
  ℕ, suc, ◌+◌, ◌-◌, ◌≤◌, ◌<◌, ◌≡◌, refl, ap, sym, ◌∙◌, subst, ◌⊎◌, inl, inr, List, [], ◌∷◌, ◌++◌,
  some, Bool, true, false, ltb, leb, length, length-append, if◌then◌else◌, Bool-cases, List-cases,
  ltb→lt, arith,
}
use ocean_chat_private.Exceptions.{Exception}
use ocean_chat_private.Queue.Publisher.{
  Message, Delivery, published, dead_lettered, lost, Publisher, concurrency_limit,
  max_normal_queue_size, max_critical_queue_size, create, limit_of, start, process_next, push,
  publish_safe, record_delivery, settle, complete, Step, publishes, completes, Reach, here, next,
}

-- How many messages of a list are critical, and how many are not.
abbrev pub criticals : List Message → ℕ
criticals [] = 0
criticals (m ∷ ms) = (if m.is_critical then 1 else 0) + criticals ms

abbrev pub normals : List Message → ℕ
normals [] = 0
normals (m ∷ ms) = (if m.is_critical then 0 else 1) + normals ms

normals-append : (xs ys : List Message) → normals (xs ++ ys) ≡ normals xs + normals ys
normals-append [] ys = omega arith
normals-append (x ∷ xs) ys = omega (arith, normals-append xs ys)

normals-criticals : (xs : List Message) → normals xs + criticals xs ≡ length xs
normals-criticals [] = omega arith
normals-criticals (x ∷ xs) = ground (arith, normals-criticals xs)

pub record Inv (p : Publisher) : Type 0 where
  pub counted : p.active ≡ length p.running
  pub bounded : p.active ≤ concurrency_limit
  pub busy : (p.queue ≡ []) ⊎ (p.active ≡ concurrency_limit)
  pub total : length p.queue ≤ max_critical_queue_size
  pub quota : normals p.queue ≤ max_normal_queue_size

process_next-cons :
    (m : Message) (rest : List Message) (p : Publisher)
    → p.queue ≡ m ∷ rest
    → process_next p ≡ start m (record p { queue = rest })
unfolding process_next
process_next-cons m rest p e =
    ap (λ l. elim l [ [] ↦ p | m ∷ rest ↦ start m (record p { queue = rest }) ]) e

process_next-nil : (p : Publisher) → p.queue ≡ [] → process_next p ≡ p
unfolding process_next
process_next-nil p e =
    ap (λ l. elim l [ [] ↦ p | m ∷ rest ↦ start m (record p { queue = rest }) ]) e

start-Inv :
    (m : Message) (rest : List Message) (p : Publisher)
    → p.active ≡ length p.running
    → p.active < concurrency_limit
    → (rest ≡ []) ⊎ (suc p.active ≡ concurrency_limit)
    → length (m ∷ rest) ≤ max_critical_queue_size
    → normals (m ∷ rest) ≤ max_normal_queue_size
    → Inv (start m (record p { queue = rest }))
start-Inv m rest p counted free busy total quota = record {
  counted = omega (arith, length-append p.running (m ∷ []));
  bounded = free;
  busy = busy;
  total = omega arith;
  quota = ground arith;
}

push-Inv :
    (m : Message) (p : Publisher)
    → Inv p
    → p.active ≡ concurrency_limit
    → length p.queue < limit_of m
    → Inv (push m p)
push-Inv m p v full fit = record {
  counted = v.counted;
  bounded = v.bounded;
  busy = inr full;
  total = ground (arith, length-append p.queue (m ∷ []));
  quota = ground (arith, v.quota, normals-append p.queue (m ∷ []), normals-criticals p.queue);
}

push-process_next-Inv :
    (m : Message) (p : Publisher)
    → Inv p
    → p.active < concurrency_limit
    → Inv (process_next (push m p))
push-process_next-Inv m p v free =
    let idle : p.queue ≡ [] = ground (arith, v.busy) in
    let alone : (push m p).queue ≡ m ∷ [] = ap (λ l. l ++ m ∷ []) idle in
    subst Inv (sym (process_next-cons m [] (push m p) alone))
      (start-Inv m [] (push m p) v.counted free (inl refl) (omega arith) (ground arith))

publish_safe-Inv :
    (connected : Bool) (m : Message) (p : Publisher) → Inv p → Inv (publish_safe connected m p).0
unfolding publish_safe
publish_safe-Inv false m p v = v
publish_safe-Inv true m p v = elim (Bool-cases (leb (limit_of m) (length p.queue))) [
  | inl full ↦ simp full v
  | inr room ↦ elim (Bool-cases (ltb p.active concurrency_limit)) [
    | inl free ↦ simp (room, free) (push-process_next-Inv m p v (ltb→lt _ _ free))
    | inr taken ↦ simp (room, taken) (push-Inv m p v (ground (arith, v.bounded)) (ground arith))
  ]
]

finish-Inv :
    (before : List Message) (m : Message) (after : List Message) (p told : Publisher)
    → p.running ≡ before ++ m ∷ after
    → told.active ≡ p.active
    → told.queue ≡ p.queue
    → Inv p
    → Inv (process_next (record told { active = told.active - 1; running = before ++ after }))
finish-Inv before m after p told e same_active same_queue v =
    let p' : Publisher = record told { active = told.active - 1; running = before ++ after } in
    let sizes = length-append before (m ∷ after) in
    let left = length-append before after in
    let was = ap length e in
    let counted : told.active - 1 ≡ length (before ++ after) = omega (arith, v.counted) in
    elim (List-cases told.queue) [
      | inl idle ↦ subst Inv (sym (process_next-nil p' idle)) (record {
        counted = counted;
        bounded = omega (arith, v.bounded);
        busy = inl idle;
        total = subst (λ l. length l ≤ max_critical_queue_size) (sym same_queue) v.total;
        quota = subst (λ l. normals l ≤ max_normal_queue_size) (sym same_queue) v.quota;
      })
      | inr (u, rest, waits) ↦
          let all_busy : p.active ≡ concurrency_limit = ground (arith, v.busy) in
          subst Inv (sym (process_next-cons u rest p' waits)) (
            start-Inv u rest p' counted (omega (arith, v.counted)) (inr (omega (arith, v.counted)))
              (subst (λ l. length l ≤ max_critical_queue_size) (sym same_queue ∙ waits) v.total)
              (subst (λ l. normals l ≤ max_normal_queue_size) (sym same_queue ∙ waits) v.quota))
    ]

told : Message → Delivery → Publisher → Publisher
told m d p = settle m d (record_delivery m d p)

told-keeps :
    (m : Message) (d : Delivery) (p : Publisher)
    → ((told m d p).active ≡ p.active) × ((told m d p).queue ≡ p.queue)
unfolding told
told-keeps m published p = (ground arith, ground arith)
told-keeps m dead_lettered p = (ground arith, ground arith)
told-keeps m lost p = (ground arith, ground arith)

Step-Inv : {p q : Publisher} → Step p q → Inv p → Inv q
unfolding complete told
Step-Inv {p} (publishes connected m) v = publish_safe-Inv connected m p v
Step-Inv {p} (completes before m after d e) v =
    let (a, q) = told-keeps m d p in finish-Inv before m after p (told m d p) e a q v

-- In every run at most 100 publications are pending, none of 100 places stays free while a message
-- waits, at most 10000 messages wait, and at most 5000 of them are not critical.
pub quotas-Inv : (p : Publisher) → Reach create p → Inv p
quotas-Inv p here = record {
  counted = refl;
  bounded = omega arith;
  busy = inl refl;
  total = omega arith;
  quota = omega arith;
}
quotas-Inv p (next r st) = Step-Inv st (quotas-Inv _ r)

-- So a critical message is dropped only while at least 5000 critical ones wait.
pub critical_dropped :
    (p : Publisher) (m : Message) (e : Exception)
    → Reach create p
    → m.is_critical ≡ true
    → (publish_safe true m p).1 ≡ some e
    → 5000 ≤ criticals p.queue
unfolding publish_safe
critical_dropped p m e r c h =
    let v = quotas-Inv p r in ground (arith, v.quota, normals-criticals p.queue)
