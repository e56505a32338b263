-- ===== src/Redis/Service/Table.antt =====
-- Redis strings as a function from keys to values that may expire. It shows that the laws that
-- libs/redis/src/redis.service.ts relies on can hold.
use ocean_chat_private.Prelude.{
  ℕ, ◌+◌, ◌*◌, ◌<◌, ◌≡◌, ◌≢◌, refl, ap, ◌∙◌, lt→ltb, Option, none, some, true, ltb, same_text,
  same_text_refl, same_text_sound, if◌then◌else◌, arith,
}
use ocean_chat_private.Redis.Service.{Text, RedisClient, IsRedis}

-- The time at which a value expires, if it does.
abbrev pub Entry : Type 0
Entry = Text × Option ℕ

abbrev pub live : ℕ → Option Entry → Option Text
live now none = none
live now (some (v, none)) = some v
live now (some (v, some expiry)) = if ltb now expiry then some v else none

abbrev pub Table : Type 0
Table = Text → Option Entry

abbrev pub put : Text → Option Entry → Table → Table
put k e s l = if same_text l k then e else s l

-- A value that has expired is gone.
abbrev pub expiring : ℕ → ℕ → Option Entry → Option Entry
expiring now expiry e = elim (live now e) [ none ↦ none | some v ↦ some (v, some expiry) ]

abbrev pub table : RedisClient
table = record {
  State = Table;
  get = λ k now s. live now (s k);
  set = λ k v s. put k (some (v, none)) s;
  set_ex = λ k v ttl now s. put k (some (v, some (now + ttl * 1000))) s;
  expire = λ k ttl now s. put k (expiring now (now + ttl * 1000) (s k)) s;
  del = λ k s. put k none s;
}

put_same : (k : Text) (e : Option Entry) (s : Table) → put k e s k ≡ e
put_same k e s = rw (same_text_refl k) refl

put_other : (k l : Text) (e : Option Entry) (s : Table) → l ≢ k → put k e s l ≡ s l
put_other k l e s d = ground (arith, λ (h : same_text l k ≡ true). d (same_text_sound l k h))

live-expiring :
    (now later expiry : ℕ) (v : Text) (e : Option Entry)
    → live now e ≡ some v
    → later < expiry
    → live later (expiring now expiry e) ≡ some v
live-expiring now later expiry v e h l = ground arith

pub table-IsRedis : IsRedis table
table-IsRedis = record {
  get-set = λ k v now s. ap (live now) (put_same k (some (v, none)) s);
  get-set_other = λ k l v now s d. ap (live now) (put_other k l (some (v, none)) s d);
  get-set_ex = λ k v ttl now later s h.
      ap (live later) (put_same k (some (v, some (now + ttl * 1000))) s)
      ∙ rw (lt→ltb later (now + ttl * 1000) h) refl;
  get-set_ex_other = λ k l v ttl now later s d.
      ap (live later) (put_other k l (some (v, some (now + ttl * 1000))) s d);
  get-expire = λ k v ttl now later s g h.
      ap (live later) (put_same k (expiring now (now + ttl * 1000) (s k)) s)
      ∙ live-expiring now later (now + ttl * 1000) v (s k) g h;
  get-expire_other = λ k l ttl now later s d.
      ap (live later) (put_other k l (expiring now (now + ttl * 1000) (s k)) s d);
  get-del = λ k now s. ap (live now) (put_same k none s);
  get-del_other = λ k l now s d. ap (live now) (put_other k l none s d);
}
