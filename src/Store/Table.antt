-- ===== src/Store/Table.antt =====
-- A store as a function from keys to values with the time of their expiry. It shows that the laws can
-- hold.
use ocean_chat_private.Prelude.{
  ℕ, ◌+◌, ◌<◌, ◌≡◌, ◌≢◌, refl, Option, none, some, ltb, ◌==◌, arith, if◌then◌else◌,
}
use ocean_chat_private.Store.{Store}

abbrev pub entry_at : {V : Type 0} → ℕ → Option (V × ℕ) → Option V
entry_at now none = none
entry_at now (some (v, expiry)) = if ltb now expiry then some v else none

module _ (V : Type 0) where
  abbrev pub Table : Type 0
  Table = ℕ → Option (V × ℕ)

  abbrev pub set : ℕ → V → ℕ → ℕ → Table → Table
  set k v ttl now s l = if l == k then some (v, now + ttl) else s l

  abbrev pub delete : ℕ → Table → Table
  delete k s l = if l == k then none else s l

  pub get-set :
      (k : ℕ) (v : V) (ttl now later : ℕ) (s : Table)
      → later < now + ttl
      → entry_at later (set k v ttl now s k) ≡ some v
  get-set k v ttl now later s h = ground arith

  pub get-set_other :
      (k l : ℕ) (v : V) (ttl now later : ℕ) (s : Table)
      → l ≢ k
      → entry_at later (set k v ttl now s l) ≡ entry_at later (s l)
  get-set_other k l v ttl now later s h = ground arith

  pub get-delete : (k : ℕ) (later : ℕ) (s : Table) → entry_at later (delete k s k) ≡ none
  get-delete k later s = ground arith

  pub get-delete_other :
      (k l : ℕ) (later : ℕ) (s : Table)
      → l ≢ k
      → entry_at later (delete k s l) ≡ entry_at later (s l)
  get-delete_other k l later s h = ground arith

  abbrev pub table : Store ℕ V
  table = record {
    State = Table;
    empty = λ _. none;
    get = λ k now s. entry_at now (s k);
    set = set;
    delete = delete;
    get-empty = λ k now. refl;
    get-set = get-set;
    get-set_other = get-set_other;
    get-delete = get-delete;
    get-delete_other = get-delete_other;
  }
