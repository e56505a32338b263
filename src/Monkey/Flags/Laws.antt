-- ===== src/Monkey/Flags/Laws.antt =====
-- How the flags of libs/monkey/src/enums/flags.ts act on one another. A flags byte has 256 values,
-- so each law is a table.
use ocean_chat_private.Prelude.{
  ℕ, zero, suc, ◌<◌, ◌≡◌, refl, Bool, true, false, not, ◌&&◌, ◌||◌, ltb, ◌==◌, arith, ltb→lt,
}
use ocean_chat_private.Monkey.Flags.{
  Flag, require_ack, compressed, encrypted, mask, has_flag, set_flag, clear_flag,
}

-- The test passes for 0 up to `n`, `n` left out.
table : (ℕ → Bool) → ℕ → Bool
table test zero = true
table test (suc n) = table test n && test n

table-get : (test : ℕ → Bool) (n i : ℕ) → i < n → table test n ≡ true → test i ≡ true
unfolding table
table-get test zero i below passed = elim below [ ]
table-get test (suc n) i below passed = ground (arith, table-get test n i)

abbrev eqb : Bool → Bool → Bool
eqb true b = b
eqb false b = not b

eqb-eq : (a b : Bool) → eqb a b ≡ true → a ≡ b
eqb-eq a b h = ground arith

abbrev pub same_flag : Flag → Flag → Bool
same_flag f g = mask f == mask g

abbrev set_law : Flag → Flag → ℕ → Bool
set_law f g c =
    eqb (has_flag (set_flag c (mask f)) (mask g)) (same_flag f g || has_flag c (mask g))
    && ltb (set_flag c (mask f)) 256

abbrev clear_law : Flag → Flag → ℕ → Bool
clear_law f g c =
    eqb (has_flag (clear_flag c (mask f)) (mask g)) (not (same_flag f g) && has_flag c (mask g))
    && ltb (clear_flag c (mask f)) 256

set_table : (f g : Flag) → table (set_law f g) 256 ≡ true
unfolding table has_flag set_flag
set_table require_ack require_ack = refl
set_table require_ack compressed = refl
set_table require_ack encrypted = refl
set_table compressed require_ack = refl
set_table compressed compressed = refl
set_table compressed encrypted = refl
set_table encrypted require_ack = refl
set_table encrypted compressed = refl
set_table encrypted encrypted = refl

clear_table : (f g : Flag) → table (clear_law f g) 256 ≡ true
unfolding table has_flag clear_flag
clear_table require_ack require_ack = refl
clear_table require_ack compressed = refl
clear_table require_ack encrypted = refl
clear_table compressed require_ack = refl
clear_table compressed compressed = refl
clear_table compressed encrypted = refl
clear_table encrypted require_ack = refl
clear_table encrypted compressed = refl
clear_table encrypted encrypted = refl

and-parts : (a b : Bool) → (a && b) ≡ true → (a ≡ true) × (b ≡ true)
and-parts a b h = ground arith

-- Setting or clearing a flag of a byte decides that flag, leaves every other flag as it was, and
-- gives a byte again.
pub flags_independent :
    (f g : Flag) (c : ℕ)
    → c < 256
    → (has_flag (set_flag c (mask f)) (mask g) ≡ (same_flag f g || has_flag c (mask g)))
      × (has_flag (clear_flag c (mask f)) (mask g) ≡ (not (same_flag f g) && has_flag c (mask g)))
      × (set_flag c (mask f) < 256)
      × (clear_flag c (mask f) < 256)
flags_independent f g c h =
    let (s, s_byte) = and-parts _ _ (table-get (set_law f g) 256 c h (set_table f g)) in
    let (k, k_byte) = and-parts _ _ (table-get (clear_law f g) 256 c h (clear_table f g)) in
    (eqb-eq _ _ s, eqb-eq _ _ k, ltb→lt _ _ s_byte, ltb→lt _ _ k_byte)
