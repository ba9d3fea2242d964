-- ===== src/Solver/Clause/Flags.antt =====
-- solver/clause.go: the flags and the LBD value of a clause share one word, and do not disturb each
-- other.
use Prim.Native.Nat.{bit_or}
use gophersat.Prelude.{
  ℕ, zero, suc, ◌+◌, ◌-◌, ◌*◌, ◌/◌, ◌^◌, ◌<◌, ◌≡◌, refl, true, false, arith, if◌then◌else◌,
}
use gophersat.Prelude.Int.{pos}
use gophersat.Solver.Problem.{Clause}
use gophersat.Solver.Clause.{
  uint32, learned_bit, locked_bit, low_bits, learned, is_locked, lbd, cardinality, lock, unlock,
  set_lbd, inc_lbd,
}

-- The two clauses differ in their lock alone.
pub record SameBut (c c' : Clause) : Type 0 where
  pub learned_kept : learned c' ≡ learned c
  pub lbd_kept : lbd c' ≡ lbd c
  pub card_kept : cardinality c' ≡ cardinality c
  pub word : c'.lbd_value < 2 ^ 32

-- The laws of the word.
pub record FlagLaws (c : Clause) (n : ℕ) : Type 0 where
  pub lock_same : SameBut c (lock c)
  pub lock_locks : is_locked (lock c) ≡ learned c
  pub unlock_same : SameBut c (unlock c)
  pub unlock_unlocks : is_locked (unlock c) ≡ false
  pub set_learned : learned (set_lbd (pos n) c) ≡ learned c
  pub set_locked : is_locked (set_lbd (pos n) c) ≡ is_locked c
  pub set_reads : lbd (set_lbd (pos n) c) ≡ n
  pub inc_learned : learned (inc_lbd c) ≡ learned c
  pub inc_locked : is_locked (inc_lbd c) ≡ is_locked c
  pub inc_reads : lbd (inc_lbd c) ≡ lbd c + 1

or_zero : (t : ℕ) → t < 4 → bit_or t 0 ≡ t
or_zero zero h = refl
or_zero (suc zero) h = refl
or_zero (suc (suc zero)) h = refl
or_zero (suc (suc (suc zero))) h = refl
or_zero (suc (suc (suc (suc t)))) h = absurd (omega arith)

module _ (v : ℕ) (h : v < 2 ^ 32) where
  locked_value :
      (let w = (if locked_bit v then v else v + 2 ^ 30) in
        (learned_bit w ≡ learned_bit v)
        × (low_bits w ≡ low_bits v)
        × (locked_bit w ≡ true)
        × (w < 2 ^ 32))
  locked_value = ground arith

  unlocked_value :
      (let w = (if locked_bit v then v - 2 ^ 30 else v) in
        (learned_bit w ≡ learned_bit v)
        × (low_bits w ≡ low_bits v)
        × (locked_bit w ≡ false)
        × (w < 2 ^ 32))
  unlocked_value = ground arith

set_word :
    (c : Clause) (n : ℕ)
    → c.lbd_value < 2 ^ 32
    → n < 2 ^ 30
    → (set_lbd (pos n) c).lbd_value ≡ c.lbd_value / 2 ^ 30 * 2 ^ 30 + n
unfolding set_lbd
set_word c n h k =
    let word : uint32 (pos n) ≡ n = omega arith in
    let top : n / 2 ^ 30 ≡ 0 = omega arith in
    rw (word, top, or_zero (c.lbd_value / 2 ^ 30) (omega arith)) (omega arith)

-- For a word of 32 bits, a value of less than 30 bits, and an LBD value that has not reached its
-- bound: locking and unlocking change the lock alone, and only a learned clause is then locked;
-- setting and counting up the LBD value change nothing else, and it reads what was written.
pub flag_laws :
    (c : Clause) (n : ℕ) → c.lbd_value < 2 ^ 32 → n < 2 ^ 30 → lbd c + 1 < 2 ^ 30 → FlagLaws c n
unfolding learned is_locked lbd cardinality lock unlock inc_lbd
flag_laws c n h k m =
    let v = c.lbd_value in
    let l = locked_value v h in
    let u = unlocked_value v h in
    record {
      lock_same = record {
        learned_kept = l.0;
        lbd_kept = l.1;
        card_kept = rw (l.0, l.1) refl;
        word = l.3;
      };
      lock_locks = rw (l.0, l.2) (ground arith);
      unlock_same = record {
        learned_kept = u.0;
        lbd_kept = u.1;
        card_kept = rw (u.0, u.1) refl;
        word = u.3;
      };
      unlock_unlocks = rw (u.0, u.2) (ground arith);
      set_learned = ground (arith, set_word c n h k);
      set_locked = ground (arith, set_word c n h k);
      set_reads = ground (arith, set_word c n h k);
      inc_learned = ground arith;
      inc_locked = ground arith;
      inc_reads = ground arith;
    }
