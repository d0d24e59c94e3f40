-- ===== src/Cmd/Pool/Counts.antt =====
-- How many commands of a pool run and wait, and what a change of one pool leaves of the others.
use shuriken.Prelude.{
  List, ℕ, ◌==◌, ◌≡◌, ◌∷◌, true, ◌++◌, ◌||◌, length, ap, not, if◌then◌else◌, ◌+◌, arith, nat_beq,
  string_eq, [],
}
use shuriken.Cmd.Pool.{can_run_now, PooledCommandRunner, Command, spots, delayed_in}
use shuriken.Prelude.Assoc.{Assoc, insert, lookup-insert}
use Prim.Native.String.{String}
use text.Mathlib.TextEquality.{eq_iff}

abbrev pub running_in : String → List Command → ℕ
running_in p [] = 0
running_in p (c ∷ cs) = (if c.pool == p then 1 else 0) + running_in p cs

abbrev pub all_delayed : Assoc String (List Command) → ℕ
all_delayed [] = 0
all_delayed ((p, cs) ∷ m) = length cs + all_delayed m

pub spots-insert :
    (p q : String) (n : ℕ) (m : Assoc String ℕ)
    → spots (insert q n m) p ≡ (if q == p then n else spots m p)
spots-insert p q n m = ground (arith, lookup-insert q p n m)

pub delayed_in-insert :
    (p q : String) (cs : List Command) (m : Assoc String (List Command))
    → delayed_in (insert q cs m) p ≡ (if q == p then cs else delayed_in m p)
delayed_in-insert p q cs m = ground (arith, lookup-insert q p cs m)

pub all_delayed-insert :
    (q : String) (cs : List Command) (m : Assoc String (List Command))
    → all_delayed (insert q cs m) + length (delayed_in m q) ≡ all_delayed m + length cs
all_delayed-insert q cs [] = omega arith
all_delayed-insert q cs ((p, ds) ∷ m) = ground (arith, all_delayed-insert q cs m)

pub running_in-append :
    (p : String) (xs ys : List Command)
    → running_in p (xs ++ ys) ≡ running_in p xs + running_in p ys
running_in-append p [] ys = omega arith
running_in-append p (x ∷ xs) ys = omega (arith, running_in-append p xs ys)

pub same_spots : (p q : String) (m : Assoc String ℕ) → q == p ≡ true → spots m q ≡ spots m p
same_spots p q m h = ap (spots m) ((eq_iff q p).0 h)

pub same_delayed :
    (p q : String) (m : Assoc String (List Command))
    → q == p ≡ true
    → delayed_in m q ≡ delayed_in m p
same_delayed p q m h = ap (delayed_in m) ((eq_iff q p).0 h)

pub same_empty : (p q : String) → q == p ≡ true → q == "" ≡ p == ""
same_empty p q h = ap (λ (x : String). x == "") ((eq_iff q p).0 h)

pub can_run_now-eq :
    (r : PooledCommandRunner) (p : String)
    → can_run_now r p ≡ (p == "" || not (nat_beq (spots r.pools p) 0))
unfolding can_run_now
can_run_now-eq r p = ground arith
