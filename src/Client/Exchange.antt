-- ===== src/Client/Exchange.antt =====
-- Rearranging a part of a flat memory by exchanges, for `swap` and `quicksort` of working/vmappl.c.
use suse_vm.Prelude.{
  ℕ, ◌<◌, ◌≤◌, ◌≡◌, refl, ◌∙◌, ◌⊎◌, inl, inr, lt→ltb, Bool, true, false, lt_int, ℤ, pos, negsuc,
  some, update, Bool-cases, ◌==◌, if◌then◌else◌, arith,
}
use suse_vm.Vmem.Sizes.{virtmem_size}
use suse_vm.Flat.{Memory}
use suse_vm.Client.Program.{on_flat}
use suse_vm.Client.Appl.{swap}

abbrev pub swapped : Memory → ℕ → ℕ → Memory
swapped m a b = update (update m a (m b)) b (m a)

pub on_flat-swap :
    (m : Memory) (a b : ℕ)
    → a < virtmem_size
    → b < virtmem_size
    → on_flat (swap a b) m ≡ some (tt, swapped m a b)
unfolding on_flat swap
on_flat-swap m a b la lb = rw (lt→ltb a virtmem_size la, lt→ltb b virtmem_size lb) refl

pub swapped-value :
    (m : Memory) (a b c : ℕ)
    → swapped m a b c ≡ (if c == b then m a else (if c == a then m b else m c))
unfolding update
swapped-value m a b c = refl

-- The second memory comes from the first by exchanges within [l, n).
pub data Shuffled (l n : ℕ) : Memory → Memory → Type 0 where
  unchanged : {m : Memory} → Shuffled l n m m
  exchange :
      {m m' : Memory}
      → (a b : ℕ) → l ≤ a
      → a < n
      → l ≤ b
      → b < n
      → Shuffled l n (swapped m a b) m'
      → Shuffled l n m m'

pub Shuffled-join :
    {l n : ℕ} {m m' m'' : Memory} → Shuffled l n m m' → Shuffled l n m' m'' → Shuffled l n m m''
Shuffled-join unchanged t = t
Shuffled-join (exchange a b la an lb bn s) t = exchange a b la an lb bn (Shuffled-join s t)

pub Shuffled-widen :
    {l n l' n' : ℕ} {m m' : Memory} → l' ≤ l → n ≤ n' → Shuffled l n m m' → Shuffled l' n' m m'
Shuffled-widen hl hn unchanged = unchanged
Shuffled-widen hl hn (exchange a b la an lb bn s) =
    exchange a b (omega arith) (omega arith) (omega arith) (omega arith) (Shuffled-widen hl hn s)

pub Shuffled-outside :
    {l n : ℕ} {m m' : Memory} → Shuffled l n m m' → (c : ℕ) → (c < l) ⊎ (n ≤ c) → m' c ≡ m c
Shuffled-outside unchanged c out = refl
Shuffled-outside (exchange {m} a b la an lb bn s) c out =
    Shuffled-outside s c out ∙ swapped-value m a b c ∙ ground arith

-- What holds of all values of the part still does.
pub Shuffled-all :
    {l n : ℕ} {m m' : Memory} (p : ℤ → Bool) (v : Bool)
    → Shuffled l n m m'
    → ((c : ℕ) → l ≤ c → c < n → p (m c) ≡ v)
    → (c : ℕ) → l ≤ c
    → c < n
    → p (m' c) ≡ v
Shuffled-all p v unchanged h = h
Shuffled-all p v (exchange {m} a b la an lb bn s) h = Shuffled-all p v s λ c lc cn.
    rw (swapped-value m a b c) (elim (Bool-cases (c == b)) [
      | inl e ↦ rw e (h a la an)
      | inr e ↦
          rw e (elim (Bool-cases (c == a)) [ inl f ↦ rw f (h b lb bn) | inr f ↦ rw f (h c lc cn) ])
    ])

pub lt_int_irrefl : (x : ℤ) → lt_int x x ≡ false
lt_int_irrefl (pos a) = ground arith
lt_int_irrefl (negsuc a) = ground arith

pub lt_int_asym : (x y : ℤ) → lt_int x y ≡ true → lt_int y x ≡ false
lt_int_asym (pos a) (pos b) h = ground arith
lt_int_asym (pos a) (negsuc b) h = absurd (ground arith)
lt_int_asym (negsuc a) (pos b) h = refl
lt_int_asym (negsuc a) (negsuc b) h = ground arith

-- What is below the pivot is not above what is not below it.
pub lt_int_across : (x p y : ℤ) → lt_int x p ≡ true → lt_int y p ≡ false → lt_int y x ≡ false
lt_int_across (pos a) (pos p) (pos b) h k = ground arith
lt_int_across (negsuc a) (pos p) (pos b) h k = refl
lt_int_across x (pos p) (negsuc b) h k = absurd (ground arith)
lt_int_across (pos a) (negsuc p) y h k = absurd (ground arith)
lt_int_across (negsuc a) (negsuc p) (pos b) h k = refl
lt_int_across (negsuc a) (negsuc p) (negsuc b) h k = ground arith
